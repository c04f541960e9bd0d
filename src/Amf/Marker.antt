-- ===== src/Amf/Marker.antt =====
-- include/openrtmp/amf/amf_constants.h: `AMF0_TYPE`.
use lib_open_rtmp.Base.{ℕ}

abbrev pub number : ℕ
number = 0

abbrev pub boolean : ℕ
boolean = 1

abbrev pub string : ℕ
string = 2

abbrev pub object : ℕ
object = 3

abbrev pub movieclip : ℕ
movieclip = 4

abbrev pub null : ℕ
null = 5

abbrev pub undefined : ℕ
undefined = 6

abbrev pub reference : ℕ
reference = 7

abbrev pub ecma_array : ℕ
ecma_array = 8

abbrev pub object_end : ℕ
object_end = 9

abbrev pub strict_array : ℕ
strict_array = 10

abbrev pub date : ℕ
date = 11

abbrev pub long_string : ℕ
long_string = 12

abbrev pub unsupported : ℕ
unsupported = 13

abbrev pub recordset : ℕ
recordset = 14

abbrev pub xml_document : ℕ
xml_document = 15

abbrev pub typed_object : ℕ
typed_object = 16

abbrev pub avmplus : ℕ
avmplus = 17

-- The marker of an item that has none; AMF0_TYPE_NUMBER_INT is 18.
abbrev pub absent : ℕ
absent = 19
