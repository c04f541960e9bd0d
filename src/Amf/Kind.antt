-- ===== src/Amf/Kind.antt =====
-- include/openrtmp/amf/amf_constants.h: `AMF_TYPE`, the types of values in an AMF object.
use lib_open_rtmp.Base.{ℕ}

abbrev pub undefined : ℕ
undefined = 0

abbrev pub null : ℕ
null = 1

abbrev pub boolean : ℕ
boolean = 2

abbrev pub integer : ℕ
integer = 3

abbrev pub double : ℕ
double = 4

abbrev pub date : ℕ
date = 5

abbrev pub string : ℕ
string = 6

abbrev pub xml_document : ℕ
xml_document = 7

abbrev pub object : ℕ
object = 8

abbrev pub typed_object : ℕ
typed_object = 9

abbrev pub object_end : ℕ
object_end = 10

abbrev pub array : ℕ
array = 11

abbrev pub vector_int : ℕ
vector_int = 12

abbrev pub vector_uint : ℕ
vector_uint = 13

abbrev pub vector_double : ℕ
vector_double = 14

abbrev pub vector_object : ℕ
vector_object = 15

abbrev pub byte_array : ℕ
byte_array = 16

abbrev pub movieclip : ℕ
movieclip = 17

abbrev pub recordset : ℕ
recordset = 18

abbrev pub reference : ℕ
reference = 19

abbrev pub unsupported : ℕ
unsupported = 20

abbrev pub avmplus : ℕ
avmplus = 21

abbrev pub absent : ℕ
absent = 22

abbrev pub ecma_array_assoc_end : ℕ
ecma_array_assoc_end = 23

abbrev pub integer24 : ℕ
integer24 = 24

abbrev pub integer16 : ℕ
integer16 = 25

abbrev pub associative : ℕ
associative = 26

abbrev pub complex : ℕ
complex = 27
