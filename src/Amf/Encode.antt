-- ===== src/Amf/Encode.antt =====
-- src/amf/amf0_encode.c: the writers. A buffer is `some` of its bytes, `none` for `nullptr`; a
-- value of `value_len` bytes is the list of them.
pub mod Layout
use lib_open_rtmp.Base.{ℕ, Option, none, some, List, [], ◌∷◌, ltb, if◌then◌else◌, length, bit_and}
use lib_open_rtmp.Amf.{AmfErr, invalid_data, Outcome, complete, fails, amf_size}
use lib_open_rtmp.Amf.Marker
use lib_open_rtmp.Amf.Shorthand.{
  Item, put_boolean, put_integer, put_integer16, put_double, put_string, describe_encode,
}

abbrev pub Memory : Type 0
Memory = Option (List ℕ)

unfoldable pub amf0_write_number : Memory → ℕ → Outcome (ℕ × Memory)
unfolding describe_encode
amf0_write_number mem value = describe_encode mem Marker.number (put_double value ∷ [])

unfoldable pub amf0_write_boolean : Memory → ℕ → Outcome (ℕ × Memory)
unfolding describe_encode
amf0_write_boolean mem value =
    describe_encode mem Marker.boolean (put_boolean (bit_and value 255) ∷ [])

abbrev string_item : List ℕ → Item
string_item value = put_string (length value) (length value) value

unfoldable pub amf0_write_long_string : Memory → List ℕ → Outcome (ℕ × Memory)
unfolding describe_encode
amf0_write_long_string mem value =
    describe_encode mem Marker.long_string (put_integer (length value) ∷ string_item value ∷ [])

unfoldable pub amf0_write_string : Memory → List ℕ → Outcome (ℕ × Memory)
unfolding describe_encode
amf0_write_string mem value =
    if ltb 0xFFFF (length value)
    then describe_encode mem Marker.long_string
        (put_integer (length value) ∷ string_item value ∷ [])
    else describe_encode mem Marker.string (put_integer16 (length value) ∷ string_item value ∷ [])

unfoldable pub amf0_write_object : Memory → Outcome (ℕ × Memory)
unfolding describe_encode
amf0_write_object mem = describe_encode mem Marker.object []

unfoldable pub amf0_write_prop_name : Memory → List ℕ → Outcome (ℕ × Memory)
unfolding describe_encode
amf0_write_prop_name mem value =
    describe_encode mem Marker.absent (put_integer16 (length value) ∷ string_item value ∷ [])

unfoldable pub amf0_write_movieclip : Memory → Outcome (ℕ × Memory)
amf0_write_movieclip mem = fails invalid_data

unfoldable pub amf0_write_null : Memory → Outcome (ℕ × Memory)
unfolding describe_encode
amf0_write_null mem = describe_encode mem Marker.null []

unfoldable pub amf0_write_undefined : Memory → Outcome (ℕ × Memory)
unfolding describe_encode
amf0_write_undefined mem = describe_encode mem Marker.undefined []

unfoldable pub amf0_write_reference : Memory → ℕ → Outcome (ℕ × Memory)
unfolding describe_encode
amf0_write_reference mem value = describe_encode mem Marker.reference (put_integer16 value ∷ [])

unfoldable pub amf0_write_ecma_array : Memory → ℕ → Outcome (ℕ × Memory)
unfolding describe_encode
amf0_write_ecma_array mem array_len =
    describe_encode mem Marker.ecma_array (put_integer array_len ∷ [])

unfoldable pub amf0_write_object_end : Memory → Outcome (ℕ × Memory)
unfolding describe_encode
amf0_write_object_end mem = describe_encode mem Marker.object_end []

unfoldable pub amf0_write_date : Memory → ℕ → ℕ → Outcome (ℕ × Memory)
unfolding describe_encode
amf0_write_date mem timezone timestamp =
    describe_encode mem Marker.date (put_integer16 timezone ∷ put_double timestamp ∷ [])

unfoldable pub amf0_write_xmldocument : Memory → List ℕ → Outcome (ℕ × Memory)
unfolding describe_encode
amf0_write_xmldocument mem value =
    describe_encode mem Marker.xml_document (put_integer (length value) ∷ string_item value ∷ [])

-- The writers of strict arrays, unsupported values, record sets and typed objects: they report an
-- error on the log and write nothing.
unfoldable pub amf0_write_nothing : Memory → Outcome (ℕ × Memory)
amf0_write_nothing mem = complete (amf_size 0, mem)
