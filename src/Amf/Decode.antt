-- ===== src/Amf/Decode.antt =====
-- src/amf/amf0_decode.c: the readers. Each gives the bytes consumed and the values stored, the last
-- first; the length of a string is among them.
pub mod Fields
pub mod Oversized
pub mod Items
use lib_open_rtmp.Base.{ℕ, List, [], ◌∷◌, ltb, leb, if◌then◌else◌, length, get_or}
use lib_open_rtmp.Amf.{AmfErr, invalid_data, Outcome, complete, fails, amf_size}
use lib_open_rtmp.Amf.Marker
use lib_open_rtmp.Amf.Shorthand.{
  Field, boolean, integer, integer16, double, string, Value, describe_decode, describe_decode_peek,
}

unfoldable pub amf0_next_type : List ℕ → ℕ
amf0_next_type mem =
    if ltb (length mem) 1
    then Marker.unsupported
    else if leb (get_or mem 0 0) Marker.avmplus
    then get_or mem 0 0
    else Marker.unsupported

unfoldable pub amf0_get_number : List ℕ → Outcome (ℕ × List Value)
unfolding describe_decode
amf0_get_number mem = describe_decode mem Marker.number (double ∷ [])

unfoldable pub amf0_get_boolean : List ℕ → Outcome (ℕ × List Value)
unfolding describe_decode
amf0_get_boolean mem = describe_decode mem Marker.boolean (boolean ∷ [])

-- The length goes to a `size_t`.
unfoldable pub amf0_get_string_length : List ℕ → Outcome (ℕ × List Value)
unfolding describe_decode
amf0_get_string_length mem = describe_decode mem Marker.string (integer16 64 ∷ [])

unfoldable pub amf0_get_string : List ℕ → ℕ → Outcome (ℕ × List Value)
unfolding describe_decode
amf0_get_string mem value_len =
    describe_decode mem Marker.string (integer16 64 ∷ string value_len ∷ [])

unfoldable pub amf0_get_object : List ℕ → Outcome (ℕ × List Value)
unfolding describe_decode
amf0_get_object mem = describe_decode mem Marker.object []

unfoldable pub amf0_get_prop_length : List ℕ → Outcome (ℕ × List Value)
unfolding describe_decode_peek
amf0_get_prop_length mem = describe_decode_peek mem Marker.absent (integer16 64 ∷ [])

unfoldable pub amf0_get_prop_name : List ℕ → ℕ → Outcome (ℕ × List Value)
unfolding describe_decode
amf0_get_prop_name mem value_len =
    describe_decode mem Marker.absent (integer16 64 ∷ string value_len ∷ [])

unfoldable pub amf0_get_movieclip : List ℕ → Outcome (ℕ × List Value)
amf0_get_movieclip mem = fails invalid_data

unfoldable pub amf0_get_null : List ℕ → Outcome (ℕ × List Value)
unfolding describe_decode
amf0_get_null mem = describe_decode mem Marker.null []

unfoldable pub amf0_get_undefined : List ℕ → Outcome (ℕ × List Value)
unfolding describe_decode
amf0_get_undefined mem = describe_decode mem Marker.undefined []

unfoldable pub amf0_get_reference : List ℕ → Outcome (ℕ × List Value)
unfolding describe_decode
amf0_get_reference mem = describe_decode mem Marker.reference (integer16 32 ∷ [])

unfoldable pub amf0_get_ecma_array : List ℕ → Outcome (ℕ × List Value)
unfolding describe_decode
amf0_get_ecma_array mem = describe_decode mem Marker.ecma_array (integer ∷ [])

unfoldable pub amf0_get_object_end : List ℕ → Outcome (ℕ × List Value)
unfolding describe_decode
amf0_get_object_end mem = describe_decode mem Marker.object_end []

unfoldable pub amf0_get_date : List ℕ → Outcome (ℕ × List Value)
unfolding describe_decode
amf0_get_date mem = describe_decode mem Marker.date (integer16 32 ∷ double ∷ [])

unfoldable pub amf0_get_unsupported : List ℕ → Outcome (ℕ × List Value)
unfolding describe_decode
amf0_get_unsupported mem = describe_decode mem Marker.unsupported []

unfoldable pub amf0_get_long_string_length : List ℕ → Outcome (ℕ × List Value)
unfolding describe_decode
amf0_get_long_string_length mem = describe_decode mem Marker.long_string (integer ∷ [])

unfoldable pub amf0_get_long_string : List ℕ → ℕ → Outcome (ℕ × List Value)
unfolding describe_decode
amf0_get_long_string mem value_len =
    describe_decode mem Marker.long_string (integer ∷ string value_len ∷ [])

unfoldable pub amf0_get_xmldocument_length : List ℕ → Outcome (ℕ × List Value)
unfolding describe_decode
amf0_get_xmldocument_length mem = describe_decode mem Marker.xml_document (integer ∷ [])

unfoldable pub amf0_get_xmldocument : List ℕ → ℕ → Outcome (ℕ × List Value)
unfolding describe_decode
amf0_get_xmldocument mem value_len =
    describe_decode mem Marker.xml_document (integer ∷ string value_len ∷ [])

-- The readers of strict arrays, record sets and typed objects: they report an error on the log and
-- consume one byte.
unfoldable pub amf0_get_unimplemented : List ℕ → Outcome (ℕ × List Value)
amf0_get_unimplemented mem = complete (1, [])
