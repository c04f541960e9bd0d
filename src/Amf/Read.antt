-- ===== src/Amf/Read.antt =====
-- src/amf/amf_object.c: AMF0 data read into an AMF object.
pub mod Rounds
pub mod Measure
pub mod Reach
pub mod Values
pub mod Ends
pub mod Nested
pub mod Items
pub mod Loops
use lib_open_rtmp.Base.{
  ℕ, zero, suc, ◌+◌, ◌^◌, Bool, true, false, ◌||◌, Option, none, some, List, [], ◌∷◌, ltb, leb,
  ◌==◌, if◌then◌else◌, length, drop,
}
use lib_open_rtmp.Amf.{AmfErr, invalid_data, amf_code, Outcome, complete, fails, beyond, amf_size}
use lib_open_rtmp.Amf.Marker
use lib_open_rtmp.Amf.Shorthand.{Value, number, bytes}
use lib_open_rtmp.Amf.Decode.{
  amf0_next_type, amf0_get_number, amf0_get_boolean, amf0_get_string_length, amf0_get_string,
  amf0_get_object, amf0_get_prop_length, amf0_get_prop_name, amf0_get_movieclip, amf0_get_null,
  amf0_get_undefined, amf0_get_reference, amf0_get_ecma_array, amf0_get_object_end, amf0_get_date,
  amf0_get_unsupported, amf0_get_long_string_length, amf0_get_long_string,
  amf0_get_xmldocument_length, amf0_get_xmldocument, amf0_get_unimplemented,
}
use lib_open_rtmp.Amf.Builder.{
  Amf, Pushed, pushed, refused, crashed, own, amf_push_double, amf_push_boolean, amf_push_null,
  amf_push_undefined, amf_push_unsupported, amf_push_date, amf_push_reference, amf_push_string,
  amf_push_long_string, amf_push_xml, amf_push_string_alloc, amf_push_object_start,
  amf_push_ecma_start, amf_push_member, amf_push_object_end,
}

-- The local state of `amf_read`: the object, the data from the offset on, and the length that was
-- read last, which is arbitrary at first.
pub record Reader : Type 0 where
  pub amf : Amf
  pub rest : List ℕ
  pub offset : ℕ
  pub temp_size : ℕ

-- A step leads on, leaves the loop with a negative `result`, or is undefined.
pub data Step : Type 0 where
  stepped : Reader → Step
  aborted : ℕ → Reader → Step
  undefined_step : Step

abbrev pub step_then : Step → (Reader → Step) → Step
step_then (stepped r) f = f r
step_then (aborted result r) f = aborted result r
step_then undefined_step f = undefined_step

-- `if( result < 0 ) goto aborted;` after a call of the decoder.
abbrev pub decoded : Reader → Outcome (ℕ × List Value) → (ℕ → List Value → Step) → Step
decoded r (complete (k, vs)) f = if leb (2 ^ 31) k then aborted k r else f k vs
decoded r (fails e) f = aborted (amf_code e) r
decoded r beyond f = undefined_step

-- The same after a push.
abbrev pub built : Reader → Pushed → (Reader → Step) → Step
built r (pushed amf) f = f (record r { amf = amf })
built r (refused e amf) f = aborted (amf_code e) (record r { amf = amf })
built r crashed f = undefined_step

-- `offset += result;`
abbrev pub consume : ℕ → Reader → Reader
consume k r = record r { rest = drop k r.rest; offset = r.offset + k }

abbrev pub number_of : List Value → ℕ
number_of (number n ∷ vs) = n
number_of _ = 0

abbrev pub second_of : List Value → ℕ
second_of (v ∷ vs) = number_of vs
second_of [] = 0

-- The copy of a string in the object's buffer.
abbrev pub copied : List Value → Amf → Amf
copied (bytes s ∷ vs) amf = record amf { allocation = some s }
copied _ amf = amf

-- Inside an object, the name of the next member.
unfoldable pub read_member_name : (malloc : ℕ → Bool) (r : Reader) → Step
unfolding amf0_get_prop_length amf_push_string_alloc amf0_get_prop_name amf_push_member
read_member_name malloc r =
    if ltb 0 r.amf.depth
    then decoded r (amf0_get_prop_length r.rest) (λ k vs.
      built (record r { temp_size = number_of vs })
        (amf_push_string_alloc malloc (number_of vs) r.amf)
        (λ s.
          decoded s (amf0_get_prop_name s.rest s.temp_size)
            (λ n ws. built (consume n s) (amf_push_member malloc own (copied ws s.amf)) stepped)))
    else stepped r

abbrev pub is_text : ℕ → Bool
is_text type = type == Marker.long_string || type == Marker.string || type == Marker.xml_document

-- The first `switch`, less the strings.
unfoldable pub scan : ℕ → List ℕ → Outcome (ℕ × List Value)
unfolding amf0_get_number amf0_get_boolean amf0_get_object amf0_get_movieclip amf0_get_null
    amf0_get_undefined amf0_get_reference amf0_get_ecma_array amf0_get_object_end amf0_get_date
    amf0_get_unsupported amf0_get_unimplemented
scan type rest =
    if type == Marker.boolean
    then amf0_get_boolean rest
    else if type == Marker.date
    then amf0_get_date rest
    else if type == Marker.ecma_array
    then amf0_get_ecma_array rest
    else if type == Marker.movieclip
    then amf0_get_movieclip rest
    else if type == Marker.null
    then amf0_get_null rest
    else if type == Marker.number
    then amf0_get_number rest
    else if type == Marker.object
    then amf0_get_object rest
    else if type == Marker.object_end
    then amf0_get_object_end rest
    else if type == Marker.reference
    then amf0_get_reference rest
    else if type == Marker.undefined
    then amf0_get_undefined rest
    else if type == Marker.unsupported
    then amf0_get_unsupported rest
    else if is_one_of_unimplemented type
    then amf0_get_unimplemented rest
    else if type == Marker.avmplus || is_text type
    then complete (0, [])
    else fails invalid_data
  where
    is_one_of_unimplemented : ℕ → Bool
    is_one_of_unimplemented t =
        t == Marker.recordset || t == Marker.strict_array || t == Marker.typed_object

-- The length of a string; nothing looks at its result.
unfoldable pub text_length : ℕ → List ℕ → Outcome (ℕ × List Value)
unfolding amf0_get_string_length amf0_get_long_string_length amf0_get_xmldocument_length
text_length type rest =
    if type == Marker.long_string
    then amf0_get_long_string_length rest
    else if type == Marker.string
    then amf0_get_string_length rest
    else amf0_get_xmldocument_length rest

abbrev pub length_read : ℕ → Outcome (ℕ × List Value) → ℕ
length_read old (complete (k, vs)) = number_of vs
length_read old _ = old

unfoldable pub text : ℕ → List ℕ → ℕ → Outcome (ℕ × List Value)
unfolding amf0_get_string amf0_get_long_string amf0_get_xmldocument
text type rest room =
    if type == Marker.long_string
    then amf0_get_long_string rest room
    else if type == Marker.string
    then amf0_get_string rest room
    else amf0_get_xmldocument rest room

-- The buffer for a string and the copy of the string in it.
unfoldable pub read_text : (malloc : ℕ → Bool) (type : ℕ) (r : Reader) → Step
unfolding text_length amf_push_string_alloc text
read_text malloc type r =
    let size = length_read r.temp_size (text_length type r.rest) in
    built (record r { temp_size = size }) (amf_push_string_alloc malloc size r.amf)
      (λ s.
        decoded s (text type s.rest size)
          (λ k vs. stepped (consume k (record s { amf = copied vs s.amf }))))

-- The last `switch`.
unfoldable pub push : (malloc : ℕ → Bool) (type : ℕ) (vs : List Value) (amf : Amf) → Pushed
unfolding amf_push_double amf_push_boolean amf_push_null amf_push_undefined amf_push_unsupported
    amf_push_date amf_push_reference amf_push_string amf_push_long_string amf_push_xml
    amf_push_object_start amf_push_ecma_start amf_push_object_end
push malloc type vs amf =
    if type == Marker.avmplus
    then pushed amf
    else if type == Marker.boolean
    then amf_push_boolean (number_of vs) amf
    else if type == Marker.date
    then amf_push_date (number_of vs) (second_of vs) amf
    else if type == Marker.ecma_array
    then amf_push_ecma_start (number_of vs) amf
    else if type == Marker.long_string
    then amf_push_long_string malloc own amf
    else if type == Marker.null
    then amf_push_null amf
    else if type == Marker.number
    then amf_push_double (number_of vs) amf
    else if type == Marker.object
    then amf_push_object_start amf
    else if type == Marker.object_end
    then amf_push_object_end amf
    else if type == Marker.reference
    then amf_push_reference (number_of vs) amf
    else if type == Marker.string
    then amf_push_string malloc own amf
    else if type == Marker.undefined
    then amf_push_undefined amf
    else if type == Marker.unsupported
    then amf_push_unsupported amf
    else if type == Marker.xml_document
    then amf_push_xml malloc own amf
    else refused invalid_data amf

unfoldable pub read_item : (malloc : ℕ → Bool) (type : ℕ) (r : Reader) → Step
unfolding scan read_text push
read_item malloc type r = decoded r (scan type r.rest) (λ k vs.
    let s = consume k r in
    step_then (if is_text type then read_text malloc type s else stepped s)
      (λ t. built t (push malloc type vs t.amf) stepped))

-- One round of the loop.
unfoldable pub read_round : (malloc : ℕ → Bool) (r : Reader) → Step
unfolding read_member_name amf0_next_type read_item
read_round malloc r =
    step_then (read_member_name malloc r) (λ s. read_item malloc (amf0_next_type s.rest) s)

-- How `amf_read` ends: with the size read; with an error and the offset for `read`; undefined; or
-- not within the fuel.
pub data ReadEnd : Type 0 where
  read_done : ℕ → Amf → ReadEnd
  read_error : ℕ → ℕ → Amf → ReadEnd
  read_undefined : ReadEnd
  out_of_fuel : ReadEnd

abbrev pub read_on : (Reader → ReadEnd) → Step → ReadEnd
read_on next (stepped r) = next r
read_on next (aborted result r) = read_error result r.offset r.amf
read_on next undefined_step = read_undefined

unfoldable pub read_loop : (malloc : ℕ → Bool) (fuel : ℕ) (r : Reader) → ReadEnd
unfolding read_round
read_loop malloc zero r = out_of_fuel
read_loop malloc (suc fuel) r =
    if ltb 0 (length r.rest)
    then read_on (read_loop malloc fuel) (read_round malloc r)
    else read_done (amf_size r.offset) r.amf

unfoldable pub amf_read :
    (malloc : ℕ → Bool) (fuel : ℕ) (junk : ℕ) (amf : Amf) (src : List ℕ) → ReadEnd
unfolding read_loop
amf_read malloc fuel junk amf src =
    read_loop malloc fuel (record { amf = amf; rest = src; offset = 0; temp_size = junk })
