-- ===== src/Tests/Amf.antt =====
-- src/amf/amf_object.c and amf0_decode.c on concrete objects and data.
use lib_open_rtmp.Base.{
  ℕ, suc, Bool, ◌≡◌, refl, inl, ap, true, false, some, none, List, [], ◌∷◌, ◌++◌, arith, length,
  drop, replicate, length-replicate,
}
use lib_open_rtmp.Amf.{complete, fails, incomplete}
use lib_open_rtmp.Amf.Marker
use lib_open_rtmp.Amf.Value.{AmfValue, v_double, v_boolean, v_string, v_object, no_members, member}
use lib_open_rtmp.Amf.Builder.{Amf, amf_create}
use lib_open_rtmp.Amf.Format.{Plain, format}
use lib_open_rtmp.Amf.Encode.{amf0_write_string}
use lib_open_rtmp.Amf.Write.{amf_write}
use lib_open_rtmp.Amf.Write.Items.{PlainItems, format_items, amf_write_lem}
use lib_open_rtmp.Amf.Write.Query.{amf_write_query}
use lib_open_rtmp.Amf.Read.{amf_read, read_done, out_of_fuel}
use lib_open_rtmp.Amf.Read.Items.{sent, objects_all, amf_read-amf_write}
use lib_open_rtmp.Amf.Read.Loops.{amf_read-avmplus}
use lib_open_rtmp.Amf.Decode.{amf0_get_string}
use lib_open_rtmp.Amf.Decode.Oversized.{amf0_get_string-amf0_write_string_oversized}

-- A command name, and an object with a number and a flag.
abbrev pub command_items : List AmfValue
command_items =
    v_string (99 ∷ 111 ∷ [])
    ∷ v_object (member (97 ∷ []) (v_double 5) (member (98 ∷ []) (v_boolean 1) no_members))
    ∷ []

abbrev pub command : Amf
command = record {
  references = 0;
  depth = 0;
  items = command_items;
  ref_count = 1;
  allocation = none;
  member_ready = false;
}

pub command-PlainItems : PlainItems command_items
unfolding PlainItems Plain
command-PlainItems =
    (inl (omega arith), ((omega arith, omega arith, (omega arith, omega arith, tt)), tt))

pub command_size : length (format_items command_items) ≡ 26
unfolding format_items format
command_size = refl

abbrev pub buffer : List ℕ
buffer = replicate 40 0

pub buffer_size : length buffer ≡ 40
buffer_size = refl

abbrev always : ℕ → Bool
always n = true

amf_read-amf_write_example :
    amf_read always
      (suc (length (sent (amf_write command (some buffer)))))
      0
      amf_create
      (sent (amf_write command (some buffer)))
    ≡ read_done
        (length (sent (amf_write command (some buffer))))
        (record amf_create { items = command_items; ref_count = objects_all command_items })
amf_read-amf_write_example =
    amf_read-amf_write always (λ n h. refl) command buffer 0 command-PlainItems
      (omega (arith, command_size, buffer_size)) (omega (arith, command_size))

amf_write_lem_example : amf_write command (some buffer) ≡ (
  length (format_items command_items),
  length command_items,
  some (format_items command_items ++ drop (length (format_items command_items)) buffer),
)
amf_write_lem_example =
    amf_write_lem command buffer command-PlainItems (omega (arith, command_size, buffer_size))
      (omega (arith, command_size))

command_written : (amf_write command (some buffer)).1 ≡ length command_items
command_written = ap (λ r. r.1) amf_write_lem_example

amf_write_query_example :
    amf_write command none ≡ ((amf_write command (some buffer)).0, length command_items, none)
amf_write_query_example = amf_write_query command buffer command_written

amf_read-avmplus_example : amf_read always 100 0 command (Marker.avmplus ∷ 1 ∷ 2 ∷ []) ≡ out_of_fuel
amf_read-avmplus_example = amf_read-avmplus always 100 0 command (1 ∷ 2 ∷ []) refl

abbrev long_text : List ℕ
long_text = replicate 0x8000 97

abbrev large_buffer : List ℕ
large_buffer = replicate 40000 0

long_text_size : length long_text ≡ 0x8000
long_text_size = length-replicate {A = ℕ} 0x8000 97

large_size : length large_buffer ≡ 40000
large_size = length-replicate {A = ℕ} 40000 0

amf0_get_string-amf0_write_string_oversized_example :
    (bytes : List ℕ) × (amf0_write_string (some large_buffer) long_text
      ≡ complete (length bytes, some (bytes ++ drop (length bytes) large_buffer)))
    × (amf0_get_string (bytes ++ []) (length long_text) ≡ fails incomplete)
amf0_get_string-amf0_write_string_oversized_example =
    amf0_get_string-amf0_write_string_oversized long_text large_buffer []
      (omega (arith, long_text_size)) (omega (arith, long_text_size))
      (omega (arith, long_text_size, large_size)) (omega arith)
