-- ===== src/Amf/Decode/Oversized.antt =====
-- src/amf/amf0_encode.c and amf0_decode.c: short strings whose length does not fit a signed 16-bit
-- number.
use lib_open_rtmp.Base.{
  ℕ, suc, ◌+◌, ◌-◌, ◌*◌, ◌/◌, ◌%◌, ◌^◌, ◌≤◌, ◌<◌, ◌≡◌, refl, ap, ◌∙◌, some, List, [], ◌∷◌, ◌++◌,
  arith, add64, length, length-append, lt→ltb, le→not_ltb, drop,
}
use lib_open_rtmp.Util.Memutil.{host_bytes, ntoh_memcpy, ntoh_read_s, ntoh_write_s}
use lib_open_rtmp.Amf.{complete, fails, incomplete, sign_extend}
use lib_open_rtmp.Amf.Marker
use lib_open_rtmp.Amf.Shorthand.{
  integer16, string, amf_read, amf_sizes, read_field, read_string, amf_size_of,
}
use lib_open_rtmp.Amf.Encode.{amf0_write_string}
use lib_open_rtmp.Amf.Write.Layout.{string-Writes}
use lib_open_rtmp.Amf.Decode.{amf0_get_string}
use lib_open_rtmp.Amf.Decode.Fields.{describe_decode_lem}
use lib_open_rtmp.Amf.Format.{name_bytes, text_bytes}

text_bytes_lem : (s : List ℕ) → length s ≤ 0xFFFF → text_bytes s ≡ Marker.string ∷ name_bytes s
unfolding text_bytes
text_bytes_lem s h = rw (le→not_ltb {a = 0xFFFF} {b = length s} h) refl

sign_extend-long :
    (n : ℕ)
    → 2 ^ 15 ≤ n
    → n < 2 ^ 16
    → sign_extend 64 (n % 256 + 256 * (n / 256 % 256 + 0)) ≡ n + (2 ^ 64 - 2 ^ 16)
sign_extend-long n h k =
    ap (sign_extend 64) {x = n % 256 + 256 * (n / 256 % 256 + 0)} {y = n} (omega arith)
    ∙ rw (le→not_ltb h) refl

name_lem : (s : List ℕ) → length (Marker.string ∷ name_bytes s) ≡ length s + 3
unfolding name_bytes ntoh_write_s ntoh_memcpy host_bytes
name_lem s = omega arith

refused_lem :
    (s rest : List ℕ)
    → 2 ^ 15 ≤ length s
    → length s < 0xFFFD
    → length rest < 2 ^ 62
    → amf0_get_string (Marker.string ∷ (name_bytes s ++ rest)) (length s) ≡ fails incomplete
unfolding amf0_get_string amf_read amf_sizes read_field read_string amf_size_of name_bytes
    ntoh_write_s ntoh_memcpy host_bytes ntoh_read_s
refused_lem s rest h k small =
    describe_decode_lem Marker.string (integer16 64 ∷ string (length s) ∷ []) (name_bytes s ++ rest)
      (omega arith) (omega arith)
    ∙ rw (sign_extend-long (length s) h (omega arith), lt→ltb past) refl
  where
    past :
        suc (length (ntoh_write_s (length s) ++ (s ++ rest)))
        < add64 3 (length s + (2 ^ 64 - 2 ^ 16))
    past = omega (arith, length-append s rest)

-- A string of 32,768 to 65,532 bytes is written by `amf0_write_string` as a short string, which
-- `amf0_get_string` refuses as incomplete, whatever follows it: its length is read as a negative
-- number.
pub amf0_get_string-amf0_write_string_oversized :
    (s mem rest : List ℕ)
    → 2 ^ 15 ≤ length s
    → length s < 0xFFFD
    → length s + 3 ≤ length mem
    → length rest < 2 ^ 62
    → (bytes : List ℕ) × (amf0_write_string (some mem) s
        ≡ complete (length bytes, some (bytes ++ drop (length bytes) mem)))
      × (amf0_get_string (bytes ++ rest) (length s) ≡ fails incomplete)
amf0_get_string-amf0_write_string_oversized s mem rest h k room small = (
  text_bytes s,
  string-Writes s mem (omega (arith, sized, room)) (omega (arith, sized, k)),
  rw (text_bytes_lem s (omega (arith, k))) (refused_lem s rest h k small),
)
  where
    sized : length (text_bytes s) ≡ length s + 3
    sized = rw (text_bytes_lem s (omega (arith, k))) (name_lem s)
