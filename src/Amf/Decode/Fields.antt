-- ===== src/Amf/Decode/Fields.antt =====
-- include/openrtmp/amf/amf_shorthand.h: the fields of an item, read from the bytes that were written
-- for them.
use lib_open_rtmp.Base.{
  ℕ, zero, suc, ◌+◌, ◌*◌, ◌/◌, ◌%◌, ◌^◌, ◌≤◌, ◌<◌, ◌≡◌, ◌≢◌, refl, ap, ap₂, ◌∙◌, min, List, [], ◌∷◌,
  ◌++◌, arith, u16, add64, length, take, slice, le→not_ltb, ne→not_==, eq→==, length-append,
  take-append_front, drop-append_front,
}
use lib_open_rtmp.Util.Memutil.{
  host_bytes, host_value, ntoh_memcpy, ntoh_read_s, ntoh_write_s, ntoh_read_ud, ntoh_write_ud,
}
use lib_open_rtmp.Amf.{Outcome, complete, ◌>>=◌, amf_size, sign_extend}
use lib_open_rtmp.Amf.Marker
use lib_open_rtmp.Amf.Shorthand.{
  Field, Value, bytes, Cursor, last_length, read_double_ieee, read_string, amf_read, amf_sizes,
  describe_decode, describe_decode_i,
}
use lib_open_rtmp.Amf.Format.{double_bytes}

abbrev byte_bound : ℕ → ℕ
byte_bound zero = 1
byte_bound (suc n) = 256 * byte_bound n

host_value-host_bytes : (n v : ℕ) → v < byte_bound n → host_value (host_bytes n v) ≡ v
unfolding host_value host_bytes
host_value-host_bytes zero v h = omega arith
host_value-host_bytes (suc n) v h =
    ap (λ (t : ℕ). v % 256 + 256 * t) (host_value-host_bytes n (v / 256) (omega arith))
    ∙ omega arith

pub read_double_ieee-double_bytes :
    (v : ℕ) (rest : List ℕ)
    → v < 2 ^ 64
    → read_double_ieee (ntoh_memcpy (double_bytes v ++ rest) 8) ≡ v
unfolding read_double_ieee double_bytes ntoh_memcpy host_bytes
read_double_ieee-double_bytes v rest h = host_value-host_bytes 8 v h

-- A signed 16-bit number that is not negative is widened to itself.
pub sign_extend-short :
    (width v : ℕ) (rest : List ℕ)
    → v < 2 ^ 15
    → sign_extend width (ntoh_read_s (ntoh_write_s v ++ rest)) ≡ v
unfolding ntoh_read_s ntoh_write_s ntoh_memcpy host_value host_bytes
sign_extend-short width v rest h = ground arith

pub u16-sign_extend :
    (v : ℕ) (rest : List ℕ)
    → v < 2 ^ 16
    → u16 (sign_extend 32 (ntoh_read_s (ntoh_write_s v ++ rest))) ≡ v
unfolding ntoh_read_s ntoh_write_s ntoh_memcpy host_value host_bytes
u16-sign_extend v rest h = ground arith

pub ntoh_read_ud-append :
    (v : ℕ) (rest : List ℕ) → v < 2 ^ 32 → ntoh_read_ud (ntoh_write_ud v ++ rest) ≡ v
unfolding ntoh_read_ud ntoh_write_ud ntoh_memcpy host_value host_bytes
ntoh_read_ud-append v rest h = omega arith

-- The string behind its length.
pub read_string_lem :
    (front s rest : List ℕ) (total offset len : ℕ) (stored : List Value)
    → offset ≡ length front
    → len < 2 ^ 31
    → len + length s ≤ total
    → last_length stored ≡ length s
    → length front < 2 ^ 31
    → length s < 2 ^ 31
    → read_string
        (front ++ (s ++ rest))
        total
        (length s)
        (record { offset = offset; len = len; stored = stored })
      ≡ complete
          (record { offset = offset + length s; len = len + length s; stored = bytes s ∷ stored })
unfolding read_string
read_string_lem front s rest total offset len stored at little fits known small short =
    rw (known, at, le→not_ltb total_fits, le→not_ltb (inside sizes), copy) same
  where
    at_end : ℕ → ℕ → Outcome Cursor
    at_end k j = complete (record { offset = k; len = j; stored = bytes s ∷ stored })

    same :
        at_end (add64 (length front) (length s)) (add64 len (length s))
        ≡ at_end (length front + length s) (len + length s)
    same = ap₂ at_end (omega arith) (omega arith)

    sizes : length (front ++ (s ++ rest)) ≡ length front + (length s + length rest)
    sizes =
        length-append front (s ++ rest) ∙ ap (λ (k : ℕ). length front + k) (length-append s rest)

    total_fits : add64 len (length s) ≤ total
    total_fits = omega arith

    inside :
        length (front ++ (s ++ rest)) ≡ length front + (length s + length rest)
        → length front + min (length s) (length s) ≤ length (front ++ (s ++ rest))
    inside e = omega arith

    copy : slice (front ++ (s ++ rest)) (length front) (min (length s) (length s)) ≡ s
    copy =
        ap (take (min (length s) (length s)))
          (drop-append_front (length front) front (s ++ rest) refl)
        ∙ take-append_front (min (length s) (length s)) s rest (omega arith)

-- What `describe_decode` does to data that starts with the item's marker.
pub describe_decode_lem :
    (type : ℕ) (fields : List Field) (body : List ℕ)
    → type ≢ Marker.absent
    → amf_sizes fields ≤ length body
    → describe_decode (type ∷ body) type fields ≡ (
        amf_read body
          (suc (length body))
          fields
          (record { offset = 0; len = amf_sizes fields + 1; stored = [] })
        >>= λ c. complete (amf_size c.len, c.stored))
unfolding describe_decode describe_decode_i
describe_decode_lem type fields body present fits =
    rw (ne→not_== present, le→not_ltb (at_most fits), eq→== {a = type} refl) refl
  where
    at_most : amf_sizes fields ≤ length body → amf_sizes fields + 1 ≤ suc (length body)
    at_most h = omega arith

pub describe_decode_unmarked :
    (fields : List Field) (body : List ℕ)
    → amf_sizes fields ≤ length body
    → describe_decode_i body Marker.absent fields
      ≡ amf_read body
          (length body)
          fields
          (record { offset = 0; len = amf_sizes fields + 0; stored = [] })
unfolding describe_decode_i
describe_decode_unmarked fields body fits = rw (le→not_ltb (at_most fits)) refl
  where
    at_most : amf_sizes fields ≤ length body → amf_sizes fields + 0 ≤ length body
    at_most h = omega arith
