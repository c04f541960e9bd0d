-- ===== src/Amf/Decode/Items.antt =====
-- src/amf/amf0_decode.c: the readers on the data that the writers wrote, whatever follows it.
use lib_open_rtmp.Base.{
  ℕ, suc, ◌+◌, ◌^◌, ◌<◌, ◌≡◌, ◌≢◌, refl, ap, ◌∙◌, List, [], ◌∷◌, ◌++◌, arith, length, length-append,
}
use lib_open_rtmp.Util.Memutil.{host_bytes, ntoh_memcpy, ntoh_read_s, ntoh_write_s, ntoh_write_ud}
use lib_open_rtmp.Amf.{Outcome, complete, ◌>>=◌, amf_size, sign_extend}
use lib_open_rtmp.Amf.Marker
use lib_open_rtmp.Amf.Shorthand.{
  boolean, integer, integer16, double, string, Value, number, bytes, Cursor, amf_read, amf_sizes,
  describe_decode, describe_decode_peek, read_field, amf_size_of,
}
use lib_open_rtmp.Amf.Decode.{
  amf0_get_number, amf0_get_boolean, amf0_get_string_length, amf0_get_string, amf0_get_prop_length,
  amf0_get_prop_name, amf0_get_ecma_array, amf0_get_date,
}
use lib_open_rtmp.Amf.Decode.Fields.{
  read_double_ieee-double_bytes, sign_extend-short, ntoh_read_ud-append, read_string_lem,
  describe_decode_lem, describe_decode_unmarked,
}
use lib_open_rtmp.Amf.Format.{double_bytes, name_bytes, long_bytes}

-- A reader gets these values from this data and consumes all of it, whatever follows.
abbrev pub Decodes : (List ℕ → Outcome (ℕ × List Value)) → List ℕ → List Value → Type 0
Decodes f bs vs = (rest : List ℕ) → f (bs ++ rest) ≡ complete (length bs, vs)

pub marker-Decodes :
    (type : ℕ) → type ≢ Marker.absent → Decodes (λ m. describe_decode m type []) (type ∷ []) []
unfolding amf_read amf_sizes
marker-Decodes type present rest = describe_decode_lem type [] rest present (omega arith)

pub number-Decodes :
    (n : ℕ) → n < 2 ^ 64 → Decodes amf0_get_number (Marker.number ∷ double_bytes n) (number n ∷ [])
unfolding amf0_get_number amf_read amf_sizes read_field amf_size_of double_bytes ntoh_memcpy
    host_bytes
number-Decodes n h rest =
    describe_decode_lem Marker.number (double ∷ []) (double_bytes n ++ rest) (omega arith)
      (omega arith)
    ∙ ap (λ (v : ℕ). complete (9, number v ∷ [])) (read_double_ieee-double_bytes n rest h)

pub boolean-Decodes : (b : ℕ) → Decodes amf0_get_boolean (Marker.boolean ∷ b ∷ []) (number b ∷ [])
unfolding amf0_get_boolean amf_read amf_sizes read_field amf_size_of
boolean-Decodes b rest =
    describe_decode_lem Marker.boolean (boolean ∷ []) (b ∷ rest) (omega arith) (omega arith)

pub array-Decodes :
    (n : ℕ)
    → n < 2 ^ 32
    → Decodes amf0_get_ecma_array (Marker.ecma_array ∷ ntoh_write_ud n) (number n ∷ [])
unfolding amf0_get_ecma_array amf_read amf_sizes read_field amf_size_of ntoh_write_ud ntoh_memcpy
    host_bytes
array-Decodes n h rest =
    describe_decode_lem Marker.ecma_array (integer ∷ []) (ntoh_write_ud n ++ rest) (omega arith)
      (omega arith)
    ∙ ap (λ (v : ℕ). complete (5, number v ∷ [])) (ntoh_read_ud-append n rest h)

pub date-Decodes :
    (t z : ℕ)
    → t < 2 ^ 64
    → Decodes amf0_get_date
        (Marker.date ∷ (ntoh_write_s z ++ double_bytes t))
        (number t ∷ number (sign_extend 32 (ntoh_read_s (ntoh_write_s z))) ∷ [])
unfolding amf0_get_date amf_read amf_sizes read_field amf_size_of double_bytes ntoh_write_s
    ntoh_memcpy host_bytes ntoh_read_s
date-Decodes t z h rest =
    describe_decode_lem Marker.date (integer16 32 ∷ double ∷ [])
      ((ntoh_write_s z ++ double_bytes t) ++ rest) (omega arith) (omega arith)
    ∙ ap
        (λ (v : ℕ).
          complete (11, number v ∷ number (sign_extend 32 (ntoh_read_s (ntoh_write_s z))) ∷ []))
        (read_double_ieee-double_bytes t rest h)

-- The length of a short string, and the string.
pub length-Decodes :
    (s rest : List ℕ)
    → length s < 2 ^ 15
    → amf0_get_string_length (Marker.string ∷ (name_bytes s ++ rest))
      ≡ complete (3, number (length s) ∷ [])
unfolding amf0_get_string_length amf_read amf_sizes read_field amf_size_of name_bytes ntoh_write_s
    ntoh_memcpy host_bytes
length-Decodes s rest h =
    describe_decode_lem Marker.string (integer16 64 ∷ []) (name_bytes s ++ rest) (omega arith)
      (omega arith)
    ∙ ap (λ (v : ℕ). complete (3, number v ∷ [])) (sign_extend-short 64 (length s) (s ++ rest) h)

-- What is left of the reader behind the string.
abbrev finish : Outcome Cursor → Outcome (ℕ × List Value)
finish o = o >>= (λ c. complete c) >>= λ c. complete (amf_size c.len, c.stored)

pub string-Decodes :
    (s : List ℕ)
    → length s < 2 ^ 15
    → Decodes
        (λ m. amf0_get_string m (length s))
        (Marker.string ∷ name_bytes s)
        (bytes s ∷ number (length s) ∷ [])
unfolding amf0_get_string amf_read amf_sizes read_field amf_size_of name_bytes ntoh_write_s
    ntoh_memcpy host_bytes
string-Decodes s h rest =
    describe_decode_lem Marker.string (integer16 64 ∷ string (length s) ∷ []) (name_bytes s ++ rest)
      (omega arith) (omega arith)
    ∙ rw (sign_extend-short 64 (length s) (s ++ rest) h) (
        ap finish (
          read_string_lem (ntoh_write_s (length s)) s rest (suc (suc (suc (length (s ++ rest))))) 2
            3 (number (length s) ∷ []) refl (omega arith) (omega (arith, length-append s rest)) refl
            (omega arith) (omega arith))
        ∙ ap (λ (k : ℕ). complete (k, bytes s ∷ number (length s) ∷ [])) (omega arith))

-- The same for long strings and XML documents.
pub long_length-Decodes :
    (type : ℕ) (s rest : List ℕ)
    → type ≢ Marker.absent
    → length s < 2 ^ 31
    → describe_decode (type ∷ (long_bytes s ++ rest)) type (integer ∷ [])
      ≡ complete (5, number (length s) ∷ [])
unfolding amf_read amf_sizes read_field amf_size_of long_bytes ntoh_write_ud ntoh_memcpy host_bytes
long_length-Decodes type s rest present h =
    describe_decode_lem type (integer ∷ []) (long_bytes s ++ rest) present (omega arith)
    ∙ ap (λ (v : ℕ). complete (5, number v ∷ []))
        (ntoh_read_ud-append (length s) (s ++ rest) (omega arith))

pub long-Decodes :
    (type : ℕ) (s : List ℕ)
    → type ≢ Marker.absent
    → length s + 5 < 2 ^ 31
    → Decodes
        (λ m. describe_decode m type (integer ∷ string (length s) ∷ []))
        (type ∷ long_bytes s)
        (bytes s ∷ number (length s) ∷ [])
unfolding amf_read amf_sizes read_field amf_size_of long_bytes ntoh_write_ud ntoh_memcpy host_bytes
long-Decodes type s present h rest =
    describe_decode_lem type (integer ∷ string (length s) ∷ []) (long_bytes s ++ rest) present
      (omega arith)
    ∙ rw (ntoh_read_ud-append (length s) (s ++ rest) (omega arith)) (
        ap finish (
          read_string_lem (ntoh_write_ud (length s)) s rest
            (suc (suc (suc (suc (suc (length (s ++ rest))))))) 4 5 (number (length s) ∷ []) refl
            (omega arith) (omega (arith, length-append s rest)) refl (omega arith) (omega arith))
        ∙ ap (λ (k : ℕ). complete (k, bytes s ∷ number (length s) ∷ [])) (omega arith))

-- The length of a name, which is not consumed, and the name.
pub name_length-Decodes :
    (name rest : List ℕ)
    → length name < 2 ^ 15
    → amf0_get_prop_length (name_bytes name ++ rest) ≡ complete (0, number (length name) ∷ [])
unfolding amf0_get_prop_length describe_decode_peek amf_read amf_sizes read_field amf_size_of
    name_bytes ntoh_write_s ntoh_memcpy host_bytes
name_length-Decodes name rest h =
    ap (λ o. o >>= λ c. complete (0, c.stored))
      (describe_decode_unmarked (integer16 64 ∷ []) (name_bytes name ++ rest) (omega arith))
    ∙ ap (λ (v : ℕ). complete (0, number v ∷ []))
        (sign_extend-short 64 (length name) (name ++ rest) h)

pub name-Decodes :
    (name : List ℕ)
    → length name < 2 ^ 15
    → Decodes
        (λ m. amf0_get_prop_name m (length name))
        (name_bytes name)
        (bytes name ∷ number (length name) ∷ [])
unfolding amf0_get_prop_name describe_decode amf_read amf_sizes read_field amf_size_of name_bytes
    ntoh_write_s ntoh_memcpy host_bytes
name-Decodes name h rest =
    ap (λ o. o >>= λ c. complete (amf_size c.len, c.stored))
      (describe_decode_unmarked (integer16 64 ∷ string (length name) ∷ []) (name_bytes name ++ rest)
        (omega arith))
    ∙ rw (sign_extend-short 64 (length name) (name ++ rest) h) (
        ap finish (
          read_string_lem (ntoh_write_s (length name)) name rest (suc (suc (length (name ++ rest))))
            2 2 (number (length name) ∷ []) refl (omega arith)
            (omega (arith, length-append name rest)) refl (omega arith) (omega arith))
        ∙ ap (λ (k : ℕ). complete (k, bytes name ∷ number (length name) ∷ [])) (omega arith))
