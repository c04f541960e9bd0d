-- ===== src/Rtmp/Flow/Basic.antt =====
-- The basic header: format and chunk stream id in one, two or three bytes.
use native.Mathlib.Decide.{dec_lt}
use lib_open_rtmp.Base.{
  ℕ, ◌+◌, ◌-◌, ◌*◌, ◌/◌, ◌%◌, ◌^◌, ◌≤◌, ◌<◌, ◌≡◌, refl, ap, ap₂, ◌∙◌, ◌⊎◌, inl, inr, List, [], ◌∷◌,
  ◌++◌, arith, length, le→not_ltb, lt→ltb, bit_and, bit_or, bit_and-low, bit_or-shift, ◌<<<◌, ◌>>>◌,
}
use lib_open_rtmp.Util.Ringbuffer.{Ring}
use lib_open_rtmp.Rtmp.Errors.{invalid}
use lib_open_rtmp.Rtmp.Session.{failed}
use lib_open_rtmp.Rtmp.Flow.{write_all, read_all, emit_hdr_basic, read_hdr_basic}
use lib_open_rtmp.Rtmp.Flow.Wire.{
  Parses, Emits, Parses-bind, Parses-pure, write_all-Emits, read_all-Parses,
}

-- The bytes of a basic header.
pub data Form : ℕ → Type 0 where
  one : {id : ℕ} → 2 ≤ id → id < 64 → Form id
  two : {id : ℕ} → 64 ≤ id → id < 320 → Form id
  three : {id : ℕ} → 320 ≤ id → id < 65599 → Form id

pub form_of : (id : ℕ) → 2 ≤ id → id < 65599 → Form id
form_of id lo hi = elim (dec_lt id 64) [
  | yes a ↦ one lo a
  | no a ↦ elim (dec_lt id 320) [ yes b ↦ two (omega arith) b | no b ↦ three (omega arith) hi ]
]

abbrev pub basic_bytes : ℕ → {id : ℕ} → Form id → List ℕ
basic_bytes fmt {id} (one _ _) = (fmt * 64 + id) ∷ []
basic_bytes fmt {id} (two _ _) = (fmt * 64) ∷ (id - 64) ∷ []
basic_bytes fmt {id} (three _ _) = (fmt * 64 + 1) ∷ ((id - 64) / 256) ∷ ((id - 64) % 256) ∷ []

format_bits : (fmt : ℕ) → fmt < 4 → bit_and fmt 3 ≡ fmt
format_bits fmt h = bit_and-low 2 fmt ∙ omega arith

-- The first byte: the format in the two high bits.
first_byte : (fmt low : ℕ) → fmt < 4 → low < 64 → bit_or (bit_and fmt 3 <<< 6) low ≡ fmt * 64 + low
first_byte fmt low h l =
    ap (λ (a : ℕ). bit_or (a <<< 6) low) (format_bits fmt h) ∙ bit_or-shift 6 fmt low l

pub emit_basic :
    (fmt id : ℕ) (f : Form id) → fmt < 4 → emit_hdr_basic fmt id ≡ write_all (basic_bytes fmt f)
unfolding emit_hdr_basic
emit_basic fmt id (one lo hi) h =
    rw (le→not_ltb lo, lt→ltb hi)
      (ap (λ (b : ℕ). write_all (b ∷ []))
        (ap (bit_or (bit_and fmt 3 <<< 6)) (bit_and-low 6 id ∙ omega arith)
          ∙ first_byte fmt id h hi))
emit_basic fmt id (two lo hi) h =
    rw (le→not_ltb {a = id} {b = 2} (omega arith), le→not_ltb lo, lt→ltb hi)
      (ap₂ (λ (a b : ℕ). write_all (a ∷ b ∷ [])) (ap (λ (a : ℕ). a * 64) (format_bits fmt h))
        (omega arith))
emit_basic fmt id (three lo hi) h =
    rw
      (
        le→not_ltb {a = id} {b = 2} (omega arith),
        le→not_ltb {a = id} {b = 64} (omega arith),
        le→not_ltb lo,
        lt→ltb hi,
      )
      (ap₂ (λ (a b : ℕ). write_all (a ∷ b ∷ ((id - 64) % 256) ∷ []))
        (first_byte fmt 1 h (omega arith)) (omega arith))

low_bits : (fmt low : ℕ) → low < 64 → bit_and (fmt * 64 + low) 63 ≡ low
low_bits fmt low l = bit_and-low 6 (fmt * 64 + low) ∙ omega arith

high_bits : (fmt low : ℕ) → fmt < 4 → low < 64 → bit_and ((fmt * 64 + low) >>> 6) 3 ≡ fmt
high_bits fmt low h l = bit_and-low 2 ((fmt * 64 + low) >>> 6) ∙ omega arith

pub read_basic :
    (fmt id : ℕ) (f : Form id) (rest : List ℕ)
    → fmt < 4
    → Parses read_hdr_basic (basic_bytes fmt f ++ rest) (fmt, id) rest
unfolding read_hdr_basic
read_basic fmt id (one lo hi) rest h =
    Parses-bind (read_all 1) _ ((fmt * 64 + id) ∷ rest) ((fmt * 64 + id) ∷ []) rest (fmt, id) rest
      (read_all-Parses ((fmt * 64 + id) ∷ []) rest (omega arith))
      (rw (low_bits fmt id hi, high_bits fmt id h hi, lt→ltb lo) (Parses-pure (fmt, id) rest))
read_basic fmt id (two lo hi) rest h =
    Parses-bind (read_all 1) _ ((fmt * 64) ∷ (id - 64) ∷ rest) ((fmt * 64) ∷ []) ((id - 64) ∷ rest)
      (fmt, id) rest (read_all-Parses ((fmt * 64) ∷ []) ((id - 64) ∷ rest) (omega arith))
      (rw (bit_and-low 6 (fmt * 64) ∙ no_low, bit_and-low 2 ((fmt * 64) >>> 6) ∙ high)
        (Parses-bind (read_all 1) _ ((id - 64) ∷ rest) ((id - 64) ∷ []) rest (fmt, id) rest
          (read_all-Parses ((id - 64) ∷ []) rest (omega arith))
          (rw back (Parses-pure (fmt, id) rest))))
  where
    no_low : fmt * 64 % 2 ^ 6 ≡ 0
    no_low = omega arith

    high : ((fmt * 64) >>> 6) % 2 ^ 2 ≡ fmt
    high = omega arith

    back : id - 64 + 64 ≡ id
    back = omega arith
read_basic fmt id (three lo hi) rest h =
    Parses-bind (read_all 1) _ ((fmt * 64 + 1) ∷ (id - 64) / 256 ∷ (id - 64) % 256 ∷ rest)
      ((fmt * 64 + 1) ∷ []) ((id - 64) / 256 ∷ (id - 64) % 256 ∷ rest) (fmt, id) rest
      (read_all-Parses ((fmt * 64 + 1) ∷ []) ((id - 64) / 256 ∷ (id - 64) % 256 ∷ rest)
        (omega arith))
      (rw (low_bits fmt 1 (omega arith), high_bits fmt 1 h (omega arith))
        (Parses-bind (read_all 2) _ ((id - 64) / 256 ∷ (id - 64) % 256 ∷ rest)
          ((id - 64) / 256 ∷ (id - 64) % 256 ∷ []) rest (fmt, id) rest
          (read_all-Parses ((id - 64) / 256 ∷ (id - 64) % 256 ∷ []) rest (omega arith))
          (rw back (Parses-pure (fmt, id) rest))))
  where
    back : bit_or (((id - 64) / 256) <<< 8) ((id - 64) % 256) + 64 ≡ id
    back = omega (arith, bit_or-shift 8 ((id - 64) / 256) ((id - 64) % 256) (omega arith))

-- Every chunk stream id from 2 to 65598 has a basic header, of at most three bytes, that
-- `rtmp_chunk_emit_hdr_basic` writes when there is room and from which
-- `rtmp_chunk_read_hdr_basic` reads the same format and id back, whatever bytes follow.
pub read_hdr_basic-emit_hdr_basic :
    (fmt id : ℕ)
    → fmt < 4
    → 2 ≤ id
    → id < 65599
    → (bs : List ℕ) × (length bs ≤ 3)
      × Emits (emit_hdr_basic fmt id) bs tt
      × ((rest : List ℕ) → Parses read_hdr_basic (bs ++ rest) (fmt, id) rest)
read_hdr_basic-emit_hdr_basic fmt id h lo hi = (
  basic_bytes fmt form,
  short form,
  rw (emit_basic fmt id form h) (write_all-Emits (basic_bytes fmt form)),
  λ rest. read_basic fmt id form rest h,
)
  where
    form : Form id
    form = form_of id lo hi

    short : (f : Form id) → length (basic_bytes fmt f) ≤ 3
    short (one _ _) = omega arith
    short (two _ _) = omega arith
    short (three _ _) = omega arith

-- The reserved ids 0 and 1 and those from 65599 on are refused, and nothing is written.
pub emit_hdr_basic_reserved :
    (fmt id : ℕ) (r : Ring)
    → (id < 2) ⊎ (65599 ≤ id)
    → emit_hdr_basic fmt id r ≡ (failed invalid, r)
unfolding emit_hdr_basic
emit_hdr_basic_reserved fmt id r (inl h) = rw (lt→ltb h) refl
emit_hdr_basic_reserved fmt id r (inr h) =
    rw
      (
        le→not_ltb {a = id} {b = 2} (omega arith),
        le→not_ltb {a = id} {b = 64} (omega arith),
        le→not_ltb {a = id} {b = 320} (omega arith),
        le→not_ltb h,
      )
      refl
