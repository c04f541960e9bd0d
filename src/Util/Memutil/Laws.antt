-- ===== src/Util/Memutil/Laws.antt =====
-- src/util/memutil.c: byte order, timestamp differences, and the table of powers of ten.
use lib_open_rtmp.Base.{
  ℕ, ◌+◌, ◌-◌, ◌*◌, ◌/◌, ◌%◌, ◌^◌, ◌≤◌, ◌<◌, ◌≡◌, ap, ap₂, ◌∙◌, none, some, List, [], ◌∷◌, ◌++◌,
  ◌⊎◌, inl, inr, arith, u32, bit_and-low, bit_or-shift, bit_or, ◌>>>◌, ◌<<<◌, get_elem?,
  get_elem?-in, get_elem?-out, ltb, ltb→lt, not_ltb→le, Bool-cases, u64,
}
use lib_open_rtmp.Util.Memutil.{
  ntoh_read_ud, ntoh_write_ud, htol_write_ud, ltoh_read_ud, ntoh_write_ud3, ntoh_read_ud3,
  timestamp_get_delta, to_time, si_convert_ull, pow10_table, scale, clamp_change,
}

-- A 32-bit number written by `ntoh_write_ud` is read back by `ntoh_read_ud`.
pub ntoh_read_ud-ntoh_write_ud : (v : ℕ) → v < 2 ^ 32 → ntoh_read_ud (ntoh_write_ud v) ≡ v
unfolding ntoh_read_ud ntoh_write_ud
ntoh_read_ud-ntoh_write_ud v h = omega arith

pub ntoh_write_ud_truncates : (v : ℕ) → ntoh_write_ud v ≡ ntoh_write_ud (v % 2 ^ 32)
unfolding ntoh_write_ud
ntoh_write_ud_truncates v =
    ap₂ ◌∷◌ (omega arith)
      (ap₂ ◌∷◌ (omega arith) (ap₂ ◌∷◌ (omega arith) (ap (λ (b : ℕ). b ∷ []) (omega arith))))

-- A 32-bit number written by `htol_write_ud` is read back by `ltoh_read_ud`.
pub ltoh_read_ud-htol_write_ud : (v : ℕ) → v < 2 ^ 32 → ltoh_read_ud (htol_write_ud v) ≡ v
unfolding ltoh_read_ud htol_write_ud
ltoh_read_ud-htol_write_ud v h = omega arith

pub ntoh_write_ud3_lem :
    (v : ℕ) → ntoh_write_ud3 v ≡ (v / 65536 % 256) ∷ (v / 256 % 256) ∷ (v % 256) ∷ []
unfolding ntoh_write_ud3
ntoh_write_ud3_lem v = rw (bit_and-low 8 (v >>> 16), bit_and-low 8 (v >>> 8), bit_and-low 8 v)

pub ntoh_read_ud3_lem :
    (a b c : ℕ) (rest : List ℕ)
    → a < 256
    → b < 256
    → c < 256
    → ntoh_read_ud3 (a ∷ b ∷ c ∷ rest) ≡ (a * 256 + b) * 256 + c
unfolding ntoh_read_ud3
ntoh_read_ud3_lem a b c rest p q r =
    ap (λ (t : ℕ). bit_or (u32 (bit_or t b <<< 8)) c) (omega arith)
    ∙ ap (λ (t : ℕ). bit_or (u32 (t <<< 8)) c) (bit_or-shift 8 a b q)
    ∙ ap (λ (t : ℕ). bit_or t c) (omega arith)
    ∙ bit_or-shift 8 (a * 2 ^ 8 + b) c r

-- A 24-bit number written by `ntoh_write_ud3` is read back, whatever follows it.
pub ntoh_read_ud3-ntoh_write_ud3 :
    (v : ℕ) (rest : List ℕ) → v < 2 ^ 24 → ntoh_read_ud3 (ntoh_write_ud3 v ++ rest) ≡ v
ntoh_read_ud3-ntoh_write_ud3 v rest h =
    ap (λ bs. ntoh_read_ud3 (bs ++ rest)) (ntoh_write_ud3_lem v)
    ∙ ntoh_read_ud3_lem (v / 65536 % 256) (v / 256 % 256) (v % 256) rest (omega arith) (omega arith)
        (omega arith)
    ∙ omega arith

-- The difference of two timestamps, added to the first modulo 2 ^ 32, gives the second: the
-- difference is taken across the wrap.
pub timestamp_get_delta_wraps :
    (s1 s2 : ℕ)
    → s1 < 2 ^ 64
    → s2 < 2 ^ 64
    → (s1 + timestamp_get_delta s1 s2) % 2 ^ 32 ≡ s2 % 2 ^ 32
unfolding timestamp_get_delta
timestamp_get_delta_wraps s1 s2 a b = omega arith

-- A timestamp that moves on by less than 2 ^ 31 has that move as its difference.
pub timestamp_get_delta_forward :
    (s d : ℕ) → s + d < 2 ^ 64 → d < 2 ^ 31 → to_time (timestamp_get_delta s (s + d)) ≡ d
unfolding timestamp_get_delta to_time
timestamp_get_delta_forward s d a b = ground arith

-- One entry of the table, scaled: a value inside the bounds, a fault past them.
entry_in :
    (op : ℕ → ℕ → ℕ) (number change : ℕ)
    → change < 20
    → (r : ℕ) × (scale op number (get_elem? pow10_table (clamp_change change)) ≡ some r)
unfolding scale clamp_change pow10_table
entry_in op number change h =
    let (p, e) = get_elem?-in pow10_table (clamp_change change) (ground arith) in
    (op number p, ap (scale op number) e)

entry_out :
    (op : ℕ → ℕ → ℕ) (number change : ℕ)
    → 20 ≤ change
    → scale op number (get_elem? pow10_table (clamp_change change)) ≡ none
unfolding scale clamp_change pow10_table
entry_out op number change h =
    ap (scale op number) (get_elem?-out pow10_table (clamp_change change) (ground arith))

-- A conversion over fewer than 20 powers of ten reads the table inside its bounds; one over 20 or
-- more reads the entry after the last.
pub si_convert_ull_bounds :
    (number from to : ℕ)
    → (from < to + 20 → to < from + 20 → (r : ℕ) × (si_convert_ull number from to ≡ some r))
      × ((to + 20 ≤ from) ⊎ (from + 20 ≤ to) → si_convert_ull number from to ≡ none)
unfolding si_convert_ull
si_convert_ull_bounds number from to = elim (Bool-cases (ltb from to)) [
  | inl e ↦ (
    λ a b. rw e (entry_in (λ n p. n / p) number (to - from) (omega arith)),
    λ c. rw e (entry_out (λ n p. n / p) number (to - from) (ground (arith, ltb→lt e))),
  )
  | inr e ↦ (
    λ a b. rw e (entry_in (λ n p. u64 (n * p)) number (from - to) (omega arith)),
    λ c. rw e (entry_out (λ n p. u64 (n * p)) number (from - to) (ground (arith, not_ltb→le e))),
  )
]
