-- ===== src/Tests/Utils.antt =====
-- src/util/memutil.c and src/util/algorithm.c on small inputs.
use lib_open_rtmp.Base.{
  ℕ, zero, suc, ◌+◌, ◌*◌, ◌≤◌, ◌<◌, ◌≡◌, refl, ◌⊎◌, false, true, List, [], ◌∷◌, ◌++◌, arith, ltb,
  get_or, slice, none, some,
}
use lib_open_rtmp.Util.Memutil.{ntoh_write_ud, ntoh_write_ud3, ntoh_read_ud3, si_convert_ull}
use lib_open_rtmp.Util.Memutil.Laws.{ntoh_read_ud3-ntoh_write_ud3, si_convert_ull_bounds}
use lib_open_rtmp.Util.Algorithm.{LessThan, element, equals, search_bin, search_lin}
use lib_open_rtmp.Util.Algorithm.Search.{
  Found, Missed, search_bin_lem, search_bin-lt, search_lin_lem,
}

network_order : ntoh_write_ud 0x01020304 ≡ 1 ∷ 2 ∷ 3 ∷ 4 ∷ []
unfolding ntoh_write_ud
network_order = refl

ntoh_read_ud3-ntoh_write_ud3_example : ntoh_read_ud3 (ntoh_write_ud3 0x010203 ++ 9 ∷ []) ≡ 0x010203
ntoh_read_ud3-ntoh_write_ud3_example = ntoh_read_ud3-ntoh_write_ud3 0x010203 (9 ∷ []) (omega arith)

si_convert_ull_bounds_example :
    (24 < 33 + 20 → 33 < 24 + 20 → (r : ℕ) × (si_convert_ull 5 24 33 ≡ some r))
    × ((33 + 20 ≤ 24) ⊎ (24 + 20 ≤ 33) → si_convert_ull 5 24 33 ≡ none)
si_convert_ull_bounds_example = si_convert_ull_bounds 5 24 33

-- An array of three bytes, compared as numbers.
abbrev first_byte : LessThan
first_byte a b = ltb (get_or a 0 0) (get_or b 0 0)

abbrev three_bytes : List ℕ
three_bytes = 10 ∷ 20 ∷ 30 ∷ []

abbrev byte_key : ℕ → ℕ
byte_key i = get_or (slice three_bytes (1 * i) 1) 0 0

needle_before :
    (k i : ℕ)
    → first_byte (k ∷ []) (element first_byte (k ∷ []) three_bytes 1 i) ≡ ltb k (byte_key i)
unfolding element
needle_before k i = refl

needle_after :
    (k i : ℕ)
    → first_byte (element first_byte (k ∷ []) three_bytes 1 i) (k ∷ []) ≡ ltb (byte_key i) k
unfolding element
needle_after k i = refl

three_sorted : (i j : ℕ) → i ≤ j → j < 3 → byte_key i ≤ byte_key j
three_sorted zero zero p q = omega arith
three_sorted zero (suc zero) p q = omega arith
three_sorted zero (suc (suc zero)) p q = omega arith
three_sorted (suc zero) zero p q = absurd (omega arith)
three_sorted (suc zero) (suc zero) p q = omega arith
three_sorted (suc zero) (suc (suc zero)) p q = omega arith
three_sorted (suc (suc zero)) zero p q = absurd (omega arith)
three_sorted (suc (suc zero)) (suc zero) p q = absurd (omega arith)
three_sorted (suc (suc zero)) (suc (suc zero)) p q = omega arith
three_sorted (suc (suc (suc i))) zero p q = absurd (omega arith)
three_sorted (suc (suc (suc i))) (suc zero) p q = absurd (omega arith)
three_sorted (suc (suc (suc i))) (suc (suc zero)) p q = absurd (omega arith)
three_sorted i (suc (suc (suc j))) p q = absurd (omega arith)

-- A needle larger than all: the index is that of the last element.
search_bin_last : search_bin first_byte (40 ∷ []) three_bytes 1 3 ≡ 2
unfolding search_bin
search_bin_last = refl

search_bin_lem_example :
    Found first_byte
      (20 ∷ [])
      three_bytes
      1
      byte_key
      20
      (needle_before 20)
      (needle_after 20)
      3
      three_sorted
      (search_bin first_byte (20 ∷ []) three_bytes 1 3)
    ⊎ Missed first_byte
        (20 ∷ [])
        three_bytes
        1
        byte_key
        20
        (needle_before 20)
        (needle_after 20)
        3
        three_sorted
        (search_bin first_byte (20 ∷ []) three_bytes 1 3)
search_bin_lem_example =
    search_bin_lem first_byte (20 ∷ []) three_bytes 1 byte_key 20 (needle_before 20)
      (needle_after 20) 3 three_sorted

search_bin-lt_example : search_bin first_byte (40 ∷ []) three_bytes 1 3 < 3
search_bin-lt_example = search_bin-lt first_byte (40 ∷ []) three_bytes 1 3 (omega arith)

search_lin_lem_example :
    let r = search_lin first_byte (30 ∷ []) three_bytes 1 3 in
    (r ≤ 3)
    × ((j : ℕ) → j < r → equals first_byte (30 ∷ []) three_bytes 1 j ≡ false)
    × (r < 3 → equals first_byte (30 ∷ []) three_bytes 1 r ≡ true)
search_lin_lem_example = search_lin_lem first_byte (30 ∷ []) three_bytes 1 3
