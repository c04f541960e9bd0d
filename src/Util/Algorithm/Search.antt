-- ===== src/Util/Algorithm/Search.antt =====
-- What the searches of src/util/algorithm.c find.
use native.Mathlib.Decide.{dec_lt}
use lib_open_rtmp.Base.{
  ℕ, zero, suc, ◌+◌, ◌-◌, ◌/◌, ◌≤◌, ◌<◌, ◌≡◌, refl, ap, ◌∙◌, ◌⊎◌, inl, inr, Bool, true, false, List,
  arith, ltb, ltb→lt, not_ltb→le, Bool-cases,
}
use lib_open_rtmp.Util.Algorithm.{
  LessThan, element, equals, greater_than, search_loop, search_bin, linear_loop, search_lin,
}

-- The callback compares the numbers `key i` and `k` of an element and of the needle, both ways.
module _ (less_than : LessThan) (needle haystack : List ℕ) (element_size : ℕ) (key : ℕ → ℕ) (k : ℕ)
    (before : (i : ℕ)
      → less_than needle (element less_than needle haystack element_size i) ≡ ltb k (key i))
    (after : (i : ℕ)
      → less_than (element less_than needle haystack element_size i) needle ≡ ltb (key i) k)
    (count : ℕ) (sorted : (i j : ℕ) → i ≤ j → j < count → key i ≤ key j) where
  -- All that is below `lower` is smaller than the needle, and all from `upper` on is larger.
  record Bracketed (lower upper : ℕ) : Type 0 where
    order : lower ≤ upper
    within : upper ≤ count
    below : (i : ℕ) → i < lower → key i < k
    above : (i : ℕ) → upper ≤ i → i < count → k < key i

  abbrev pub Found : ℕ → Type 0
  Found r = (r < count) × (key r ≡ k)

  -- `r` is the place where the needle would stand, or one before it.
  abbrev pub Missed : ℕ → Type 0
  Missed r =
      (p : ℕ) × (r ≤ p)
      × (p ≤ r + 1)
      × (p ≤ count)
      × ((i : ℕ) → i < p → key i < k)
      × ((i : ℕ) → p ≤ i → i < count → k < key i)

  abbrev loop : ℕ → ℕ → ℕ → ℕ → ℕ
  loop = search_loop less_than needle haystack element_size

  stopped :
      (lower upper index : ℕ)
      → Bracketed lower upper
      → upper ≤ lower
      → (index ≡ upper) ⊎ (index + 1 ≡ lower)
      → Missed index
  stopped lower upper index b h i = (
    lower,
    ground arith,
    ground arith,
    omega (arith, b.within),
    b.below,
    λ j p q. b.above j (omega arith) q,
  )

  go_left :
      (lower upper m : ℕ)
      → Bracketed lower upper
      → lower ≤ m
      → m < upper
      → k < key m
      → Bracketed lower m
  go_left lower upper m b p q l = record {
    order = p;
    within = omega (arith, b.within);
    below = b.below;
    above = λ i h c. omega (arith, sorted m i h c);
  }

  go_right :
      (lower upper m : ℕ) → Bracketed lower upper → m < upper → key m < k → Bracketed (m + 1) upper
  go_right lower upper m b q l = record {
    order = omega arith;
    within = b.within;
    below = λ i h. omega (arith, sorted i m (omega arith) (omega (arith, b.within)));
    above = b.above;
  }

  loop_lem :
      (fuel lower upper index : ℕ)
      → Bracketed lower upper
      → upper - lower ≤ fuel
      → (lower < upper) ⊎ ((index ≡ upper) ⊎ (index + 1 ≡ lower))
      → Found (loop fuel lower upper index) ⊎ Missed (loop fuel lower upper index)
  unfolding search_loop
  loop_lem zero lower upper index b h (inl c) = absurd (omega arith)
  loop_lem zero lower upper index b h (inr c) = inr (stopped lower upper index b (omega arith) c)
  loop_lem (suc fuel) lower upper index b h c = elim (Bool-cases (ltb lower upper)) [
    | inr e ↦ rw e (inr (stopped lower upper index b (not_ltb→le e) (ground (arith, not_ltb→le e))))
    | inl e ↦ elim (Bool-cases (ltb k (key m))) [
      | inl l ↦
          rw (e, before m, l)
            (loop_lem fuel lower m m
              (go_left lower upper m b (omega arith) (omega (arith, ltb→lt e)) (ltb→lt l))
              (omega (arith, ltb→lt e)) (inr (inl refl)))
      | inr l ↦ elim (Bool-cases (ltb (key m) k)) [
        | inl g ↦
            rw (e, before m, l, greater g)
              (loop_lem fuel (m + 1) upper m
                (go_right lower upper m b (omega (arith, ltb→lt e)) (ltb→lt g))
                (omega (arith, ltb→lt e)) (inr (inr refl)))
        | inr g ↦
            rw (e, before m, l, greater g)
              (inl (omega (arith, ltb→lt e, b.within), omega (arith, not_ltb→le l, not_ltb→le g)))
      ]
    ]
  ]
    where
      m : ℕ
      m = lower + (upper - lower) / 2

      greater :
          {v : Bool} → ltb (key m) k ≡ v → greater_than less_than needle haystack element_size m ≡ v
      greater g = unfold greater_than in after m ∙ g

  whole : Bracketed 0 count
  whole = record {
    order = omega arith;
    within = omega arith;
    below = λ i h. absurd (omega arith);
    above = λ i h c. absurd (omega arith);
  }

  -- Over an array in order, `alg_search_bin` ends with the index of an element that equals the
  -- needle, or, when there is none, with the place where the needle belongs or the one before it.
  pub search_bin_lem :
      Found (search_bin less_than needle haystack element_size count)
      ⊎ Missed (search_bin less_than needle haystack element_size count)
  unfolding search_bin
  search_bin_lem = loop_lem count 0 count 0 whole (omega arith) (ground arith)

-- Any callback at all.
module _ (less_than : LessThan) (needle haystack : List ℕ) (element_size : ℕ) where
  loop-lt :
      (fuel lower upper index count : ℕ)
      → upper ≤ count
      → index < count
      → search_loop less_than needle haystack element_size fuel lower upper index < count
  unfolding search_loop
  loop-lt zero lower upper index count a b = b
  loop-lt (suc fuel) lower upper index count a b = ground (
    arith,
    loop-lt fuel lower (lower + (upper - lower) / 2) (lower + (upper - lower) / 2) count,
    loop-lt fuel (lower + (upper - lower) / 2 + 1) upper (lower + (upper - lower) / 2) count,
  )

  -- Over an array that is not empty, whatever the callback answers, `alg_search_bin` returns the
  -- index of an element, and never `count`.
  pub search_bin-lt :
      (count : ℕ) → 0 < count → search_bin less_than needle haystack element_size count < count
  unfolding search_bin
  search_bin-lt count h = loop-lt count 0 count 0 count (omega arith) h

  linear_loop_lem :
      (left i : ℕ)
      → let r = linear_loop less_than needle haystack element_size left i in
        (i ≤ r)
        × (r ≤ i + left)
        × ((j : ℕ) → i ≤ j → j < r → equals less_than needle haystack element_size j ≡ false)
        × (r < i + left → equals less_than needle haystack element_size r ≡ true)
  unfolding linear_loop
  linear_loop_lem zero i =
      (omega arith, omega arith, λ j a b. absurd (omega arith), λ h. absurd (omega arith))
  linear_loop_lem (suc left) i =
      elim (Bool-cases (equals less_than needle haystack element_size i)) [
        | inl e ↦ rw e (omega arith, omega arith, λ j a b. absurd (omega arith), λ h. e)
        | inr e ↦
            let (lo, hi, no_hit, hit) = linear_loop_lem left (i + 1) in
            rw e
              (omega arith, omega arith, λ j a b. first j a (no_hit j) b e, λ h. hit (omega arith))
      ]
    where
      first :
          (j : ℕ) {r : ℕ}
          → i ≤ j
          → (i + 1 ≤ j → j < r → equals less_than needle haystack element_size j ≡ false)
          → j < r
          → equals less_than needle haystack element_size i ≡ false
          → equals less_than needle haystack element_size j ≡ false
      first j a f b e = elim (dec_lt i j) [
        | yes p ↦ f (omega arith) b
        | no p ↦ ap (equals less_than needle haystack element_size) (omega arith) ∙ e
      ]

  -- `alg_search_lin` returns the index of the first element that equals the needle, and `count`
  -- when there is none.
  pub search_lin_lem :
      (count : ℕ)
      → let r = search_lin less_than needle haystack element_size count in
        (r ≤ count)
        × ((j : ℕ) → j < r → equals less_than needle haystack element_size j ≡ false)
        × (r < count → equals less_than needle haystack element_size r ≡ true)
  unfolding search_lin
  search_lin_lem count =
      let (lo, hi, no_hit, hit) = linear_loop_lem count 0 in
      (omega arith, λ j h. no_hit j (omega arith) h, λ h. hit (omega arith))
