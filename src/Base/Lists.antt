-- ===== src/Base/Lists.antt =====
-- C arrays as lists over the native numbers, and the block operations of <string.h>.
use Prim.Native.Nat.{ℕ, zero, suc, ◌+◌, ◌-◌, ◌≤◌, ◌<◌, min}
use mathlib.Core.Path.{◌≡◌, refl, sym, ap, ◌∙◌}
use mathlib.Core.List.{List, [], ◌∷◌, ◌++◌}
use mathlib.Core.Option.{Option, none, some}
use native.Mathlib.Omega.{arith}

module _ {ℓ} {A : Type ℓ} where
  abbrev pub length : List A → ℕ
  length [] = 0
  length (x ∷ xs) = suc (length xs)

  abbrev pub get_or : List A → ℕ → A → A
  get_or [] i d = d
  get_or (x ∷ xs) zero d = x
  get_or (x ∷ xs) (suc i) d = get_or xs i d

  abbrev pub get_elem? : List A → ℕ → Option A
  get_elem? [] i = none
  get_elem? (x ∷ xs) zero = some x
  get_elem? (x ∷ xs) (suc i) = get_elem? xs i

  -- A store out of bounds changes nothing.
  abbrev pub set : List A → ℕ → A → List A
  set [] i v = []
  set (x ∷ xs) zero v = v ∷ xs
  set (x ∷ xs) (suc i) v = x ∷ set xs i v

  abbrev pub take : ℕ → List A → List A
  take zero xs = []
  take (suc n) [] = []
  take (suc n) (x ∷ xs) = x ∷ take n xs

  abbrev pub drop : ℕ → List A → List A
  drop zero xs = xs
  drop (suc n) [] = []
  drop (suc n) (x ∷ xs) = drop n xs

  abbrev pub replicate : ℕ → A → List A
  replicate zero a = []
  replicate (suc n) a = a ∷ replicate n a

  -- `memcpy(a + off, bs, n)` where `bs` holds the n bytes; what falls past the end is not stored.
  abbrev pub blit : List A → ℕ → List A → List A
  blit [] off bs = []
  blit (x ∷ xs) off [] = x ∷ xs
  blit (x ∷ xs) zero (b ∷ bs) = b ∷ blit xs zero bs
  blit (x ∷ xs) (suc off) (b ∷ bs) = x ∷ blit xs off (b ∷ bs)

  -- The n bytes from `a + off`.
  abbrev pub slice : List A → ℕ → ℕ → List A
  slice xs off n = take n (drop off xs)

  pub length-append : (xs ys : List A) → length (xs ++ ys) ≡ length xs + length ys
  length-append [] ys = omega arith
  length-append (x ∷ xs) ys = omega (arith, length-append xs ys)

  pub length-take : (n : ℕ) (xs : List A) → length (take n xs) ≡ min n (length xs)
  length-take zero xs = omega arith
  length-take (suc n) [] = omega arith
  length-take (suc n) (x ∷ xs) = omega (arith, length-take n xs)

  pub length-drop : (n : ℕ) (xs : List A) → length (drop n xs) ≡ length xs - n
  length-drop zero xs = omega arith
  length-drop (suc n) [] = omega arith
  length-drop (suc n) (x ∷ xs) = omega (arith, length-drop n xs)

  pub length-set : (xs : List A) (i : ℕ) (v : A) → length (set xs i v) ≡ length xs
  length-set [] i v = refl
  length-set (x ∷ xs) zero v = refl
  length-set (x ∷ xs) (suc i) v = ap suc (length-set xs i v)

  pub length-replicate : (n : ℕ) (a : A) → length (replicate n a) ≡ n
  length-replicate zero a = refl
  length-replicate (suc n) a = ap suc (length-replicate n a)

  pub take_of_le : (n : ℕ) (xs : List A) → length xs ≤ n → take n xs ≡ xs
  take_of_le zero [] h = refl
  take_of_le zero (x ∷ xs) h = absurd (omega arith)
  take_of_le (suc n) [] h = refl
  take_of_le (suc n) (x ∷ xs) h = ap (λ t. x ∷ t) (take_of_le n xs (omega arith))

  pub drop_of_le : (n : ℕ) (xs : List A) → length xs ≤ n → drop n xs ≡ []
  drop_of_le zero [] h = refl
  drop_of_le zero (x ∷ xs) h = absurd (omega arith)
  drop_of_le (suc n) [] h = refl
  drop_of_le (suc n) (x ∷ xs) h = drop_of_le n xs (omega arith)

  pub drop-drop : (m n : ℕ) (xs : List A) → drop n (drop m xs) ≡ drop (m + n) xs
  drop-drop zero n xs = ap (λ (k : ℕ). drop k xs) (omega arith)
  drop-drop (suc m) n [] =
      drop_of_le n [] (omega arith) ∙ sym (drop_of_le (suc m + n) [] (omega arith))
  drop-drop (suc m) n (x ∷ xs) = drop-drop m n xs ∙ ap (λ (k : ℕ). drop k (x ∷ xs)) (suc-add m)
    where
      suc-add : (a : ℕ) → suc (a + n) ≡ suc a + n
      suc-add a = omega arith

  pub take-append : (xs ys : List A) → take (length xs) (xs ++ ys) ≡ xs
  take-append [] ys = refl
  take-append (x ∷ xs) ys = ap (λ t. x ∷ t) (take-append xs ys)

  pub drop-append : (xs ys : List A) → drop (length xs) (xs ++ ys) ≡ ys
  drop-append [] ys = refl
  drop-append (x ∷ xs) ys = drop-append xs ys

  -- Only how much of the list is reached counts.
  pub take_congr :
      (m n : ℕ) (xs : List A) → min m (length xs) ≡ min n (length xs) → take m xs ≡ take n xs
  take_congr zero zero xs h = refl
  take_congr zero (suc n) [] h = refl
  take_congr zero (suc n) (x ∷ xs) h = absurd (omega arith)
  take_congr (suc m) zero [] h = refl
  take_congr (suc m) zero (x ∷ xs) h = absurd (omega arith)
  take_congr (suc m) (suc n) [] h = refl
  take_congr (suc m) (suc n) (x ∷ xs) h = ap (λ t. x ∷ t) (take_congr m n xs (omega arith))

  pub drop_congr :
      (m n : ℕ) (xs : List A) → min m (length xs) ≡ min n (length xs) → drop m xs ≡ drop n xs
  drop_congr zero zero xs h = refl
  drop_congr zero (suc n) [] h = refl
  drop_congr zero (suc n) (x ∷ xs) h = absurd (omega arith)
  drop_congr (suc m) zero [] h = refl
  drop_congr (suc m) zero (x ∷ xs) h = absurd (omega arith)
  drop_congr (suc m) (suc n) [] h = refl
  drop_congr (suc m) (suc n) (x ∷ xs) h = drop_congr m n xs (omega arith)

  pub take-append-take-drop :
      (m n : ℕ) (xs : List A) → take m xs ++ take n (drop m xs) ≡ take (m + n) xs
  take-append-take-drop zero n xs = ap (λ (k : ℕ). take k xs) (omega arith)
  take-append-take-drop (suc m) zero [] = sym (take_of_le (suc m + 0) [] (omega arith))
  take-append-take-drop (suc m) (suc n) [] = sym (take_of_le (suc m + suc n) [] (omega arith))
  take-append-take-drop (suc m) n (x ∷ xs) =
      ap (λ t. x ∷ t) (take-append-take-drop m n xs) ∙ ap (λ (k : ℕ). take k (x ∷ xs)) (suc-add m)
    where
      suc-add : (a : ℕ) → suc (a + n) ≡ suc a + n
      suc-add a = omega arith

  pub length-blit : (xs : List A) (off : ℕ) (bs : List A) → length (blit xs off bs) ≡ length xs
  length-blit [] off bs = refl
  length-blit (x ∷ xs) off [] = refl
  length-blit (x ∷ xs) zero (b ∷ bs) = ap suc (length-blit xs zero bs)
  length-blit (x ∷ xs) (suc off) (b ∷ bs) = ap suc (length-blit xs off (b ∷ bs))

  -- Inside the block that `memcpy` stores, the source's element; outside, what was there.
  pub get_or-blit_in :
      (xs : List A) (off : ℕ) (bs : List A) (i : ℕ) (d : A)
      → off ≤ i
      → i < off + length bs
      → off + length bs ≤ length xs
      → get_or (blit xs off bs) i d ≡ get_or bs (i - off) d
  get_or-blit_in [] off [] i d a b c = absurd (omega arith)
  get_or-blit_in [] off (y ∷ bs) i d a b c = absurd (omega arith)
  get_or-blit_in (x ∷ xs) off [] i d a b c = absurd (omega arith)
  get_or-blit_in (x ∷ xs) zero (y ∷ bs) zero d a b c = refl
  get_or-blit_in (x ∷ xs) zero (y ∷ bs) (suc i) d a b c =
      get_or-blit_in xs zero bs i d (omega arith) (omega arith) (omega arith)
      ∙ ap (λ (k : ℕ). get_or (y ∷ bs) k d) (suc-sub-zero i)
    where
      suc-sub-zero : (n : ℕ) → suc (n - 0) ≡ suc n - 0
      suc-sub-zero n = omega arith
  get_or-blit_in (x ∷ xs) (suc off) (y ∷ bs) zero d a b c = absurd (omega arith)
  get_or-blit_in (x ∷ xs) (suc off) (y ∷ bs) (suc i) d a b c =
      get_or-blit_in xs off (y ∷ bs) i d (omega arith) (omega arith) (omega arith)
      ∙ ap (λ (k : ℕ). get_or (y ∷ bs) k d) (omega arith)

  pub get_or-blit_below :
      (xs : List A) (off : ℕ) (bs : List A) (i : ℕ) (d : A)
      → i < off
      → get_or (blit xs off bs) i d ≡ get_or xs i d
  get_or-blit_below [] off bs i d h = refl
  get_or-blit_below (x ∷ xs) off [] i d h = refl
  get_or-blit_below (x ∷ xs) zero (y ∷ bs) i d h = absurd (omega arith)
  get_or-blit_below (x ∷ xs) (suc off) (y ∷ bs) zero d h = refl
  get_or-blit_below (x ∷ xs) (suc off) (y ∷ bs) (suc i) d h =
      get_or-blit_below xs off (y ∷ bs) i d (omega arith)

  pub get_or-blit_above :
      (xs : List A) (off : ℕ) (bs : List A) (i : ℕ) (d : A)
      → off + length bs ≤ i
      → get_or (blit xs off bs) i d ≡ get_or xs i d
  get_or-blit_above [] off bs i d h = refl
  get_or-blit_above (x ∷ xs) off [] i d h = refl
  get_or-blit_above (x ∷ xs) zero (y ∷ bs) zero d h = absurd (omega arith)
  get_or-blit_above (x ∷ xs) zero (y ∷ bs) (suc i) d h =
      get_or-blit_above xs zero bs i d (omega arith)
  get_or-blit_above (x ∷ xs) (suc off) (y ∷ bs) zero d h = absurd (omega arith)
  get_or-blit_above (x ∷ xs) (suc off) (y ∷ bs) (suc i) d h =
      get_or-blit_above xs off (y ∷ bs) i d (omega arith)

module _ {ℓ} {A : Type ℓ} where
  pub get_or-take :
      (n : ℕ) (xs : List A) (i : ℕ) (d : A) → i < n → get_or (take n xs) i d ≡ get_or xs i d
  get_or-take zero xs i d h = absurd (omega arith)
  get_or-take (suc n) [] i d h = refl
  get_or-take (suc n) (x ∷ xs) zero d h = refl
  get_or-take (suc n) (x ∷ xs) (suc i) d h = get_or-take n xs i d (omega arith)

  pub get_or-drop :
      (n : ℕ) (xs : List A) (i : ℕ) (d : A) → get_or (drop n xs) i d ≡ get_or xs (n + i) d
  get_or-drop zero xs i d = ap (λ (k : ℕ). get_or xs k d) (omega arith)
  get_or-drop (suc n) [] i d = refl
  get_or-drop (suc n) (x ∷ xs) i d =
      get_or-drop n xs i d ∙ ap (λ (k : ℕ). get_or (x ∷ xs) k d) (suc-add n)
    where
      suc-add : (a : ℕ) → suc (a + i) ≡ suc a + i
      suc-add a = omega arith

  pub get_or-append_left :
      (xs ys : List A) (i : ℕ) (d : A) → i < length xs → get_or (xs ++ ys) i d ≡ get_or xs i d
  get_or-append_left [] ys i d h = absurd (omega arith)
  get_or-append_left (x ∷ xs) ys zero d h = refl
  get_or-append_left (x ∷ xs) ys (suc i) d h = get_or-append_left xs ys i d (omega arith)

  pub get_or-slice :
      (xs : List A) (off n i : ℕ) (d : A)
      → i < n
      → get_or (slice xs off n) i d ≡ get_or xs (off + i) d
  get_or-slice xs off n i d h = get_or-take n (drop off xs) i d h ∙ get_or-drop off xs i d

  pub length-slice : (xs : List A) (off n : ℕ) → off + n ≤ length xs → length (slice xs off n) ≡ n
  length-slice xs off n h = omega (arith, length-take n (drop off xs), length-drop off xs)

  pub get_elem?-in : (xs : List A) (i : ℕ) → i < length xs → (a : A) × (get_elem? xs i ≡ some a)
  get_elem?-in [] i h = absurd (omega arith)
  get_elem?-in (x ∷ xs) zero h = (x, refl)
  get_elem?-in (x ∷ xs) (suc i) h = get_elem?-in xs i (omega arith)

  pub get_elem?-out : (xs : List A) (i : ℕ) → length xs ≤ i → get_elem? xs i ≡ none
  get_elem?-out [] i h = refl
  get_elem?-out (x ∷ xs) zero h = absurd (omega arith)
  get_elem?-out (x ∷ xs) (suc i) h = get_elem?-out xs i (omega arith)
