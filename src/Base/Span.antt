-- ===== src/Base/Span.antt =====
-- Runs of values of a function on ℕ: how the bytes of an array, or of a ring, are listed.
use Prim.Native.Nat.{ℕ, zero, suc, ◌+◌, ◌-◌, ◌≤◌, ◌<◌}
use mathlib.Core.Path.{◌≡◌, refl, sym, ap, ap₂, ◌∙◌}
use mathlib.Core.List.{List, [], ◌∷◌, ◌++◌}
use native.Mathlib.Omega.{arith}
use lib_open_rtmp.Base.Lists.{length, take, drop, get_or, slice}

module _ {ℓ} {A : Type ℓ} where
  -- `f o, f (o + 1), …`, n of them
  abbrev pub span : (ℕ → A) → ℕ → ℕ → List A
  span f o zero = []
  span f o (suc n) = f o ∷ span f (suc o) n

  pub length-span : (f : ℕ → A) (o n : ℕ) → length (span f o n) ≡ n
  length-span f o zero = refl
  length-span f o (suc n) = ap suc (length-span f (suc o) n)

  pub span_empty : (f : ℕ → A) (o : ℕ) {n : ℕ} → n ≡ 0 → span f o n ≡ []
  span_empty f o h = rw h refl

  pub span_ext :
      (f g : ℕ → A) (o p n : ℕ)
      → ((i : ℕ) → i < n → f (o + i) ≡ g (p + i))
      → span f o n ≡ span g p n
  span_ext f g o p zero h = refl
  span_ext f g o p (suc n) h = ap₂ ◌∷◌ head (span_ext f g (suc o) (suc p) n rest)
    where
      head : f o ≡ g p
      head = ap f (omega arith) ∙ h 0 (omega arith) ∙ ap g (omega arith)

      rest : (i : ℕ) → i < n → f (suc o + i) ≡ g (suc p + i)
      rest i l = ap f (omega arith) ∙ h (suc i) (omega arith) ∙ ap g (omega arith)

  pub span-append : (f : ℕ → A) (o m n : ℕ) → span f o m ++ span f (o + m) n ≡ span f o (m + n)
  span-append f o zero n = ap₂ (λ (a b : ℕ). span f a b) (omega arith) (omega arith)
  span-append f o (suc m) n =
      ap (λ t. f o ∷ t)
        (ap (λ (k : ℕ). span f (suc o) m ++ span f k n) (omega arith) ∙ span-append f (suc o) m n)
      ∙ ap (λ (k : ℕ). span f o k) (suc-add m n)
    where
      suc-add : (a b : ℕ) → suc (a + b) ≡ suc a + b
      suc-add a b = omega arith

  pub take-span : (f : ℕ → A) (o m n : ℕ) → m ≤ n → take m (span f o n) ≡ span f o m
  take-span f o zero n h = refl
  take-span f o (suc m) zero h = absurd (omega arith)
  take-span f o (suc m) (suc n) h = ap (λ t. f o ∷ t) (take-span f (suc o) m n (omega arith))

  pub drop-span : (f : ℕ → A) (o m n : ℕ) → m ≤ n → drop m (span f o n) ≡ span f (o + m) (n - m)
  drop-span f o zero n h = ap₂ (λ (a b : ℕ). span f a b) (omega arith) (omega arith)
  drop-span f o (suc m) zero h = absurd (omega arith)
  drop-span f o (suc m) (suc n) h =
      drop-span f (suc o) m n (omega arith)
      ∙ ap₂ (λ (a b : ℕ). span f a b) (omega arith) (omega arith)

  -- A whole list, and a block of it, as runs of its elements.
  pub span-get_or : (xs : List A) (d : A) → span (λ i. get_or xs i d) 0 (length xs) ≡ xs
  span-get_or [] d = refl
  span-get_or (x ∷ xs) d =
      ap (λ t. x ∷ t)
        (span_ext (λ i. get_or (x ∷ xs) i d) (λ i. get_or xs i d) 1 0 (length xs)
            (λ i l.
              ap (λ (k : ℕ). get_or (x ∷ xs) k d) (one-add i)
              ∙ ap (λ (k : ℕ). get_or xs k d) (omega arith))
          ∙ span-get_or xs d)
    where
      one-add : (i : ℕ) → 1 + i ≡ suc i
      one-add i = omega arith

  pub slice-span :
      (xs : List A) (d : A) (off n : ℕ)
      → off + n ≤ length xs
      → slice xs off n ≡ span (λ i. get_or xs i d) off n
  slice-span xs d off n h =
      ap (λ t. slice t off n) (sym (span-get_or xs d))
      ∙ ap (take n) (drop-span (λ i. get_or xs i d) 0 off (length xs) (omega arith))
      ∙ take-span (λ i. get_or xs i d) (0 + off) n (length xs - off) (omega arith)
      ∙ ap (λ (k : ℕ). span (λ i. get_or xs i d) k n) (omega arith)
