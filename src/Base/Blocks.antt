-- ===== src/Base/Blocks.antt =====
-- Blocks of memory that are written one behind the other.
use Prim.Native.Nat.{ℕ, zero, suc, ◌≤◌}
use mathlib.Core.Path.{◌≡◌, refl, sym, ap, ◌∙◌}
use mathlib.Core.List.{List, [], ◌∷◌, ◌++◌, append-nil}
use native.Mathlib.Omega.{arith}
use lib_open_rtmp.Base.Lists.{length, take, drop, blit}

module _ {ℓ} {A : Type ℓ} where
  pub drop_at : (m n : ℕ) (xs : List A) → m ≡ n → drop m xs ≡ drop n xs
  drop_at m n xs e = ap (λ (k : ℕ). drop k xs) e

  pub blit_front :
      (xs bs : List A) → length bs ≤ length xs → blit xs 0 bs ≡ bs ++ drop (length bs) xs
  blit_front [] [] h = refl
  blit_front [] (b ∷ bs) h = absurd (omega arith)
  blit_front (x ∷ xs) [] h = refl
  blit_front (x ∷ xs) (b ∷ bs) h = ap (λ t. b ∷ t) (blit_front xs bs (omega arith))

  -- What is stored behind a block leaves the block.
  pub blit_behind :
      (front xs bs : List A)
      → length bs ≤ length xs
      → blit (front ++ xs) (length front) bs ≡ (front ++ bs) ++ drop (length bs) xs
  blit_behind [] xs bs h = blit_front xs bs h
  blit_behind (x ∷ front) [] [] h =
      empty_block (front ++ []) (length front) ∙ ap (λ t. x ∷ (t ++ [])) (sym (append-nil front))
    where
      empty_block : (ys : List A) (n : ℕ) → blit (x ∷ ys) (suc n) [] ≡ x ∷ ys
      empty_block ys n = refl
  blit_behind (x ∷ front) [] (b ∷ bs) h = absurd (omega arith)
  blit_behind (x ∷ front) (y ∷ xs) [] h = ap (λ t. x ∷ (t ++ y ∷ xs)) (sym (append-nil front))
  blit_behind (x ∷ front) (y ∷ xs) (b ∷ bs) h =
      ap (λ t. x ∷ t) (blit_behind front (y ∷ xs) (b ∷ bs) h)

  pub take-append_front : (n : ℕ) (xs ys : List A) → n ≡ length xs → take n (xs ++ ys) ≡ xs
  take-append_front zero [] ys h = refl
  take-append_front zero (x ∷ xs) ys h = absurd (omega arith)
  take-append_front (suc n) [] ys h = absurd (omega arith)
  take-append_front (suc n) (x ∷ xs) ys h =
      ap (λ t. x ∷ t) (take-append_front n xs ys (omega arith))

  pub drop-append_front : (n : ℕ) (xs ys : List A) → n ≡ length xs → drop n (xs ++ ys) ≡ ys
  drop-append_front zero [] ys h = refl
  drop-append_front zero (x ∷ xs) ys h = absurd (omega arith)
  drop-append_front (suc n) [] ys h = absurd (omega arith)
  drop-append_front (suc n) (x ∷ xs) ys h = drop-append_front n xs ys (omega arith)
