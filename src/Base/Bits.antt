-- ===== src/Base/Bits.antt =====
-- `&` with a mask of low bits and `|` of disjoint fields, as arithmetic at any width. Both go by
-- the binary digits that the native operations stand for, with the count of digits generalised.
use Prim.Native.Nat.{digits, max, bit_and-bitwise, bit_or-bitwise}
use Prim.Native.Nat.{ℕ, zero, suc, ◌+◌, ◌-◌, ◌*◌, ◌/◌, ◌%◌, ◌^◌, ◌≤◌, ◌<◌, min, bit_and, bit_or}
use mathlib.Core.Path.{◌≡◌, refl, ap, ap₂, ◌∙◌}
use native.Mathlib.Nat.{pow-suc, one-le-pow}
use native.Mathlib.Omega.{arith}
use lib_open_rtmp.Base.Words.{◌<<<◌}

abbrev ands : ℕ → ℕ → ℕ → ℕ
ands = digits (λ b. zero) min

abbrev ors : ℕ → ℕ → ℕ → ℕ
ors = digits (λ b. b) max

ors-none : (n a : ℕ) → a ≤ n → ors n a 0 ≡ a
ors-none zero a h = omega arith
ors-none (suc n) zero h = refl
ors-none (suc n) (suc a) h = omega (arith, ors-none n (suc a / 2) (omega arith))

ors-aligned : (k n a q r : ℕ) → a ≡ q * 2 ^ k → r < 2 ^ k → a ≤ n → ors n a r ≡ a + r
ors-aligned zero n a q r e f h = ap (ors n a) no_rest ∙ ors-none n a h ∙ omega arith
  where
    no_rest : r ≡ 0
    no_rest = omega arith
ors-aligned (suc k) zero a q r e f h = omega arith
ors-aligned (suc k) (suc n) zero q r e f h = omega arith
ors-aligned (suc k) (suc n) (suc a) q r e f h =
    omega (arith, halves, ors-aligned k n (suc a / 2) q (r / 2) (omega (arith, halves)) fits below)
  where
    halves : suc a ≡ 2 * (q * 2 ^ k)
    halves = omega (arith, ap (λ (t : ℕ). q * t) (pow-suc 2 k))

    fits : r / 2 < 2 ^ k
    fits = omega (arith, pow-suc 2 k)

    below : suc a / 2 ≤ n
    below = omega arith

-- `(q << k) | r` is a sum when `r` has at most k bits.
pub bit_or-shift : (k q r : ℕ) → r < 2 ^ k → bit_or (q <<< k) r ≡ q * 2 ^ k + r
bit_or-shift k q r h =
    bit_or-bitwise (q <<< k) r ∙ ors-aligned k (q <<< k) (q <<< k) q r refl h (omega arith)

ands-none : (n a : ℕ) → ands n a 0 ≡ 0
ands-none zero a = refl
ands-none (suc n) zero = refl
ands-none (suc n) (suc a) = omega (arith, ands-none n (suc a / 2))

-- The rest by `2 ^ k` is the digits below k.
ands-low : (k n q r : ℕ) → r < 2 ^ k → q * 2 ^ k + r ≤ n → ands n (q * 2 ^ k + r) (2 ^ k - 1) ≡ r
ands-low zero n q r h le = ands-none n (q * 2 ^ 0 + r) ∙ omega arith
ands-low (suc k) n q r h le =
    lowest n (q * 2 ^ suc k + r) refl le λ m p. ands-low k m q (r / 2) rest p
  where
    twice : q * 2 ^ suc k ≡ 2 * (q * 2 ^ k)
    twice = omega (arith, ap (λ (t : ℕ). q * t) (pow-suc 2 k))

    mask : (2 ^ suc k - 1) / 2 ≡ 2 ^ k - 1
    mask = omega (arith, pow-suc 2 k, one-le-pow k 2)

    rest : r / 2 < 2 ^ k
    rest = omega (arith, pow-suc 2 k)

    lowest :
        (n a : ℕ)
        → a ≡ q * 2 ^ suc k + r
        → a ≤ n
        → ((m : ℕ) → q * 2 ^ k + r / 2 ≤ m → ands m (q * 2 ^ k + r / 2) (2 ^ k - 1) ≡ r / 2)
        → ands n a (2 ^ suc k - 1) ≡ r
    lowest zero a e b ih = omega arith
    lowest (suc n) zero e b ih = omega arith
    lowest (suc n) (suc a) e b ih = omega (
      arith,
      twice,
      pow-suc 2 k,
      one-le-pow k 2,
      ap (λ (t : ℕ). ands n (suc a / 2) t) mask
          ∙ ap (λ (t : ℕ). ands n t (2 ^ k - 1)) (omega (arith, twice))
          ∙ ih n (omega (arith, twice)),
    )

-- `a & (2 ^ k - 1)` is the remainder by `2 ^ k`.
pub bit_and-low : (k a : ℕ) → bit_and a (2 ^ k - 1) ≡ a % 2 ^ k
bit_and-low k a =
    bit_and-bitwise a (2 ^ k - 1)
    ∙ ap₂ (λ (n b : ℕ). ands n b (2 ^ k - 1)) split split
    ∙ ands-low k (a / 2 ^ k * 2 ^ k + a % 2 ^ k) (a / 2 ^ k) (a % 2 ^ k)
        (omega (arith, one-le-pow k 2)) (omega arith)
  where
    split : a ≡ a / 2 ^ k * 2 ^ k + a % 2 ^ k
    split = omega arith
