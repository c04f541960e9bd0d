-- ===== src/Base/Tests.antt =====
-- C's comparisons and conditional, as Boolean tests on the native numbers.
use Prim.Native.Nat.{ℕ, ◌≤◌, ◌<◌, compare, Ordering}
use mathlib.Core.Path.{◌≡◌, refl}
use mathlib.Core.Logic.{◌≢◌, ◌⊎◌, inl, inr}
use mathlib.Core.Bool.{Bool, true, false}
use native.Mathlib.Omega.{arith}

abbrev pub ltb : ℕ → ℕ → Bool
ltb a b = elim (compare a b) [ Ordering.lt ↦ true | _ ↦ false ]

abbrev pub leb : ℕ → ℕ → Bool
leb a b = elim (compare a b) [ Ordering.gt ↦ false | _ ↦ true ]

infix 50 ◌==◌
abbrev pub ◌==◌ : ℕ → ℕ → Bool
a == b = elim (compare a b) [ Ordering.eq ↦ true | _ ↦ false ]

infix 1 if◌then◌else◌
abbrev pub if◌then◌else◌ {ℓ} : {A : Type ℓ} → Bool → A → A → A
if true then x else y = x
if false then x else y = y

pub lt→ltb : {a b : ℕ} → a < b → ltb a b ≡ true
lt→ltb h = ground arith

pub le→not_ltb : {a b : ℕ} → b ≤ a → ltb a b ≡ false
le→not_ltb h = ground arith

pub ltb→lt : {a b : ℕ} → ltb a b ≡ true → a < b
ltb→lt h = ground arith

pub not_ltb→le : {a b : ℕ} → ltb a b ≡ false → b ≤ a
not_ltb→le h = ground arith

pub le→leb : {a b : ℕ} → a ≤ b → leb a b ≡ true
le→leb h = ground arith

pub lt→not_leb : {a b : ℕ} → b < a → leb a b ≡ false
lt→not_leb h = ground arith

pub leb→le : {a b : ℕ} → leb a b ≡ true → a ≤ b
leb→le h = ground arith

pub not_leb→lt : {a b : ℕ} → leb a b ≡ false → b < a
not_leb→lt h = ground arith

pub eq→== : {a b : ℕ} → a ≡ b → (a == b) ≡ true
eq→== h = ground arith

pub ne→not_== : {a b : ℕ} → a ≢ b → (a == b) ≡ false
ne→not_== h = ground arith

pub ==→eq : {a b : ℕ} → (a == b) ≡ true → a ≡ b
==→eq h = ground arith

pub not_==→ne : {a b : ℕ} → (a == b) ≡ false → a ≢ b
not_==→ne h = ground arith

-- A computed test is one of the two, with the equation kept.
pub Bool-cases : (b : Bool) → (b ≡ true) ⊎ (b ≡ false)
Bool-cases true = inl refl
Bool-cases false = inr refl
