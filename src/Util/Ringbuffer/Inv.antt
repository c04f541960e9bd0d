-- ===== src/Util/Ringbuffer/Inv.antt =====
-- The representation invariant of src/util/ringbuffer.c and the bytes that a ring holds.
use native.Mathlib.Nat.{mod-eq_of_lt, mod-eq-sub-mod}
use native.Mathlib.Decide.{dec_lt}
use lib_open_rtmp.Base.{
  ℕ, ◌+◌, ◌-◌, ◌%◌, ◌^◌, ◌≤◌, ◌<◌, ◌≡◌, ◌⊎◌, inl, inr, false, List, arith, length, get_or, span,
  length-span,
}
use lib_open_rtmp.Util.Ringbuffer.{Ring, create, count}

-- The sizes stay below 2 ^ 62, so that no sum of an operation wraps.
pub record IsValid (r : Ring) : Type 0 where
  pub storage : length r.mem ≡ r.size
  pub pos : 0 < r.size
  pub small : r.size ≤ 2 ^ 62
  pub start_in : r.start < r.size
  pub fits : r.len + r.write_offset ≤ r.size
  pub read_in : r.read_offset ≤ r.len + r.write_offset
  pub read_idle : r.read_frozen ≡ false → r.read_offset ≡ 0
  pub write_idle : r.write_frozen ≡ false → r.write_offset ≡ 0

-- The byte at a position that counts on past the end of the block.
abbrev pub byte_at : Ring → ℕ → ℕ
byte_at r i = get_or r.mem (i % r.size) 0

abbrev pub readable : Ring → ℕ
readable r = r.len + r.write_offset - r.read_offset

abbrev pub free_space : Ring → ℕ
free_space r = r.size - r.len - r.write_offset

-- The bytes that a reader can still read, oldest first; those of a frozen write are among them.
abbrev pub contents : Ring → List ℕ
contents r = span (byte_at r) (r.start + r.read_offset) (readable r)

pub length-contents : (r : Ring) → length (contents r) ≡ readable r
length-contents r = length-span (byte_at r) (r.start + r.read_offset) (readable r)

-- `ringbuffer_count` is the number of bytes held.
pub count-eq-readable : {r : Ring} → IsValid r → count r ≡ length (contents r)
unfolding count
count-eq-readable {r} v = omega (arith, length-contents r)

pub create-IsValid :
    (mem : List ℕ) (size : ℕ)
    → length mem ≡ size
    → 0 < size
    → size ≤ 2 ^ 62
    → IsValid (create mem size)
unfolding create
create-IsValid mem size e p s = ground arith

-- A position less than two rounds on is in the first round or in the second.
pub mod_cases : (x n : ℕ) → x < n + n → ((x < n) × (x % n ≡ x)) ⊎ ((n ≤ x) × (x % n ≡ x - n))
mod_cases x n h = elim (dec_lt x n) [
  | yes p ↦ inl (p, mod-eq_of_lt p)
  | no p ↦ inr (
    omega arith,
    omega (
      arith,
      mod-eq-sub-mod {n = x} {m = n} (omega arith),
      mod-eq_of_lt {n = x - n} {m = n} (omega arith),
    ),
  )
]
