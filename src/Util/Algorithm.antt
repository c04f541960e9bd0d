-- ===== src/Util/Algorithm.antt =====
-- src/util/algorithm.c: searches over an array of equal-sized elements, compared by a callback
-- that is handed two addresses. The memory at an address is the list of its bytes.
pub mod Search
use lib_open_rtmp.Base.{
  ℕ, zero, suc, ◌+◌, ◌-◌, ◌*◌, ◌/◌, Bool, true, false, not, ◌&&◌, List, ltb, slice, if◌then◌else◌,
}

abbrev pub LessThan : Type 0
LessThan = List ℕ → List ℕ → Bool

module _ (less_than : LessThan) (needle haystack : List ℕ) (element_size : ℕ) where
  -- The element at `d + element_size * index`.
  unfoldable pub element : ℕ → List ℕ
  element index = slice haystack (element_size * index) element_size

  unfoldable pub equals : ℕ → Bool
  unfolding element
  equals i = not (less_than needle (element i)) && not (less_than (element i) needle)

  unfoldable pub greater_than : ℕ → Bool
  unfolding element
  greater_than i = less_than (element i) needle

  -- The `while` loop; each round makes `upper_bound - lower_bound` smaller, so `count` rounds do.
  unfoldable pub search_loop : ℕ → ℕ → ℕ → ℕ → ℕ
  unfolding element greater_than
  search_loop zero lower_bound upper_bound index = index
  search_loop (suc fuel) lower_bound upper_bound index =
      let middle = lower_bound + (upper_bound - lower_bound) / 2 in
      let left = search_loop fuel lower_bound middle middle in
      let right = search_loop fuel (middle + 1) upper_bound middle in
      if ltb lower_bound upper_bound
      then (if less_than needle (element middle)
          then left
          else if greater_than middle
          then right
          else middle)
      else index

  unfoldable pub search_bin : ℕ → ℕ
  unfolding search_loop
  search_bin count = search_loop count 0 count 0

  -- The `for` loop from `i`, with `left` rounds to go.
  unfoldable pub linear_loop : ℕ → ℕ → ℕ
  unfolding equals
  linear_loop zero i = i
  linear_loop (suc left) i = let rest = linear_loop left (i + 1) in if equals i then i else rest

  unfoldable pub search_lin : ℕ → ℕ
  unfolding linear_loop
  search_lin count = linear_loop count 0
