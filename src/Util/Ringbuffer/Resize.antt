-- ===== src/Util/Ringbuffer/Resize.antt =====
-- src/util/ringbuffer.c: changing the size of the block under the ring.
use native.Mathlib.Decide.{dec_lt}
use native.Mathlib.Nat.{mod-eq_of_lt}
use lib_open_rtmp.Base.{
  ℕ, ◌+◌, ◌-◌, ◌%◌, ◌^◌, ◌≤◌, ◌<◌, min, ◌≡◌, refl, ap, ◌∙◌, ◌⊎◌, inl, inr, List, ◌++◌, arith,
  length, get_or, span_ext, slice, lt→ltb, length-blit, length-append, length-take, length-slice,
  get_or-slice, get_or-blit_in, get_or-blit_below, get_or-blit_above, get_or-take,
  get_or-append_left,
}
use lib_open_rtmp.Util.Ringbuffer.{Ring, realloc, memmove, grow, resize}
use lib_open_rtmp.Util.Ringbuffer.Inv.{IsValid, byte_at, contents, readable, mod_cases}

-- `memmove` inside a block: the target holds what the source held.
memmove_in :
    (mem : List ℕ) (dst src n i : ℕ)
    → src + n ≤ length mem
    → dst + n ≤ length mem
    → i < n
    → get_or (memmove mem dst src n) (dst + i) 0 ≡ get_or mem (src + i) 0
unfolding memmove
memmove_in mem dst src n i a b h =
    get_or-blit_in mem dst (slice mem src n) (dst + i) 0 (omega arith)
      (omega (arith, length-slice mem src n a)) (omega (arith, length-slice mem src n a))
    ∙ ap (λ (k : ℕ). get_or (slice mem src n) k 0) (omega arith)
    ∙ get_or-slice mem src n i 0 h

memmove_out :
    (mem : List ℕ) (dst src n i : ℕ)
    → src + n ≤ length mem
    → (i < dst) ⊎ (dst + n ≤ i)
    → get_or (memmove mem dst src n) i 0 ≡ get_or mem i 0
unfolding memmove
memmove_out mem dst src n i a (inl h) = get_or-blit_below mem dst (slice mem src n) i 0 h
memmove_out mem dst src n i a (inr h) =
    get_or-blit_above mem dst (slice mem src n) i 0 (omega (arith, length-slice mem src n a))

length-memmove : (mem : List ℕ) (dst src n : ℕ) → length (memmove mem dst src n) ≡ length mem
unfolding memmove
length-memmove mem dst src n = length-blit mem dst (slice mem src n)

length-realloc :
    (mem fresh : List ℕ) (n : ℕ) → n ≤ length mem + length fresh → length (realloc mem fresh n) ≡ n
unfolding realloc
length-realloc mem fresh n h = omega (arith, length-take n (mem ++ fresh), length-append mem fresh)

get_or-realloc :
    (mem fresh : List ℕ) (n i : ℕ)
    → i < n
    → i < length mem
    → get_or (realloc mem fresh n) i 0 ≡ get_or mem i 0
unfolding realloc
get_or-realloc mem fresh n i a b =
    get_or-take n (mem ++ fresh) i 0 a ∙ get_or-append_left mem fresh i 0 b

module _ (r : Ring) (fresh : List ℕ) (amount : ℕ) (v : IsValid r) (larger : r.size < amount)
    (small : amount ≤ 2 ^ 62) (enough : amount ≤ length r.mem + length fresh) where
  offset : ℕ
  offset = r.len + r.start + r.write_offset

  block : List ℕ
  block = realloc r.mem fresh amount

  overlap : ℕ
  overlap = offset - r.size

  new_space : ℕ
  new_space = min overlap (amount - r.size)

  moved : List ℕ
  moved = memmove block r.size 0 new_space

  shifted : List ℕ
  shifted = memmove moved 0 new_space (overlap - new_space)

  grown : List ℕ → Ring
  grown mem = record r { mem = mem; size = amount }

  grow_straight : offset ≤ r.size → grow r fresh amount ≡ grown block
  unfolding grow offset block grown
  grow_straight h = ground (arith, v)

  grow_round : r.size < offset → grow r fresh amount ≡ grown shifted
  unfolding grow offset block grown moved shifted overlap new_space
  grow_round h = ground (arith, v, mod_cases (r.len + r.start + r.write_offset) r.size)

  length-block : length block ≡ amount
  unfolding block
  length-block = length-realloc r.mem fresh amount enough

  length-shifted : length shifted ≡ amount
  unfolding shifted moved
  length-shifted =
      length-memmove moved 0 new_space (overlap - new_space)
      ∙ length-memmove block r.size 0 new_space
      ∙ length-block

  kept : (i : ℕ) → i < r.size → get_or block i 0 ≡ get_or r.mem i 0
  unfolding block
  kept i h = get_or-realloc r.mem fresh amount i (omega arith) (omega (arith, v))

  bounds :
      r.size < offset
      → (overlap ≤ r.start)
        × (overlap + r.size ≡ offset)
        × (new_space ≤ overlap)
        × (r.size + new_space ≤ amount)
        × ((new_space ≡ overlap) ⊎ (r.size + new_space ≡ amount))
  unfolding new_space overlap offset
  bounds w = ground (arith, v)

  length-moved : length moved ≡ amount
  unfolding moved
  length-moved = length-memmove block r.size 0 new_space ∙ length-block

  -- The bytes before the old end stay where they are.
  shifted_low :
      (i : ℕ) → r.size < offset → r.start ≤ i → i < r.size → get_or shifted i 0 ≡ get_or r.mem i 0
  unfolding shifted moved
  shifted_low i w lo hi =
      memmove_out moved 0 new_space (overlap - new_space) i
        (omega (arith, bounds w, v, length-moved)) (inr (omega (arith, bounds w)))
      ∙ memmove_out block r.size 0 new_space i (omega (arith, bounds w, length-block)) (inl hi)
      ∙ kept i hi

  -- The first bytes that had gone round now follow the old end.
  shifted_mid :
      (i : ℕ) → r.size < offset → i < new_space → get_or shifted (r.size + i) 0 ≡ get_or r.mem i 0
  unfolding shifted moved
  shifted_mid i w h =
      memmove_out moved 0 new_space (overlap - new_space) (r.size + i)
        (omega (arith, bounds w, v, length-moved)) (inr (omega (arith, bounds w, v)))
      ∙ memmove_in block r.size 0 new_space i (omega (arith, bounds w, length-block))
          (omega (arith, bounds w, length-block)) h
      ∙ ap (λ (k : ℕ). get_or block k 0) (omega arith)
      ∙ kept i (omega (arith, bounds w, v))

  -- The rest moved down to the front.
  shifted_high :
      (i : ℕ)
      → r.size < offset
      → new_space + i < overlap
      → get_or shifted i 0 ≡ get_or r.mem (new_space + i) 0
  unfolding shifted
  shifted_high i w h =
      ap (λ (k : ℕ). get_or shifted k 0) (zero-add i)
      ∙ memmove_in moved 0 new_space (overlap - new_space) i
          (omega (arith, bounds w, v, length-moved)) (omega (arith, bounds w, v, length-moved))
          (omega arith)
      ∙ before_end
      ∙ kept (new_space + i) (omega (arith, bounds w, v))
    where
      zero-add : (k : ℕ) → k ≡ 0 + k
      zero-add k = omega arith

      before_end : get_or moved (new_space + i) 0 ≡ get_or block (new_space + i) 0
      before_end =
          unfold moved in
          memmove_out block r.size 0 new_space (new_space + i)
            (omega (arith, bounds w, length-block)) (inl (omega (arith, bounds w, v)))

  -- Each byte of the contents is found again under the new size.
  same_byte :
      (j : ℕ)
      → r.size < offset
      → r.start ≤ j
      → j < offset
      → get_or shifted (j % amount) 0 ≡ get_or r.mem (j % r.size) 0
  same_byte j w lo hi = elim (dec_lt j r.size) [
    | yes p ↦
        rw (mod-eq_of_lt p, mod-eq_of_lt {n = j} {m = amount} (omega arith)) (shifted_low j w lo p)
    | no p ↦ elim (dec_lt (j - r.size) new_space) [
      | yes q ↦
          ap (λ (k : ℕ). get_or shifted k 0) (omega (arith, bounds w, v, mod_cases j amount))
          ∙ shifted_mid (j - r.size) w q
          ∙ ap (λ (k : ℕ). get_or r.mem k 0) (omega (arith, bounds w, v, mod_cases j r.size))
      | no q ↦
          ap (λ (k : ℕ). get_or shifted k 0) (omega (arith, bounds w, v, mod_cases j amount))
          ∙ shifted_high (j - amount) w (omega (arith, bounds w, v))
          ∙ ap (λ (k : ℕ). get_or r.mem k 0) (omega (arith, bounds w, v, mod_cases j r.size))
    ]
  ]

  straight_byte :
      (j : ℕ)
      → offset ≤ r.size
      → j < offset
      → get_or block (j % amount) 0 ≡ get_or r.mem (j % r.size) 0
  straight_byte j w hi =
      rw
        (
          mod-eq_of_lt {n = j} {m = amount} (omega arith),
          mod-eq_of_lt {n = j} {m = r.size} (omega arith),
        )
        (kept j (omega arith))

  grow-straight : offset ≤ r.size → IsValid (grown block) × (contents (grown block) ≡ contents r)
  unfolding grown
  grow-straight w = (
    ground (arith, v, length-block),
    span_ext (byte_at (grown block)) (byte_at r) (r.start + r.read_offset) (r.start + r.read_offset)
        (readable r)
        (λ i l. straight_byte (r.start + r.read_offset + i) w (unfold offset in omega (arith, v))),
  )

  grow-round : r.size < offset → IsValid (grown shifted) × (contents (grown shifted) ≡ contents r)
  unfolding grown
  grow-round w = (
    ground (arith, v, length-shifted),
    span_ext (byte_at (grown shifted)) (byte_at r) (r.start + r.read_offset)
        (r.start + r.read_offset) (readable r)
        (λ i l.
          same_byte (r.start + r.read_offset + i) w (omega arith)
            (unfold offset in omega (arith, v))),
  )

  grow_lem : IsValid (grow r fresh amount) × (contents (grow r fresh amount) ≡ contents r)
  grow_lem = elim (dec_lt r.size offset) [
    | yes w ↦ rw (grow_round w) (grow-round w)
    | no w ↦ rw (grow_straight (omega arith)) (grow-straight (omega arith))
  ]

  -- Enlarging the ring keeps every byte that it holds, also those that have gone round the end of
  -- the old block, in order, and gives the ring its new size.
  pub resize_larger :
      IsValid (resize r fresh amount)
      × (contents (resize r fresh amount) ≡ contents r)
      × ((resize r fresh amount).size ≡ amount)
  unfolding resize
  resize_larger = rw (lt→ltb larger) (grow_lem.0, grow_lem.1, unfold grow in refl)
