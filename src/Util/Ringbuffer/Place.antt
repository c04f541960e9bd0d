-- ===== src/Util/Ringbuffer/Place.antt =====
-- src/util/ringbuffer.c: where the bytes of a write stand, and committing it.
use lib_open_rtmp.Base.{
  ℕ, ◌+◌, ◌-◌, ◌%◌, ◌≤◌, ◌<◌, min, ◌≡◌, refl, sym, ap, ap₂, ◌∙◌, ◌⊎◌, inl, inr, List, ◌++◌, arith,
  length, get_or, span, blit, Bool-cases, span-append, span_ext, span-get_or, length-blit,
  get_or-blit_in, get_or-blit_below, get_or-blit_above,
}
use lib_open_rtmp.Util.Ringbuffer.{Ring, get_write_buf, commit_write}
use lib_open_rtmp.Util.Ringbuffer.Inv.{IsValid, byte_at, contents, readable, free_space, mod_cases}

-- The place that `ringbuffer_get_write_buf` gives is free, inside the block, and as long as the
-- free space or the distance to the end of the block.
pub get_write_buf_lem :
    {r : Ring}
    → IsValid r
    → ((get_write_buf r).0 ≡ (r.start + r.len + r.write_offset) % r.size)
      × ((get_write_buf r).1 ≡ min (free_space r) (r.size - (get_write_buf r).0))
      × ((get_write_buf r).0 < r.size)
unfolding get_write_buf
get_write_buf_lem {r} v = ground (arith, mod_cases (r.start + r.len + r.write_offset) r.size)

-- Committing `n` bytes that are free moves the end of the contents by `n`.
pub commit_write_lem :
    {r : Ring} (n : ℕ)
    → IsValid r
    → n ≤ free_space r
    → ((commit_write r n).0 ≡ n)
      × ((commit_write r n).1.len + (commit_write r n).1.write_offset ≡ r.len + r.write_offset + n)
      × IsValid (commit_write r n).1
unfolding commit_write
commit_write_lem {r} n v h = ground arith

-- What a commit leaves alone, and what is then readable.
pub commit_write_keeps :
    (r : Ring) (n : ℕ)
    → ((commit_write r n).1.mem ≡ r.mem)
      × ((commit_write r n).1.start ≡ r.start)
      × ((commit_write r n).1.size ≡ r.size)
      × ((commit_write r n).1.read_offset ≡ r.read_offset)
unfolding commit_write
commit_write_keeps r n = elim (Bool-cases r.write_frozen) [
  | inl e ↦ rw e (refl, refl, refl, refl)
  | inr e ↦ rw e (refl, refl, refl, refl)
]

pub contents-commit_write :
    (r : Ring) (n : ℕ)
    → IsValid r
    → n ≤ free_space r
    → contents (commit_write r n).1 ≡ span (byte_at r) (r.start + r.read_offset) (readable r + n)
contents-commit_write r n v h =
    let keeps = commit_write_keeps r n in
    ap₂ (λ (o m : ℕ). span (byte_at (commit_write r n).1) o m) (omega arith)
      (omega (arith, v, commit_write_lem n v h))
    ∙ span_ext (byte_at (commit_write r n).1) (byte_at r) (r.start + r.read_offset)
        (r.start + r.read_offset) (readable r + n) (λ i l. rw (keeps.0, keeps.2))

-- A position of the contents is not in the block that is being written.
outside :
    (size j k b : ℕ)
    → j < k
    → k < size + size
    → k + b ≤ j + size
    → k % size + b ≤ size
    → (j % size < k % size) ⊎ (k % size + b ≤ j % size)
outside size j k b p q s t = ground (arith, mod_cases j size, mod_cases k size)

-- The n-th byte written lands n places after the first.
inside : (size k i : ℕ) → k < size + size → k % size + i < size → (k + i) % size ≡ k % size + i
inside size k i p q = ground (arith, mod_cases k size, mod_cases (k + i) size)

module _ (r : Ring) (bs : List ℕ) (v : IsValid r) (room : length bs ≤ (get_write_buf r).1) where
  abbrev pub stored : Ring
  stored = record r { mem = blit r.mem (get_write_buf r).0 bs }

  pub stored-IsValid : IsValid stored
  stored-IsValid = ground (arith, v, length-blit r.mem (get_write_buf r).0 bs)

  -- The bytes held are untouched.
  old_bytes :
      (i : ℕ)
      → i < readable r
      → byte_at stored (r.start + r.read_offset + i) ≡ byte_at r (r.start + r.read_offset + i)
  old_bytes i h =
      elim (outside r.size (r.start + r.read_offset + i) (r.start + r.len + r.write_offset)
        (length bs) (omega (arith, v)) (omega (arith, v)) (omega (arith, v, get_write_buf_lem v))
        (omega (arith, v, get_write_buf_lem v))) [
          | inl p ↦
              get_or-blit_below r.mem (get_write_buf r).0 bs
                ((r.start + r.read_offset + i) % r.size) 0 (omega (arith, get_write_buf_lem v))
          | inr p ↦
              get_or-blit_above r.mem (get_write_buf r).0 bs
                ((r.start + r.read_offset + i) % r.size) 0 (omega (arith, get_write_buf_lem v))
        ]

  lands :
      (i : ℕ)
      → i < length bs
      → (r.start + r.read_offset + readable r + i) % r.size ≡ (get_write_buf r).0 + i
  lands i h =
      ap (λ (k : ℕ). k % r.size) same_place
      ∙ inside r.size (r.start + r.len + r.write_offset) i (omega (arith, v))
          (omega (arith, get_write_buf_lem v))
      ∙ omega (arith, get_write_buf_lem v)
    where
      same_place : r.start + r.read_offset + readable r + i ≡ r.start + r.len + r.write_offset + i
      same_place = omega (arith, v)

  -- The bytes written follow them.
  new_bytes :
      (i : ℕ)
      → i < length bs
      → byte_at stored (r.start + r.read_offset + readable r + i) ≡ get_or bs (0 + i) 0
  new_bytes i h =
      get_or-blit_in r.mem (get_write_buf r).0 bs
        ((r.start + r.read_offset + readable r + i) % r.size) 0 (omega (arith, lands i h))
        (omega (arith, lands i h)) (omega (arith, v, get_write_buf_lem v))
      ∙ ap (λ (k : ℕ). get_or bs k 0) (omega (arith, lands i h))

  pub stored-span :
      span (byte_at stored) (r.start + r.read_offset) (readable r + length bs) ≡ contents r ++ bs
  stored-span =
      sym (span-append (byte_at stored) (r.start + r.read_offset) (readable r) (length bs))
      ∙ ap₂ ◌++◌
          (span_ext (byte_at stored) (byte_at r) (r.start + r.read_offset) (r.start + r.read_offset)
            (readable r) old_bytes)
          (span_ext (byte_at stored) (λ i. get_or bs i 0) (r.start + r.read_offset + readable r) 0
              (length bs) new_bytes
            ∙ span-get_or bs 0)
