-- ===== src/Util/Ringbuffer/Read.antt =====
-- src/util/ringbuffer.c: copying out of the ring.
use native.Mathlib.Nat.{mod-add-mod}
use lib_open_rtmp.Base.{
  ℕ, ◌+◌, ◌-◌, ◌%◌, ◌^◌, ◌≤◌, ◌<◌, min, ◌≡◌, sym, ap, ap₂, ◌∙◌, ◌⊎◌, inl, inr, true, ◌++◌, arith,
  get_or, take, drop, leb, leb→le, not_leb→lt, sub64, ltb, if◌then◌else◌, Bool-cases, drop-drop,
  take_congr, take-append-take-drop, span_ext, slice-span, take-span,
}
use lib_open_rtmp.Util.Ringbuffer.{Ring, get_read_buf, fetch, copy_read, copy_read_round}
use lib_open_rtmp.Util.Ringbuffer.Inv.{
  IsValid, byte_at, contents, readable, length-contents, mod_cases,
}
use lib_open_rtmp.Util.Ringbuffer.Take.{get_read_buf_lem, Advanced, commit_read_lem}

-- The bytes fetched are the first ones of the contents.
pub fetch_lem :
    (r : Ring) (n : ℕ)
    → IsValid r
    → r.write_offset ≡ 0
    → n ≤ (get_read_buf r).1
    → ((fetch r n).0 ≡ take n (contents r)) × Advanced r n (fetch r n).1
unfolding fetch
fetch_lem r n v idle h = (
  slice-span r.mem 0 (get_read_buf r).0 n (omega (arith, v, get_read_buf_lem v))
      ∙ span_ext (λ i. get_or r.mem i 0) (byte_at r) (get_read_buf r).0 (r.start + r.read_offset) n
          (λ i l. ap (λ (k : ℕ). get_or r.mem k 0) (sym (lands i l)))
      ∙ sym (
          take-span (byte_at r) (r.start + r.read_offset) n (readable r)
            (omega (arith, get_read_buf_lem v))),
  (commit_read_lem r n v idle (omega (arith, get_read_buf_lem v))).1,
)
  where
    lands : (i : ℕ) → i < n → (r.start + r.read_offset + i) % r.size ≡ (get_read_buf r).0 + i
    lands i l = ground (
      arith,
      v,
      get_read_buf_lem v,
      mod_cases (r.start + r.read_offset) r.size,
      mod_cases (r.start + r.read_offset + i) r.size,
    )

-- When the first block is used up, the second holds all that is left.
rest_after_first :
    (r s : Ring) → IsValid r → Advanced r (get_read_buf r).1 s → (get_read_buf s).1 ≡ readable s
rest_after_first r s v a = ground (
  arith,
  a.valid,
  a.left,
  a.same_size,
  a.cursor,
  get_read_buf_lem v,
  get_read_buf_lem a.valid,
  mod_cases (r.start + r.read_offset) r.size,
  mod_cases (r.start + r.read_offset + (get_read_buf r).1) r.size,
)

-- Cursors add up round the ring.
cursor_trans :
    (size x y z m n : ℕ)
    → y % size ≡ (x + m) % size
    → z % size ≡ (y + n) % size
    → z % size ≡ (x + (m + n)) % size
cursor_trans size x y z m n p q =
    q
    ∙ sym (mod-add-mod y size n)
    ∙ ap (λ (k : ℕ). (k + n) % size) p
    ∙ mod-add-mod (x + m) size n
    ∙ ap (λ (k : ℕ). k % size) (omega arith)

cursor_after :
    {r s t : Ring} {m n : ℕ}
    → Advanced r m s
    → Advanced s n t
    → ((s.start + s.read_offset) % r.size ≡ (r.start + r.read_offset + m) % r.size)
      ⊎ (readable s ≡ 0)
    → ((t.start + t.read_offset) % r.size ≡ (s.start + s.read_offset + n) % r.size)
      ⊎ (readable t ≡ 0)
    → ((t.start + t.read_offset) % r.size ≡ (r.start + r.read_offset + (m + n)) % r.size)
      ⊎ (readable t ≡ 0)
cursor_after a b (inr z) _ = inr (omega (arith, b.left))
cursor_after a b (inl p) (inr z) = inr z
cursor_after {r} {s} {t} {m} {n} a b (inl p) (inl q) = inl (
    cursor_trans r.size (r.start + r.read_offset) (s.start + s.read_offset)
      (t.start + t.read_offset) m n p q)

Advanced-trans : {r s t : Ring} {m n : ℕ} → Advanced r m s → Advanced s n t → Advanced r (m + n) t
Advanced-trans {r} {s} {t} {m} {n} a b = record {
  valid = b.valid;
  rest = b.rest ∙ ap (drop n) a.rest ∙ drop-drop m n (contents r);
  left = omega (arith, a.left, b.left);
  same_size = b.same_size ∙ a.same_size;
  no_write = b.no_write;
  same_mem = b.same_mem ∙ a.same_mem;
  cursor = cursor_after a b a.cursor (rw (← a.same_size) b.cursor);
  held = λ h. ((b.held (a.held h).0).0, (b.held (a.held h).0).1 ∙ (a.held h).1);
}

copy_read_round_lem :
    (r : Ring) (n : ℕ)
    → IsValid r
    → r.write_offset ≡ 0
    → n < 2 ^ 64
    → (get_read_buf r).1 < n
    → ((copy_read_round r n (get_read_buf r).1).0 ≡ min n (readable r))
      × ((copy_read_round r n (get_read_buf r).1).1 ≡ take n (contents r))
      × Advanced r (min n (readable r)) (copy_read_round r n (get_read_buf r).1).2
unfolding copy_read_round
copy_read_round_lem r n v idle word long = (
  amount,
  ap₂ ◌++◌ first.0 (second.0 ∙ ap (take more) first.1.rest)
      ∙ take-append-take-drop room more (contents r)
      ∙ take_congr (room + more) n (contents r) (omega (arith, more-eq, space, length-contents r)),
  rw (sym total) (Advanced-trans first.1 second.1),
)
  where
    room : ℕ
    room = (get_read_buf r).1

    once : Ring
    once = (fetch r room).1

    first : ((fetch r room).0 ≡ take room (contents r)) × Advanced r room once
    first = fetch_lem r room v idle (omega arith)

    all_left : (get_read_buf once).1 ≡ readable once
    all_left = rest_after_first r once v first.1

    space : readable once + room ≡ readable r
    space = first.1.left

    more : ℕ
    more = if ltb (get_read_buf once).1 (sub64 n room) then (get_read_buf once).1 else sub64 n room

    more-eq : more ≡ min (readable once) (n - room)
    more-eq = ground (arith, all_left)

    second :
        ((fetch once more).0 ≡ take more (contents once)) × Advanced once more (fetch once more).1
    second = fetch_lem once more first.1.valid first.1.no_write (omega (arith, more-eq, all_left))

    total : room + more ≡ min n (readable r)
    total = omega (arith, more-eq, space)

    amount : (room + more) % 2 ^ 64 ≡ min n (readable r)
    amount = omega (arith, more-eq, space, v)

-- `ringbuffer_copy_read` reads as many of the bytes asked for as there are, in order, returns
-- their number and takes exactly those away.
pub copy_read_lem :
    (r : Ring) (n : ℕ)
    → IsValid r
    → r.write_offset ≡ 0
    → n < 2 ^ 64
    → ((copy_read r n).0 ≡ min n (readable r))
      × ((copy_read r n).1 ≡ take n (contents r))
      × Advanced r (min n (readable r)) (copy_read r n).2
unfolding copy_read
copy_read_lem r n v idle word = elim (Bool-cases (leb n (get_read_buf r).1)) [
  | inl one ↦ rw one (
    omega (arith, get_read_buf_lem v, leb→le one),
    (fetch_lem r n v idle (leb→le one)).0,
    rw (all_asked one) (fetch_lem r n v idle (leb→le one)).1,
  )
  | inr two ↦ rw two (copy_read_round_lem r n v idle word (not_leb→lt two))
]
  where
    all_asked : leb n (get_read_buf r).1 ≡ true → min n (readable r) ≡ n
    all_asked one = omega (arith, get_read_buf_lem v, leb→le one)
