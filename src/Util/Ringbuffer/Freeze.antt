-- ===== src/Util/Ringbuffer/Freeze.antt =====
-- src/util/ringbuffer.c: what stands between a freeze and the matching unfreeze.
use lib_open_rtmp.Base.{
  ℕ, ◌+◌, ◌-◌, ◌<◌, ◌^◌, min, ◌≡◌, refl, sym, ap, ap₂, ◌∙◌, inl, true, false, List, ◌++◌, arith,
  length, span, take, drop, length-span, drop_congr, take-span, take-append, length-take,
}
use lib_open_rtmp.Util.Ringbuffer.{
  Ring, copy_write, copy_read, commit_write, freeze_read, unfreeze_read, freeze_write,
  unfreeze_write,
}
use lib_open_rtmp.Util.Ringbuffer.Inv.{
  IsValid, byte_at, contents, readable, free_space, length-contents,
}
use lib_open_rtmp.Util.Ringbuffer.Write.{Appended, copy_write_lem}
use lib_open_rtmp.Util.Ringbuffer.Read.{copy_read_lem}
use lib_open_rtmp.Util.Ringbuffer.Take.{Advanced, IsHeld, stored_bytes, commit_read_lem}

pub freeze_write-IsValid : {r : Ring} → IsValid r → IsValid (freeze_write r)
unfolding freeze_write
freeze_write-IsValid v = ground arith

pub freeze_read-IsValid : {r : Ring} → IsValid r → IsValid (freeze_read r)
unfolding freeze_read
freeze_read-IsValid v = ground arith

module _ (r : Ring) (bs : List ℕ) (s : Ring) (v : IsValid r) (idle : r.write_offset ≡ 0)
    (a : Appended (freeze_write r) bs s) where
  -- The bytes of an open write are all beyond `len`.
  pending : s.write_offset ≡ length bs
  unfolding freeze_write
  pending = omega (arith, v, a.free, a.valid, a.same_size, a.same_len refl)

  pub roll_back_write :
      IsValid (unfreeze_write s false).1
      × (contents (unfreeze_write s false).1 ≡ contents r)
      × ((unfreeze_write s false).1.write_offset ≡ 0)
  unfolding unfreeze_write freeze_write
  roll_back_write = (
    ground (arith, v, a.valid, a.same_len refl, a.same_read, idle),
    sym (
          take-span (byte_at s) (s.start + s.read_offset) (s.len + 0 - s.read_offset) (readable s)
            (omega (arith, a.valid)))
        ∙ ap₂ (λ (n : ℕ) xs. take n xs)
            (omega (arith, a.same_len refl, a.same_read, idle, length-contents r)) a.bytes
        ∙ take-append (contents r) bs,
    refl,
  )

  thawed_commit :
      commit_write (record s { write_frozen = false }) s.write_offset
      ≡ (s.write_offset, record s { write_frozen = false; len = s.len + s.write_offset })
  unfolding commit_write
  thawed_commit = ground (arith, a.valid)

  pub commit_open_write :
      ((unfreeze_write s true).0 ≡ length bs)
      × IsValid (unfreeze_write s true).1
      × (contents (unfreeze_write s true).1 ≡ contents r ++ bs)
      × ((unfreeze_write s true).1.write_offset ≡ 0)
  unfolding unfreeze_write freeze_write
  commit_open_write = rw thawed_commit (
    pending,
    ground (arith, a.valid),
    ap (λ (n : ℕ). span (byte_at s) (s.start + s.read_offset) n) (omega arith) ∙ a.bytes,
    refl,
  )

-- A write between `ringbuffer_freeze_write` and `ringbuffer_unfreeze_write` leaves the contents as
-- they were when it is not committed; when it is, the bytes that fitted are appended and their
-- number returned.
pub write_transaction :
    (r : Ring) (src : List ℕ)
    → IsValid r
    → r.write_offset ≡ 0
    → length src < 2 ^ 64
    → let s = (copy_write (freeze_write r) src).1 in
      (contents (unfreeze_write s false).1 ≡ contents r)
      × (contents (unfreeze_write s true).1 ≡ contents r ++ take (free_space r) src)
      × ((unfreeze_write s true).0 ≡ min (free_space r) (length src))
write_transaction r src v idle word = (
  (roll_back_write r bs s v idle held).1,
  (commit_open_write r bs s v idle held).2,
  (commit_open_write r bs s v idle held).0 ∙ length-take (free_space r) src,
)
  where
    bs : List ℕ
    bs = take (free_space r) src

    s : Ring
    s = (copy_write (freeze_write r) src).1

    held : Appended (freeze_write r) bs s
    held =
        unfold freeze_write in (copy_write_lem (freeze_write r) src (freeze_write-IsValid v) word).1

module _ (r : Ring) (n : ℕ) (s : Ring) (v : IsValid r) (idle : r.write_offset ≡ 0)
    (fresh : r.read_frozen ≡ false) (a : Advanced (freeze_read r) n s) where
  kept : IsHeld s × (stored_bytes s ≡ stored_bytes r)
  unfolding freeze_read
  kept = a.held (inl refl)

  whole : contents r ≡ stored_bytes r
  whole =
      ap₂ (λ (o k : ℕ). span (byte_at r) o k) (omega (arith, v.read_idle fresh))
        (omega (arith, v.read_idle fresh))

  thawed : Ring
  thawed = record s { read_frozen = false; read_offset = 0 }

  thawed-IsValid : IsValid thawed
  unfolding thawed
  thawed-IsValid = ground (arith, a.valid)

  thawed_bytes : contents thawed ≡ contents r
  unfolding thawed
  thawed_bytes =
      ap₂ (λ (o k : ℕ). span (byte_at s) o k) (omega arith) (omega arith) ∙ kept.1 ∙ sym whole

  pub roll_back_read :
      IsValid (unfreeze_read s false).1 × (contents (unfreeze_read s false).1 ≡ contents r)
  unfolding unfreeze_read thawed
  roll_back_read = (thawed-IsValid, thawed_bytes)

  same_stored : s.len + s.write_offset ≡ r.len + r.write_offset
  same_stored =
      sym (length-span (byte_at s) s.start (s.len + s.write_offset))
      ∙ ap length kept.1
      ∙ length-span (byte_at r) r.start (r.len + r.write_offset)

  cursor_moved : s.read_offset ≡ n
  unfolding freeze_read
  cursor_moved = omega (arith, same_stored, a.left, a.valid, a.no_write, v.read_idle fresh, v)

  pub commit_open_read :
      ((unfreeze_read s true).0 ≡ n)
      × IsValid (unfreeze_read s true).1
      × (contents (unfreeze_read s true).1 ≡ drop n (contents r))
  unfolding unfreeze_read thawed
  commit_open_read =
      let done =
        (commit_read_lem thawed s.read_offset thawed-IsValid a.no_write
          (omega (arith, a.valid))).1 in
      (
        cursor_moved,
        done.valid,
        done.rest ∙ ap₂ (λ (k : ℕ) xs. drop k xs) cursor_moved thawed_bytes,
      )

-- A read between `ringbuffer_freeze_read` and `ringbuffer_unfreeze_read` gives the first bytes of
-- the contents; when it is not committed they are all there again, and when it is they are gone
-- and their number is returned.
pub read_transaction :
    (r : Ring) (n : ℕ)
    → IsValid r
    → r.write_offset ≡ 0
    → r.read_frozen ≡ false
    → n < 2 ^ 64
    → let (_, bytes, s) = copy_read (freeze_read r) n in
      (bytes ≡ take n (contents r))
      × (contents (unfreeze_read s false).1 ≡ contents r)
      × (contents (unfreeze_read s true).1 ≡ drop n (contents r))
      × ((unfreeze_read s true).0 ≡ min n (length (contents r)))
read_transaction r n v idle fresh word = (
  unfold freeze_read in done.1,
  (roll_back_read r m s v idle fresh moved).1,
  (commit_open_read r m s v idle fresh moved).2
      ∙ drop_congr m n (contents r) (omega (arith, length-contents r)),
  (commit_open_read r m s v idle fresh moved).0 ∙ omega (arith, length-contents r),
)
  where
    m : ℕ
    m = min n (readable r)

    s : Ring
    s = (copy_read (freeze_read r) n).2

    done :
        ((copy_read (freeze_read r) n).0 ≡ min n (readable (freeze_read r)))
        × ((copy_read (freeze_read r) n).1 ≡ take n (contents (freeze_read r)))
        × Advanced (freeze_read r) (min n (readable (freeze_read r))) s
    done = copy_read_lem (freeze_read r) n (freeze_read-IsValid v) (unfold freeze_read in idle) word

    moved : Advanced (freeze_read r) m s
    moved = unfold freeze_read in done.2
