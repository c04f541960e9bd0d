-- ===== src/Tests/Rings.antt =====
-- src/util/ringbuffer.c on a ring of eight bytes whose contents go round its end.
use lib_open_rtmp.Base.{
  ℕ, min, ◌≡◌, refl, true, false, List, [], ◌∷◌, ◌++◌, arith, length, take, drop,
}
use lib_open_rtmp.Util.Ringbuffer.{
  Ring, copy_write, get_write_buf, put, commit_write, copy_read, freeze_write, freeze_read,
  unfreeze_write, unfreeze_read, resize,
}
use lib_open_rtmp.Util.Ringbuffer.Inv.{IsValid, contents, readable, free_space}
use lib_open_rtmp.Util.Ringbuffer.Write.{Appended, copy_write_lem}
use lib_open_rtmp.Util.Ringbuffer.Read.{copy_read_lem}
use lib_open_rtmp.Util.Ringbuffer.Take.{Advanced}
use lib_open_rtmp.Util.Ringbuffer.Freeze.{write_transaction, read_transaction}
use lib_open_rtmp.Util.Ringbuffer.Resize.{resize_larger}

-- The bytes 7, 8 and 9 are held, 9 at the start of the block.
abbrev ring : Ring
ring = record {
  mem = 9 ∷ 0 ∷ 0 ∷ 0 ∷ 0 ∷ 0 ∷ 7 ∷ 8 ∷ [];
  read_offset = 0;
  write_offset = 0;
  read_frozen = false;
  write_frozen = false;
  start = 6;
  len = 3;
  size = 8;
}

ring-IsValid : IsValid ring
ring-IsValid = record {
  storage = refl;
  pos = omega arith;
  small = omega arith;
  start_in = omega arith;
  fits = omega arith;
  read_in = omega arith;
  read_idle = λ e. refl;
  write_idle = λ e. refl;
}

abbrev four_bytes : List ℕ
four_bytes = 1 ∷ 2 ∷ 3 ∷ 4 ∷ []

ring_holds : contents ring ≡ 7 ∷ 8 ∷ 9 ∷ []
ring_holds = refl

written : contents (copy_write ring four_bytes).1 ≡ 7 ∷ 8 ∷ 9 ∷ 1 ∷ 2 ∷ 3 ∷ 4 ∷ []
unfolding copy_write get_write_buf put commit_write
written = refl

copy_write_lem_example :
    ((copy_write ring four_bytes).0 ≡ min (length four_bytes) (free_space ring))
    × Appended ring (take (free_space ring) four_bytes) (copy_write ring four_bytes).1
copy_write_lem_example = copy_write_lem ring four_bytes ring-IsValid (omega arith)

copy_read_lem_example :
    ((copy_read ring 2).0 ≡ min 2 (readable ring))
    × ((copy_read ring 2).1 ≡ take 2 (contents ring))
    × Advanced ring (min 2 (readable ring)) (copy_read ring 2).2
copy_read_lem_example = copy_read_lem ring 2 ring-IsValid refl (omega arith)

write_transaction_example :
    let s = (copy_write (freeze_write ring) four_bytes).1 in
    (contents (unfreeze_write s false).1 ≡ contents ring)
    × (contents (unfreeze_write s true).1 ≡ contents ring ++ take (free_space ring) four_bytes)
    × ((unfreeze_write s true).0 ≡ min (free_space ring) (length four_bytes))
write_transaction_example = write_transaction ring four_bytes ring-IsValid refl (omega arith)

read_transaction_example :
    let (_, bytes, s) = copy_read (freeze_read ring) 2 in
    (bytes ≡ take 2 (contents ring))
    × (contents (unfreeze_read s false).1 ≡ contents ring)
    × (contents (unfreeze_read s true).1 ≡ drop 2 (contents ring))
    × ((unfreeze_read s true).0 ≡ min 2 (length (contents ring)))
read_transaction_example = read_transaction ring 2 ring-IsValid refl refl (omega arith)

resize_larger_example :
    IsValid (resize ring four_bytes 12)
    × (contents (resize ring four_bytes 12) ≡ contents ring)
    × ((resize ring four_bytes 12).size ≡ 12)
resize_larger_example =
    resize_larger ring four_bytes 12 ring-IsValid (omega arith) (omega arith) (omega arith)
