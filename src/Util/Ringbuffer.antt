-- ===== src/Util/Ringbuffer.antt =====
-- src/util/ringbuffer.c: a byte ring whose reads and writes can be held back ("frozen") and then
-- committed or rolled back. A function that changes `*buffer` returns the new ring.
pub mod Inv
pub mod Freeze
pub mod Read
pub mod Take
pub mod Resize
pub mod Write
pub mod Place
use lib_open_rtmp.Base.{
  ℕ, ◌%◌, Bool, true, false, List, [], ◌++◌, add64, sub64, ltb, leb, ◌==◌, if◌then◌else◌, length,
  take, drop, blit, slice,
}

-- `struct ringbuffer`. The two bits of `frozen` are the two flags; `mem` is the block at `data`.
pub record Ring : Type 0 where
  pub mem : List ℕ
  pub read_offset : ℕ
  pub write_offset : ℕ
  pub read_frozen : Bool
  pub write_frozen : Bool
  pub start : ℕ
  pub len : ℕ
  pub size : ℕ

-- `mem` is the block that `malloc(size)` gives, its bytes unspecified.
unfoldable pub create : List ℕ → ℕ → Ring
create mem size = record {
  mem = mem;
  read_offset = 0;
  write_offset = 0;
  read_frozen = false;
  write_frozen = false;
  start = 0;
  len = 0;
  size = size;
}

unfoldable pub clear : Ring → Ring
clear r = record r {
  start = 0;
  len = 0;
  read_offset = 0;
  write_offset = 0;
  read_frozen = false;
  write_frozen = false;
}

-- The index of the first byte to write, and how many bytes follow it.
unfoldable pub get_write_buf : Ring → ℕ × ℕ
get_write_buf r =
    let offset = add64 (add64 r.start r.len) r.write_offset % r.size in
    let len = sub64 (sub64 r.size r.len) r.write_offset in
    (offset, if ltb (add64 offset len) r.size then len else sub64 r.size offset)

-- The index of the first byte to read, and how many bytes follow it.
unfoldable pub get_read_buf : Ring → ℕ × ℕ
get_read_buf r =
    let offset = add64 r.start r.read_offset % r.size in
    let len = sub64 (add64 r.len r.write_offset) r.read_offset in
    (offset, if ltb (add64 offset len) r.size then len else sub64 r.size offset)

-- The amount committed, and the ring.
unfoldable pub commit_write : Ring → ℕ → ℕ × Ring
commit_write r n =
    if r.write_frozen
    then (let moved =
          if ltb r.size (add64 (add64 n r.len) r.write_offset)
          then sub64 r.size r.len
          else add64 r.write_offset n in
        (sub64 moved r.write_offset, record r { write_offset = moved }))
    else (let grown = if ltb r.size (add64 n r.len) then r.size else add64 r.len n in
        (sub64 grown r.len, record r { len = grown }))

-- How much of `n` can be committed as read.
unfoldable pub clamp_read : Ring → ℕ → ℕ
clamp_read r n =
    if ltb (add64 r.len r.write_offset) (add64 n r.read_offset)
    then sub64 (add64 r.len r.write_offset) r.read_offset
    else n

unfoldable pub advance_read : Ring → ℕ → Ring
advance_read r n =
    if r.read_frozen
    then record r { read_offset = add64 r.read_offset n }
    else record r { start = add64 r.start n % r.size; len = sub64 r.len n }

unfoldable pub clear_if_empty : Ring → Ring
unfolding clear
clear_if_empty r = if r.len == 0 then clear r else r

unfoldable pub commit_read : Ring → ℕ → ℕ × Ring
unfolding clamp_read advance_read clear_if_empty
commit_read r n = (clamp_read r n, clear_if_empty (advance_read r (clamp_read r n)))

unfoldable pub count : Ring → ℕ
count r = sub64 (add64 r.len r.write_offset) r.read_offset

unfoldable pub freeze_read : Ring → Ring
freeze_read r = record r { read_frozen = true }

unfoldable pub unfreeze_read : Ring → Bool → ℕ × Ring
unfreeze_read r commit =
    let thawed = record r { read_frozen = false; read_offset = 0 } in
    if commit then (r.read_offset, (commit_read thawed r.read_offset).1) else (0, thawed)

unfoldable pub freeze_write : Ring → Ring
freeze_write r = record r { write_frozen = true }

unfoldable pub unfreeze_write : Ring → Bool → ℕ × Ring
unfreeze_write r commit =
    let thawed = record r { write_frozen = false } in
    if commit
    then (let (total, done) = commit_write thawed r.write_offset in
        (total, record done { write_offset = 0 }))
    else (0, record thawed { write_offset = 0 })

-- The `n` bytes at the read position, which are then committed as read.
unfoldable pub fetch : Ring → ℕ → List ℕ × Ring
fetch r n = (slice r.mem (get_read_buf r).0 n, (commit_read r n).1)

-- The branch of `copy_read` in which the first block holds fewer bytes than were asked for.
unfoldable pub copy_read_round : Ring → ℕ → ℕ → ℕ × List ℕ × Ring
copy_read_round r n room =
    let (first, once) = fetch r room in
    let room' = (get_read_buf once).1 in
    let rest = sub64 n room in
    let more = if ltb room' rest then room' else rest in
    let (second, twice) = fetch once more in (add64 room more, first ++ second, twice)

-- The number of bytes copied, the bytes stored at `dst`, and the ring.
unfoldable pub copy_read : Ring → ℕ → ℕ × List ℕ × Ring
copy_read r n =
    if leb n (get_read_buf r).1
    then (let (bytes, r') = fetch r n in (n, bytes, r'))
    else copy_read_round r n (get_read_buf r).1

-- Stores `bs` at the write position and commits them.
unfoldable pub put : Ring → List ℕ → Ring
put r bs = (commit_write (record r { mem = blit r.mem (get_write_buf r).0 bs }) (length bs)).1

-- The branch of `copy_write` in which the source does not fit the first block: fill that block,
-- then write what fits the next.
unfoldable pub copy_write_round : Ring → List ℕ → ℕ → ℕ × Ring
copy_write_round r src room =
    let once = put r (take room src) in
    let room' = (get_write_buf once).1 in
    let rest = sub64 (length src) room in
    let more = if ltb room' rest then room' else rest in
    (add64 room more, put once (take more (drop room src)))

-- `src` holds the `length` bytes of the call. The number of bytes written, and the ring.
unfoldable pub copy_write : Ring → List ℕ → ℕ × Ring
copy_write r src =
    if leb (length src) (get_write_buf r).1
    then (length src, put r src)
    else copy_write_round r src (get_write_buf r).1

-- `realloc`: the old bytes, then unspecified ones, the `fresh`.
unfoldable pub realloc : List ℕ → List ℕ → ℕ → List ℕ
realloc mem fresh n = take n (mem ++ fresh)

unfoldable pub memmove : List ℕ → ℕ → ℕ → ℕ → List ℕ
memmove mem dst src n = blit mem dst (slice mem src n)

-- The branch of `resize` that enlarges the block.
unfoldable pub grow : Ring → List ℕ → ℕ → Ring
grow r fresh amount =
    let mem = realloc r.mem fresh amount in
    let offset = add64 (add64 r.len r.start) r.write_offset in
    let overlap = offset % r.size in
    let wanted = sub64 amount r.size in
    let new_space = if ltb overlap wanted then overlap else wanted in
    let moved = memmove mem r.size 0 new_space in
    let shifted = memmove moved 0 new_space (sub64 overlap new_space) in
    record r { mem = if ltb r.size offset then shifted else mem; size = amount }

-- The branch that makes the block smaller.
unfoldable pub cut : Ring → ℕ → Ring
cut r amount =
    let used = add64 r.len r.write_offset in
    let kept = (commit_read r (if ltb amount used then sub64 used amount else 0)).1 in
    let offset = add64 (add64 kept.len kept.start) kept.write_offset in
    let overlap = offset % kept.size in
    let tail =
      if ltb kept.size offset
      then memmove kept.mem (sub64 (add64 kept.len kept.write_offset) overlap) 0 overlap
      else kept.mem in
    let front = memmove tail 0 kept.start (sub64 kept.size kept.start) in
    record kept { mem = realloc front [] amount; size = amount }

unfoldable pub resize : Ring → List ℕ → ℕ → Ring
resize r fresh amount =
    if ltb r.size amount
    then grow r fresh amount
    else if ltb amount r.size
    then cut r amount
    else record r { size = amount }

unfoldable pub expand : Ring → List ℕ → ℕ → Ring
expand r fresh amount = resize r fresh (add64 r.size amount)

unfoldable pub shrink : Ring → ℕ → Ring
shrink r amount =
    let less = if ltb r.size amount then r.size else amount in resize r [] (sub64 r.size less)
