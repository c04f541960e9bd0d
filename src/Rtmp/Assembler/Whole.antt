-- ===== src/Rtmp/Assembler/Whole.antt =====
-- src/rtmp/rtmp_chunk_assembler.c: a message that arrives in pieces.
use native.Mathlib.Nat.{mod-eq_of_lt}
use lib_open_rtmp.Base.{
  ℕ, ◌+◌, ◌%◌, ◌^◌, ◌≤◌, ◌<◌, ◌≡◌, ◌⊎◌, refl, sym, ap, ap₂, ◌∙◌, inl, inr, false, List, ◌++◌, arith,
  add64, sub64, ltb, if◌then◌else◌, length, drop, slice, blit_behind, le→leb, length-append,
  take-append_front,
}
use lib_open_rtmp.Util.Ringbuffer.{Ring, copy_write, get_read_buf, get_write_buf, commit_write, put}
use lib_open_rtmp.Rtmp.Assembler.{block}

-- The ring of a buffer that holds some bytes and has room for as many as are spare.
abbrev pub holding : (held spare : List ℕ) → ℕ → Ring
holding held spare size = record {
  mem = held ++ spare;
  read_offset = 0;
  write_offset = 0;
  read_frozen = false;
  write_frozen = false;
  start = 0;
  len = length held;
  size = size;
}

-- The block at an offset, cut off at the end of the memory.
abbrev cut_off : ℕ → ℕ → ℕ → ℕ × ℕ
cut_off size offset n = (offset, if ltb (add64 offset n) size then n else sub64 size offset)

cut_off_lem :
    (size offset n : ℕ)
    → offset + n ≤ size
    → size < 2 ^ 62
    → (offset + n ≡ size) ⊎ (offset ≡ 0)
    → cut_off size offset n ≡ (offset, n)
cut_off_lem size offset n fits small (inl e) = ap (λ (k : ℕ). (offset, k)) (ground arith)
cut_off_lem size offset n fits small (inr e) = ap (λ (k : ℕ). (offset, k)) (ground arith)

pub write_buf_lem :
    (held spare : List ℕ) (size : ℕ)
    → size ≡ length held + length spare
    → 0 < length spare
    → size < 2 ^ 62
    → get_write_buf (holding held spare size) ≡ (length held, length spare)
unfolding get_write_buf
write_buf_lem held spare size e room small =
    ap₂ (cut_off size) offset spared
    ∙ cut_off_lem size (length held) (length spare) (omega (arith, e)) small (inl (sym e))
  where
    offset : add64 (add64 0 (length held)) 0 % size ≡ length held
    offset =
        ap (λ (k : ℕ). k % size) {x = add64 (add64 0 (length held)) 0} {y = length held}
          (omega (arith, e))
        ∙ mod-eq_of_lt {n = length held} {m = size} (omega (arith, e))

    spared : sub64 (sub64 size (length held)) 0 ≡ length spare
    spared = omega (arith, e)

pub read_buf_lem :
    (held spare : List ℕ) (size : ℕ)
    → size ≡ length held + length spare
    → 0 < size
    → size < 2 ^ 62
    → get_read_buf (holding held spare size) ≡ (0, length held)
unfolding get_read_buf
read_buf_lem held spare size e room small =
    ap₂ (cut_off size) (mod-eq_of_lt {n = 0} {m = size} room) kept
    ∙ cut_off_lem size 0 (length held) (omega (arith, e)) small (inr refl)
  where
    kept : sub64 (add64 (length held) 0) 0 ≡ length held
    kept = omega (arith, e)

-- Bytes that fit are stored behind the ones that are there.
pub copy_write-holding :
    (held spare src : List ℕ) (size : ℕ)
    → size ≡ length held + length spare
    → 0 < length src
    → length src ≤ length spare
    → size < 2 ^ 62
    → copy_write (holding held spare size) src
      ≡ (length src, holding (held ++ src) (drop (length src) spare) size)
unfolding copy_write put commit_write
copy_write-holding held spare src size e some_bytes fits small =
    rw
      (
        write_buf_lem held spare size e (omega arith) small,
        le→leb fits,
        blit_behind held spare src fits,
      )
      (ap (λ r. (length src, r)) stored)
  where
    grown :
        (if ltb size (add64 (length src) (length held))
          then size
          else add64 (length held) (length src))
        ≡ length (held ++ src)
    grown = ground (arith, e, length-append held src)

    stored :
        record (holding held spare size) {
          mem = (held ++ src) ++ drop (length src) spare;
          len =
              if ltb size (add64 (length src) (length held))
              then size
              else add64 (length held) (length src);
        }
        ≡ holding (held ++ src) (drop (length src) spare) size
    stored =
        ap
          (λ (n : ℕ). record (holding held spare size) {
            mem = (held ++ src) ++ drop (length src) spare;
            len = n;
          })
          grown

pub block_lem :
    (held spare : List ℕ) (size : ℕ)
    → size ≡ length held + length spare
    → 0 < size
    → size < 2 ^ 62
    → block (holding held spare size) ≡ held
unfolding block get_read_buf
block_lem held spare size e room small =
    ap (λ b. slice (held ++ spare) b.0 b.1) (read_buf_lem held spare size e room small)
    ∙ take-append_front (length held) held spare refl
