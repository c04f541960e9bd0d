-- ===== src/Rtmp/Assembler/Pieces.antt =====
-- src/rtmp/rtmp_chunk_assembler.c: the pieces of a message are passed on as a whole.
use lib_open_rtmp.Base.{
  ℕ, zero, suc, ◌+◌, ◌^◌, ◌≤◌, ◌<◌, ◌≡◌, ◌≢◌, refl, sym, ap, ◌∙◌, subst, false, Option, none, some,
  List, [], ◌∷◌, ◌++◌, arith, add64, sub64, ltb, ◌==◌, ◌&&◌, if◌then◌else◌, length, drop,
  le→not_ltb, ne→not_==, length-append, length-drop, get_elem?, append_assoc,
}
use lib_open_rtmp.Util.Ringbuffer.{Ring, clear, count, get_read_buf}
use lib_open_rtmp.Rtmp.Message.{Message}
use lib_open_rtmp.Rtmp.Conn.{
  Callback, Call, chunk, CbStatus, cb_continue, cb_error, cb_defer_pause, cb_abort,
}
use lib_open_rtmp.Rtmp.Assembler.{
  AsmBuf, Assembler, owned, find_buffer, alter, get_buffer, rm_buffer, deliver, is_continue,
  set_ring, pass_rest, end_flush, flush, assemble, assembler_cb,
}
use lib_open_rtmp.Rtmp.Assembler.Whole.{holding, read_buf_lem, copy_write-holding, block_lem}

abbrev with_ring : Ring → AsmBuf → AsmBuf
with_ring r b = record b { buffer = r }

find_buffer-alter :
    (k : ℕ) (r : Ring) (bs : List AsmBuf) (i free chunk_id msg_id : ℕ)
    → find_buffer (alter k (with_ring r) bs) i free chunk_id msg_id
      ≡ find_buffer bs i free chunk_id msg_id
unfolding find_buffer alter
find_buffer-alter k r [] i free chunk_id msg_id = refl
find_buffer-alter zero r (b ∷ bs) i free chunk_id msg_id = refl
find_buffer-alter (suc k) r (b ∷ bs) i free chunk_id msg_id =
    ap (λ rest. if b.chunk_id == chunk_id && b.msg_id == msg_id then owned i else rest)
      (find_buffer-alter k r bs (suc i) (if free == 0 && b.chunk_id == 0 then i else free) chunk_id
        msg_id)

pub get_elem?-alter :
    (k : ℕ) (f : AsmBuf → AsmBuf) (bs : List AsmBuf) (b : AsmBuf)
    → get_elem? bs k ≡ some b
    → get_elem? (alter k f bs) k ≡ some (f b)
unfolding alter
get_elem?-alter k f [] b e = absurd (ground (arith, e))
get_elem?-alter zero f (c ∷ bs) b e = ap (λ o. map_option f o) e
  where
    map_option : (AsmBuf → AsmBuf) → Option AsmBuf → Option AsmBuf
    map_option g none = none
    map_option g (some x) = some (g x)
get_elem?-alter (suc k) f (c ∷ bs) b e = get_elem?-alter k f bs b e

-- A buffer of the message holds the bytes that have arrived, and has room for the spare ones.
pub record Gathers (msg : Message) (self : Assembler) (i size : ℕ) (held spare : List ℕ)
    : Type 0 where
  pub found : find_buffer self.buffers 0 0 msg.chunk_stream_id msg.message_stream_id ≡ owned i
  pub stored :
      get_elem? self.buffers i
      ≡ some (record {
        chunk_id = msg.chunk_stream_id;
        msg_id = msg.message_stream_id;
        buffer = holding held spare size;
      })
  pub whole : size ≡ length held + length spare
  pub small : size < 2 ^ 62

-- The pieces in front of the last one.
unfoldable pub total : List (List ℕ) → ℕ
total [] = 0
total (p ∷ ps) = length p + total ps

unfoldable pub joined : List (List ℕ) → List ℕ → List ℕ
joined [] last = last
joined (p ∷ ps) last = p ++ joined ps last

unfoldable pub AllFilled : List (List ℕ) → Type 0
AllFilled [] = Unit
AllFilled (p ∷ ps) = (0 < length p) × AllFilled ps

le_itself : (n : ℕ) → n ≤ n
le_itself n = omega arith

nonzero : {n : ℕ} → 0 < n → n ≢ 0
nonzero h = omega arith

count-holding :
    (held spare : List ℕ) (size : ℕ)
    → length held < 2 ^ 62
    → count (holding held spare size) ≡ length held
unfolding count
count-holding held spare size h = omega arith

module _ (callback : Callback) (msg : Message) (fresh : Option (List ℕ)) where
  -- The pieces arrive, each with the number of bytes that remain, until the callback stops them.
  unfoldable pub arrive : List (List ℕ) → List ℕ → Assembler → CbStatus × Assembler
  unfolding total assembler_cb
  arrive [] last self = assembler_cb callback msg fresh last 0 self
  arrive (p ∷ ps) last self =
      let (ret, after) = assembler_cb callback msg fresh p (total ps + length last) self in
      let rest = arrive ps last after in if is_continue ret then rest else (ret, after)

  -- The callback was called once, with all the bytes and none that remain, and its answer returned.
  unfoldable pub Delivered : List ℕ → List Call → CbStatus × Assembler → Type 0
  Delivered whole calls (ret, after) =
      (ret ≡ callback (chunk whole 0 msg ∷ calls)) × (after.calls ≡ chunk whole 0 msg ∷ calls)

  pub got :
      {self : Assembler} {i : ℕ}
      → find_buffer self.buffers 0 0 msg.chunk_stream_id msg.message_stream_id ≡ owned i
      → get_buffer fresh self msg.chunk_stream_id msg.message_stream_id ≡ (some i, self)
  unfolding get_buffer
  got e = rw (get_buffer, e) refl

  by_owner :
      (self : Assembler) (i size : ℕ) (held spare p : List ℕ) (remaining : ℕ)
      → Gathers msg self i size held spare
      → assembler_cb callback msg fresh p remaining self
        ≡ assemble callback msg i p remaining
            (some (record {
              chunk_id = msg.chunk_stream_id;
              msg_id = msg.message_stream_id;
              buffer = holding held spare size;
            }))
            self
  unfolding assembler_cb
  by_owner self i size held spare p remaining g =
      rw
        (
          assembler_cb,
          ap (λ b. b.0) (got {self = self} g.found),
          ap (λ b. b.1) (got {self = self} g.found),
          g.stored,
        )
        refl

  piece_lem :
      (self : Assembler) (i size : ℕ) (held spare p : List ℕ) (remaining : ℕ)
      → Gathers msg self i size held spare
      → 0 < length p
      → length p ≤ length spare
      → 0 < remaining
      → assembler_cb callback msg fresh p remaining self
        ≡ (cb_continue, set_ring i (holding (held ++ p) (drop (length p) spare) size) self)
  unfolding assemble
  piece_lem self i size held spare p remaining g filled fits more =
      by_owner self i size held spare p remaining g
      ∙ rw
          (
            copy_write-holding held spare p size g.whole filled fits g.small,
            le→not_ltb (le_itself (length p)),
            ne→not_== (nonzero more),
          )
          refl

  piece-Gathers :
      (self : Assembler) (i size : ℕ) (held spare p : List ℕ)
      → Gathers msg self i size held spare
      → length p ≤ length spare
      → Gathers msg
          (set_ring i (holding (held ++ p) (drop (length p) spare) size) self)
          i
          size
          (held ++ p)
          (drop (length p) spare)
  unfolding set_ring
  piece-Gathers self i size held spare p g fits = record {
    found =
        find_buffer-alter i (holding (held ++ p) (drop (length p) spare) size) self.buffers 0 0
          msg.chunk_stream_id msg.message_stream_id
        ∙ g.found;
    stored =
        get_elem?-alter i (with_ring (holding (held ++ p) (drop (length p) spare) size))
          self.buffers _ g.stored;
    whole = omega (arith, g.whole, length-append held p, length-drop (length p) spare);
    small = g.small;
  }

  end_flush_lem :
      (i : ℕ) (p : List ℕ) (end : CbStatus × Assembler)
      → ((end_flush callback msg i p (length p) 0 end).0 ≡ end.0)
        × ((end_flush callback msg i p (length p) 0 end).1.calls ≡ end.1.calls)
  unfolding end_flush rm_buffer
  end_flush_lem i p (cb_continue, self) = rw (le→not_ltb (le_itself (length p))) (refl, refl)
  end_flush_lem i p (cb_error, self) = (refl, refl)
  end_flush_lem i p (cb_defer_pause, self) = (refl, refl)
  end_flush_lem i p (cb_abort, self) = (refl, refl)

  pass_rest_none :
      (copied : ℕ) (ring : Ring) (end : CbStatus × Assembler)
      → ltb (get_read_buf ring).1 (add64 0 copied) ≡ false
      → pass_rest callback msg 0 copied 0 ring end ≡ end
  unfolding pass_rest
  pass_rest_none copied ring (cb_continue, self) e = rw e refl
  pass_rest_none copied ring (cb_error, self) e = refl
  pass_rest_none copied ring (cb_defer_pause, self) e = refl
  pass_rest_none copied ring (cb_abort, self) e = refl

  flush_lem :
      (i original size : ℕ) (bytes spare p : List ℕ) (self : Assembler)
      → size ≡ length bytes + length spare
      → 0 < size
      → size < 2 ^ 62
      → original + length p ≡ length bytes
      → Delivered bytes self.calls
          (flush callback msg i p 0 original (length p) (holding bytes spare size) self)
  unfolding flush Delivered deliver set_ring
  flush_lem i original size bytes spare p self e room small sum =
      rw
        (
          read_buf_lem bytes spare size e room small,
          block_lem bytes spare size e room small,
          none_held,
          none_left,
          pass_rest_none (length p) (holding bytes spare size) (deliver callback bytes 0 msg self)
              passed,
        )
        (let (r, c) = end_flush_lem i p (
          callback (chunk bytes 0 msg ∷ self.calls),
          set_ring i (clear (holding bytes spare size)) (deliver callback bytes 0 msg self).1,
        ) in
          (r, c))
    where
      none_held : sub64 (add64 original (length p)) (length bytes) ≡ 0
      none_held = omega (arith, e, sum)

      none_left : sub64 (add64 0 (length p)) (length p) ≡ 0
      none_left = omega (arith, e, sum)

      passed : ltb (get_read_buf (holding bytes spare size)).1 (add64 0 (length p)) ≡ false
      passed =
          ap (λ b. ltb b.1 (add64 0 (length p))) (read_buf_lem bytes spare size e room small)
          ∙ le→not_ltb (omega (arith, e, sum))

  last_lem :
      (self : Assembler) (i size : ℕ) (held spare p : List ℕ)
      → Gathers msg self i size held spare
      → 0 < length p
      → length p ≤ length spare
      → Delivered (held ++ p) self.calls (assembler_cb callback msg fresh p 0 self)
  unfolding assemble set_ring
  last_lem self i size held spare p g filled fits =
      subst (Delivered (held ++ p) self.calls)
        (sym (by_owner self i size held spare p 0 g ∙ flushed))
        (flush_lem i (count (holding held spare size)) size (held ++ p) (drop (length p) spare) p
          (set_ring i (holding (held ++ p) (drop (length p) spare) size) self)
          (omega (arith, g.whole, length-append held p, length-drop (length p) spare))
          (omega (arith, g.whole)) g.small
          (omega (arith, g.whole, counted, g.small, length-append held p)))
    where
      counted : count (holding held spare size) ≡ length held
      counted = count-holding held spare size (omega (arith, g.whole, g.small))

      flushed :
          assemble callback msg i p 0
            (some (record {
              chunk_id = msg.chunk_stream_id;
              msg_id = msg.message_stream_id;
              buffer = holding held spare size;
            }))
            self
          ≡ flush callback msg i p 0
              (count (holding held spare size))
              (length p)
              (holding (held ++ p) (drop (length p) spare) size)
              (set_ring i (holding (held ++ p) (drop (length p) spare) size) self)
      flushed =
          rw
            (
              copy_write-holding held spare p size g.whole filled fits g.small,
              le→not_ltb (le_itself (length p)),
              ne→not_== (nonzero filled),
            )
            refl

  -- The pieces of a message that fit its buffer are passed on in one call, as a whole.
  pub arrive-Delivered :
      (ps : List (List ℕ)) (last : List ℕ) (self : Assembler) (i size : ℕ) (held spare : List ℕ)
      → Gathers msg self i size held spare
      → AllFilled ps
      → 0 < length last
      → total ps + length last ≤ length spare
      → Delivered (held ++ joined ps last) self.calls (arrive ps last self)
  unfolding arrive joined AllFilled total set_ring
  arrive-Delivered [] last self i size held spare g filled more fits =
      last_lem self i size held spare last g more (omega (arith, fits))
  arrive-Delivered (p ∷ ps) last self i size held spare g filled more fits =
      rw
        (piece_lem self i size held spare p (total ps + length last) g filled.0 (omega arith)
          (omega arith))
        (subst (λ whole. Delivered whole self.calls (arrive ps last self'))
          (append_assoc held p (joined ps last))
          (arrive-Delivered ps last self' i size (held ++ p) (drop (length p) spare)
            (piece-Gathers self i size held spare p g (omega arith)) filled.1 more
            (omega (arith, length-drop (length p) spare))))
    where
      self' : Assembler
      self' = set_ring i (holding (held ++ p) (drop (length p) spare) size) self
