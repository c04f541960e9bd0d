-- ===== src/Rtmp/Assembler/Bounds.antt =====
-- src/rtmp/rtmp_chunk_assembler.c: how many buffers there can be.
use lib_open_rtmp.Base.{
  ℕ, zero, suc, ◌≤◌, ◌≡◌, refl, ap, inl, inr, ◌⊎◌, Bool, true, false, Option, none, some, List, [],
  ◌∷◌, arith, ltb, ◌==◌, ◌&&◌, ◌||◌, if◌then◌else◌, length, drop, Bool-cases, not_ltb→le,
  length-append, add64, sub64,
}
use lib_open_rtmp.Util.Ringbuffer.{Ring, create, clear, count, copy_write, get_read_buf}
use lib_open_rtmp.Rtmp.Message.{Message}
use lib_open_rtmp.Rtmp.Conn.{Callback, CbStatus, cb_continue, cb_error, cb_defer_pause, cb_abort}
use lib_open_rtmp.Rtmp.Assembler.{
  AsmBuf, Assembler, Search, owned, unused, find_buffer, alter, get_buffer, erase, rm_buffer,
  deliver, is_continue, set_ring, block, pass_rest, end_flush, flush, assemble, assembler_cb,
  max_hard_buffer, max_soft_buffer, release, claim,
}

pub length-alter :
    (i : ℕ) (f : AsmBuf → AsmBuf) (bs : List AsmBuf) → length (alter i f bs) ≡ length bs
unfolding alter
length-alter i f [] = refl
length-alter zero f (b ∷ bs) = refl
length-alter (suc i) f (b ∷ bs) = ap (λ (n : ℕ). suc n) (length-alter i f bs)

length-erase : (i : ℕ) (bs : List AsmBuf) → length (erase i bs) ≤ length bs
unfolding erase
length-erase i [] = omega arith
length-erase zero (b ∷ bs) = omega arith
length-erase (suc i) (b ∷ bs) = omega (arith, length-erase i bs)

-- No more buffers than before.
unfoldable AtMost : ℕ → Assembler → Type 0
AtMost n self = length self.buffers ≤ n

rm_buffer-AtMost : (n i : ℕ) (self : Assembler) → AtMost n self → AtMost n (rm_buffer self i)
unfolding rm_buffer AtMost
rm_buffer-AtMost n i self h = elim (Bool-cases (ltb max_soft_buffer (length self.buffers))) [
  | inl e ↦ rw e (omega (arith, length-erase i self.buffers, h))
  | inr e ↦ rw e (omega (arith, length-alter i release self.buffers, h))
]

module _ (callback : Callback) (msg : Message) (n : ℕ) where
  pass_rest-AtMost :
      (held copied left : ℕ) (ring : Ring) (end : CbStatus × Assembler)
      → AtMost n end.1
      → AtMost n (pass_rest callback msg held copied left ring end).1
  unfolding pass_rest AtMost deliver
  pass_rest-AtMost held copied left ring (ret, self) h =
      elim (Bool-cases (is_continue ret && ltb (get_read_buf ring).1 (add64 held copied))) [
        | inl e ↦ rw e h
        | inr e ↦ rw e h
      ]

  ended-AtMost :
      (i : ℕ) (ended : Bool) (self : Assembler)
      → AtMost n self
      → AtMost n (if ended then rm_buffer self i else self)
  ended-AtMost i true self h = rm_buffer-AtMost n i self h
  ended-AtMost i false self h = h

  end_flush-AtMost :
      (i : ℕ) (contents : List ℕ) (copied remaining : ℕ) (end : CbStatus × Assembler)
      → AtMost n end.1
      → AtMost n (end_flush callback msg i contents copied remaining end).1
  unfolding end_flush AtMost deliver
  end_flush-AtMost i contents copied remaining (cb_continue, self) h =
      elim (Bool-cases (ltb copied (length contents))) [
        | inl e ↦ rw e (
            ended-AtMost i (remaining == 0)
              (deliver callback (drop copied contents) remaining msg self).1 h)
        | inr e ↦ rw e (ended-AtMost i (remaining == 0) self h)
      ]
  end_flush-AtMost i contents copied remaining (cb_error, self) h = rm_buffer-AtMost n i self h
  end_flush-AtMost i contents copied remaining (cb_defer_pause, self) h =
      rm_buffer-AtMost n i self h
  end_flush-AtMost i contents copied remaining (cb_abort, self) h = rm_buffer-AtMost n i self h

  set_ring-AtMost :
      (i : ℕ) (r : Ring) (self : Assembler) → AtMost n self → AtMost n (set_ring i r self)
  unfolding set_ring AtMost
  set_ring-AtMost i r self h =
      omega (arith, length-alter i (λ b. record b { buffer = r }) self.buffers, h)

  flush-AtMost :
      (i : ℕ) (contents : List ℕ) (remaining original copied : ℕ) (ring : Ring) (self : Assembler)
      → AtMost n self
      → AtMost n (flush callback msg i contents remaining original copied ring self).1
  unfolding flush AtMost deliver
  flush-AtMost i contents remaining original copied ring self h =
      let held = sub64 (add64 original copied) (get_read_buf ring).1 in
      let left = sub64 (add64 remaining (length contents)) copied in
      let passed =
        pass_rest callback msg held copied left ring
          (deliver callback (block ring) (add64 held left) msg self) in
      end_flush-AtMost i contents copied remaining (passed.0, set_ring i (clear ring) passed.1)
        (set_ring-AtMost i (clear ring) passed.1 (
          pass_rest-AtMost held copied left ring
            (deliver callback (block ring) (add64 held left) msg self) h))

  assemble-AtMost :
      (i : ℕ) (contents : List ℕ) (remaining : ℕ) (b : Option AsmBuf) (self : Assembler)
      → AtMost n self
      → AtMost n (assemble callback msg i contents remaining b self).1
  unfolding assemble AtMost deliver
  assemble-AtMost i contents remaining none self h = h
  assemble-AtMost i contents remaining (some b) self h =
      elim (Bool-cases (ltb (copy_write b.buffer contents).0 (length contents) || remaining == 0)) [
        | inl e ↦ rw e (elim (Bool-cases (length contents == 0)) [
          | inl z ↦ rw z (rm_buffer-AtMost n i self h)
          | inr z ↦ rw z (
              flush-AtMost i contents remaining (count b.buffer) (copy_write b.buffer contents).0
                (copy_write b.buffer contents).1 (set_ring i (copy_write b.buffer contents).1 self)
                (set_ring-AtMost i (copy_write b.buffer contents).1 self h))
        ])
        | inr e ↦ rw e (set_ring-AtMost i (copy_write b.buffer contents).1 self h)
      ]

Option-cases : {A : Type 0} → (o : Option A) → (o ≡ none) ⊎ ((a : A) × (o ≡ some a))
Option-cases none = inl refl
Option-cases (some a) = inr (a, refl)

Search-cases :
    (s : Search) → ((i : ℕ) × (s ≡ owned i)) ⊎ ((i : ℕ) × (s ≡ unused (suc i))) ⊎ (s ≡ unused zero)
Search-cases (owned i) = inl (i, refl)
Search-cases (unused (suc i)) = inr (inl (i, refl))
Search-cases (unused zero) = inr (inr refl)

get_buffer-AtMost :
    (fresh : Option (List ℕ)) (self : Assembler) (chunk_id msg_id : ℕ)
    → AtMost 21 self
    → AtMost 21 (get_buffer fresh self chunk_id msg_id).1
unfolding get_buffer AtMost
get_buffer-AtMost fresh self chunk_id msg_id h =
    elim (Search-cases (find_buffer self.buffers 0 0 chunk_id msg_id)) [
      | inl (i, e) ↦ rw (get_buffer, e) h
      | inr (inl (i, e)) ↦
          rw (get_buffer, e)
            (omega (arith, length-alter (suc i) (claim chunk_id msg_id) self.buffers, h))
      | inr (inr e) ↦
          rw (get_buffer, e)
            (elim (Option-cases fresh) [
              | inl f ↦ rw f h
              | inr (mem, f) ↦ rw f (elim (Bool-cases (ltb max_hard_buffer (length self.buffers))) [
                | inl full ↦ rw full h
                | inr free ↦ rw free (
                    omega (
                      arith,
                      length-append self.buffers (
                          (record {
                            chunk_id = chunk_id;
                            msg_id = msg_id;
                            buffer = create mem self.max_size;
                          })
                          ∷ []),
                      not_ltb→le free,
                    ))
              ])
            ])
    ]

-- An assembler that has at most 21 buffers never gets more of them, whatever arrives and whatever
-- the callback answers.
pub assembler_cb_bounds :
    (callback : Callback) (msg : Message) (fresh : Option (List ℕ)) (contents : List ℕ)
    (remaining : ℕ) (self : Assembler)
    → length self.buffers ≤ 21
    → length (assembler_cb callback msg fresh contents remaining self).1.buffers ≤ 21
unfolding assembler_cb AtMost
assembler_cb_bounds callback msg fresh contents remaining self h =
    elim (Option-cases (get_buffer fresh self msg.chunk_stream_id msg.message_stream_id).0) [
      | inl e ↦
          rw (assembler_cb, e)
            (get_buffer-AtMost fresh self msg.chunk_stream_id msg.message_stream_id h)
      | inr (i, e) ↦
          rw (assembler_cb, e)
            (assemble-AtMost callback msg 21 i contents remaining _ _
              (get_buffer-AtMost fresh self msg.chunk_stream_id msg.message_stream_id h))
    ]
