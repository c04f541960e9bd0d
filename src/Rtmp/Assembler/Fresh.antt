-- ===== src/Rtmp/Assembler/Fresh.antt =====
-- src/rtmp/rtmp_chunk_assembler.c: a message that is new to the assembler.
use lib_open_rtmp.Base.{
  ℕ, Option, ◌+◌, ◌^◌, ◌≤◌, ◌<◌, ◌≡◌, refl, sym, ap, ◌∙◌, subst, some, List, [], ◌∷◌, arith, length,
  get_elem?,
}
use lib_open_rtmp.Rtmp.Message.{Message}
use lib_open_rtmp.Rtmp.Conn.{Callback}
use lib_open_rtmp.Rtmp.Assembler.{Assembler, get_buffer, assemble, assembler_cb}
use lib_open_rtmp.Rtmp.Assembler.Pieces.{
  total, joined, AllFilled, arrive, Delivered, got, arrive-Delivered,
}
use lib_open_rtmp.Rtmp.Assembler.Begin.{Begins, Begun, begin}

module _ (callback : Callback) (msg : Message) (fresh : Option (List ℕ)) (self : Assembler)
    (size : ℕ) where
  by_buffer :
      (t : Assembler) (n : ℕ) (p : List ℕ) (remaining : ℕ) (s : Assembler)
      → get_buffer fresh s msg.chunk_stream_id msg.message_stream_id ≡ (some n, t)
      → assembler_cb callback msg fresh p remaining s
        ≡ assemble callback msg n p remaining (get_elem? t.buffers n) t
  unfolding assembler_cb
  by_buffer t n p remaining s e = rw (assembler_cb, ap (λ b. b.0) e, ap (λ b. b.1) e) refl

  same_step :
      (p : List ℕ) (remaining : ℕ) (b : Begun fresh msg self size)
      → assembler_cb callback msg fresh p remaining self
        ≡ assembler_cb callback msg fresh p remaining b.after
  same_step p remaining b =
      by_buffer b.after b.index p remaining self b.taken
      ∙ sym (by_buffer b.after b.index p remaining b.after (got callback msg fresh b.gathers.found))

  same_arrival :
      (ps : List (List ℕ)) (last : List ℕ) (b : Begun fresh msg self size)
      → arrive callback msg fresh ps last self ≡ arrive callback msg fresh ps last b.after
  unfolding arrive
  same_arrival [] last b = same_step last 0 b
  same_arrival (p ∷ ps) last b = rw (same_step p (total ps + length last) b) refl

  -- The pieces of a message that has no buffer yet and gets one, a new one or a free one, are passed
  -- on in one call, as a whole, when the pieces and the last one are not empty and together fit the
  -- buffer, which is smaller than 2 ^ 62 bytes; the answer of that call is returned.
  pub assembler_cb-Delivered :
      (ps : List (List ℕ)) (last : List ℕ)
      → Begins fresh msg self size
      → size < 2 ^ 62
      → AllFilled ps
      → 0 < length last
      → total ps + length last ≤ size
      → Delivered callback msg fresh
          (joined ps last)
          self.calls
          (arrive callback msg fresh ps last self)
  assembler_cb-Delivered ps last begins small filled more fits =
      let b = begin fresh msg self size begins small in
      subst
        (λ calls.
          Delivered callback msg fresh (joined ps last) calls
            (arrive callback msg fresh ps last self))
        b.calls
        (subst (Delivered callback msg fresh (joined ps last) b.after.calls)
          (sym (same_arrival ps last b))
          (arrive-Delivered callback msg fresh ps last b.after b.index size [] b.spare b.gathers
            filled more (omega (arith, b.room, fits))))
