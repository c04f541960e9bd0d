-- ===== src/Rtmp/Flow/Shake.antt =====
-- src/rtmp/rtmp_chunk_flow.c: the handshake messages `c0`/`s0`, `c1`/`s1` and `c2`/`s2`.
use lib_open_rtmp.Base.{
  ℕ, ◌^◌, ◌≤◌, ◌<◌, ◌≡◌, ◌≢◌, refl, List, [], ◌∷◌, ◌++◌, arith, length, append_assoc, ne→not_==,
}
use lib_open_rtmp.Util.Memutil.{ntoh_write_ud}
use lib_open_rtmp.Util.Memutil.Laws.{ntoh_read_ud-ntoh_write_ud}
use lib_open_rtmp.Util.Ringbuffer.{Ring}
use lib_open_rtmp.Rtmp.Errors.{invalid}
use lib_open_rtmp.Rtmp.Session.{failed, M, ◌>>=◌}
use lib_open_rtmp.Rtmp.Flow.{
  write_all, read_all, emit_shake_0, emit_shake_1, emit_shake_2, read_shake_0, read_shake_1,
  read_shake_2,
}
use lib_open_rtmp.Rtmp.Flow.Wire.{
  Ready, Parses, Emits, Parses-bind, Emits-bind, Parses-pure, write_all-Emits, read_all-Parses,
}

length-ntoh_write_ud : (t : ℕ) → length (ntoh_write_ud t) ≡ 4
unfolding ntoh_write_ud
length-ntoh_write_ud t = refl

-- A number in network order, read where it stands.
read_ud :
    {A : Type 0} (f : List ℕ → M Ring A) (t : ℕ) (mid : List ℕ) (a : A) (rest : List ℕ)
    → Parses (f (ntoh_write_ud t)) mid a rest
    → Parses (read_all 4 >>= f) (ntoh_write_ud t ++ mid) a rest
read_ud f t mid a rest p =
    Parses-bind (read_all 4) f (ntoh_write_ud t ++ mid) (ntoh_write_ud t) mid a rest
      (rw length-ntoh_write_ud at
        (read_all-Parses (ntoh_write_ud t) mid (omega (arith, length-ntoh_write_ud t))))
      p

-- A version byte 3 is sent and accepted.
pub read_shake_0-emit_shake_0 :
    Emits emit_shake_0 (3 ∷ []) tt × ((rest : List ℕ) → Parses read_shake_0 (3 ∷ rest) tt rest)
unfolding emit_shake_0 read_shake_0
read_shake_0-emit_shake_0 = (
  write_all-Emits (3 ∷ []),
  λ rest.
      Parses-bind (read_all 1) _ (3 ∷ rest) (3 ∷ []) rest tt rest
        (read_all-Parses (3 ∷ []) rest (omega arith)) (Parses-pure tt rest),
)

-- Any other version is refused as invalid.
pub read_shake_0_version :
    (version : ℕ) (rest : List ℕ) (r : Ring)
    → version ≢ 3
    → Ready r (version ∷ rest)
    → (read_shake_0 r).0 ≡ failed invalid
unfolding read_shake_0
read_shake_0_version version rest r h ready =
    let (s, run, _) = read_all-Parses (version ∷ []) rest (omega arith) r ready in
    rw (run, ne→not_== h) refl

module _ (t : ℕ) (nonce : List ℕ) (word : t < 2 ^ 32) (short : length nonce ≤ 2 ^ 62) where
  -- `c1` and `s1`: the timestamp, four zero bytes and the nonce are written, and the timestamp and
  -- the nonce are read back.
  pub read_shake_1-emit_shake_1 :
      let bs = ntoh_write_ud t ++ 0 ∷ 0 ∷ 0 ∷ 0 ∷ nonce in
      Emits (emit_shake_1 t nonce) bs tt
      × ((rest : List ℕ) → Parses (read_shake_1 (length nonce)) (bs ++ rest) (t, nonce) rest)
  unfolding emit_shake_1 read_shake_1
  read_shake_1-emit_shake_1 = (
    Emits-bind (write_all (ntoh_write_ud t)) _ (ntoh_write_ud t) tt (0 ∷ 0 ∷ 0 ∷ 0 ∷ nonce) tt
        (write_all-Emits (ntoh_write_ud t))
        (Emits-bind (write_all (0 ∷ 0 ∷ 0 ∷ 0 ∷ [])) _ (0 ∷ 0 ∷ 0 ∷ 0 ∷ []) tt nonce tt
          (write_all-Emits (0 ∷ 0 ∷ 0 ∷ 0 ∷ [])) (write_all-Emits nonce)),
    λ rest. rw (append_assoc (ntoh_write_ud t) (0 ∷ 0 ∷ 0 ∷ 0 ∷ nonce) rest) (
        read_ud _ t (0 ∷ 0 ∷ 0 ∷ 0 ∷ nonce ++ rest) (t, nonce) rest
          (Parses-bind (read_all 4) _ (0 ∷ 0 ∷ 0 ∷ 0 ∷ nonce ++ rest) (0 ∷ 0 ∷ 0 ∷ 0 ∷ [])
            (nonce ++ rest) (t, nonce) rest
            (read_all-Parses (0 ∷ 0 ∷ 0 ∷ 0 ∷ []) (nonce ++ rest) (omega arith))
            (Parses-bind (read_all (length nonce)) _ (nonce ++ rest) nonce rest (t, nonce) rest
              (read_all-Parses nonce rest (omega arith))
              (rw (ntoh_read_ud-ntoh_write_ud t word) (Parses-pure (t, nonce) rest))))),
  )

  -- `c2` and `s2`: both timestamps and the nonce are read back as they were written.
  pub read_shake_2-emit_shake_2 :
      (u : ℕ)
      → u < 2 ^ 32
      → let bs = ntoh_write_ud t ++ (ntoh_write_ud u ++ nonce) in
        Emits (emit_shake_2 t u nonce) bs tt
        × ((rest : List ℕ) → Parses (read_shake_2 (length nonce)) (bs ++ rest) (t, u, nonce) rest)
  unfolding emit_shake_2 read_shake_2
  read_shake_2-emit_shake_2 u word' = (
    Emits-bind (write_all (ntoh_write_ud t)) _ (ntoh_write_ud t) tt (ntoh_write_ud u ++ nonce) tt
        (write_all-Emits (ntoh_write_ud t))
        (Emits-bind (write_all (ntoh_write_ud u)) _ (ntoh_write_ud u) tt nonce tt
          (write_all-Emits (ntoh_write_ud u)) (write_all-Emits nonce)),
    λ rest.
        rw
          (
            append_assoc (ntoh_write_ud t) (ntoh_write_ud u ++ nonce) rest,
            append_assoc (ntoh_write_ud u) nonce rest,
          )
          (read_ud _ t (ntoh_write_ud u ++ (nonce ++ rest)) (t, u, nonce) rest
            (read_ud _ u (nonce ++ rest) (t, u, nonce) rest
              (Parses-bind (read_all (length nonce)) _ (nonce ++ rest) nonce rest (t, u, nonce) rest
                (read_all-Parses nonce rest (omega arith))
                (rw (ntoh_read_ud-ntoh_write_ud t word, ntoh_read_ud-ntoh_write_ud u word')
                  (Parses-pure (t, u, nonce) rest))))),
  )
