-- ===== src/Rtmp/Conn/Shake/Messages.antt =====
-- src/rtmp/rtmp_chunk_conn.c: each message of the handshake, sent or read.
use lib_open_rtmp.Base.{ℕ, Bool, not, List, if◌then◌else◌, ◌==◌, some, inl, inr, Bool-cases, arith}
use lib_open_rtmp.Util.Ringbuffer.{Ring}
use lib_open_rtmp.Rtmp.Errors.{invalid}
use lib_open_rtmp.Rtmp.Session.{M, pure, fail, ◌>>=◌, ◌>>◌}
use lib_open_rtmp.Rtmp.Conn.{
  Conn, Callback, connect_fail, nonce_size, on_input, on_output, update, or_fail,
}
use lib_open_rtmp.Rtmp.Conn.Shake.{
  World, same_bytes, emit_c0, emit_c1, emit_c2, read_s0, read_s1, read_s2, emit_s0, emit_s1,
  emit_s2, read_c0, read_c1, read_c2, gen_c, gen_s, alloc_c, alloc_s, alloc_verify, nonce_bytes,
  tryfinalize, set_c0, set_c1, set_c2, set_s0, set_s1, set_s2,
}
use lib_open_rtmp.Rtmp.Conn.Shake.Step.{
  View, view, has_nonce, InOrder, Step, Step-bind, Step-update, output-Step, input-Step,
}
use lib_open_rtmp.Rtmp.Conn.Shake.Flags.{
  BeforeC0, BeforeS0, BeforeC1, BeforeS1, BeforeC2, BeforeS2, WithC, WithS, set_c0-InOrder,
  set_s0-InOrder, set_c1-InOrder, set_s1-InOrder, set_c2-InOrder, set_s2-InOrder, gen_c-Step,
  gen_s-Step, alloc_c-Step, alloc_s-Step, alloc_verify-Step,
}
use lib_open_rtmp.Rtmp.Flow.{
  emit_shake_0, emit_shake_1, emit_shake_2, read_shake_0, read_shake_1, read_shake_2,
}

-- A message whose sending or reading sets a flag that needs nothing else.
module _ (callback : Callback) (P : View → Type 0) (order : (v : View) → P v → InOrder v)
    (set : Conn → Conn) (fine : (c : Conn) → P (view c) → InOrder (view (set c))) where
  sent-Step :
      (m : Conn → M Ring (Unit {0}))
      → Step P InOrder InOrder
          (or_fail callback connect_fail (λ c. on_output (m c) c) >> update set)
  sent-Step m =
      Step-bind P InOrder P InOrder (or_fail callback connect_fail (λ c. on_output (m c) c))
        (λ _. update set) (output-Step callback P order m)
        (λ _. Step-update P InOrder InOrder InOrder set fine)

  read-Step :
      (m : M Ring (Unit {0}))
      → Step P InOrder InOrder (or_fail callback connect_fail (on_input m) >> update set)
  read-Step m =
      Step-bind P InOrder P InOrder (or_fail callback connect_fail (on_input m)) (λ _. update set)
        (input-Step callback P order m) (λ _. Step-update P InOrder InOrder InOrder set fine)

-- A message with the nonce that `take` has got ready.
module _ (callback : Callback) (w : World) (P Q : View → Type 0)
    (order : (v : View) → Q v → InOrder v) (take : M Conn (Unit {0}))
    (taken : Step P InOrder Q (or_fail callback connect_fail take)) (set : Conn → Conn)
    (fine : (c : Conn) → Q (view c) → InOrder (view (set c))) where
  nonce_sent-Step :
      (m : Conn → M Ring (Unit {0}))
      → Step P InOrder InOrder (
          or_fail callback connect_fail take
          >> (update (λ c. record c { self_time = w.now })
              >> (or_fail callback connect_fail (λ c. on_output (m c) c) >> update set)))
  unfolding view
  nonce_sent-Step m =
      Step-bind P InOrder Q InOrder (or_fail callback connect_fail take) _ taken (λ _.
        Step-bind Q InOrder Q InOrder (update (λ c. record c { self_time = w.now })) _
          (Step-update Q InOrder Q InOrder (λ c. record c { self_time = w.now }) (λ c h. h))
          (λ _. sent-Step callback Q order set fine m))

got_c :
    (c : Conn) (time : ℕ) (nonce : List ℕ)
    → WithC (view c)
    → WithC (view (record c { peer_time = time; nonce_c = some nonce }))
unfolding view has_nonce
got_c c time nonce h = ground arith

got_s :
    (c : Conn) (time : ℕ) (nonce : List ℕ)
    → WithS (view c)
    → WithS (view (record c { peer_time = time; nonce_s = some nonce }))
unfolding view has_nonce
got_s c time nonce h = ground arith

-- A message whose nonce is read into the block that `take` has got.
module _ (callback : Callback) (w : World) (P Q : View → Type 0)
    (order : (v : View) → Q v → InOrder v) (take : M Conn (Unit {0}))
    (taken : Step P InOrder Q (or_fail callback connect_fail take))
    (keep : ℕ → List ℕ → Conn → Conn)
    (kept : (c : Conn) (time : ℕ) (nonce : List ℕ) → Q (view c) → Q (view (keep time nonce c)))
    (set : Conn → Conn) (fine : (c : Conn) → Q (view c) → InOrder (view (set c))) where
  nonce_read-Step :
      (m : M Ring (ℕ × List ℕ))
      → Step P InOrder InOrder (
          or_fail callback connect_fail take
          >> (update (λ c. record c { peer_shake_recv_time = w.now })
              >> (or_fail callback connect_fail (on_input m) >>= λ x.
                  update (keep x.0 x.1) >> update set)))
  unfolding view
  nonce_read-Step m =
      Step-bind P InOrder Q InOrder (or_fail callback connect_fail take) _ taken (λ _.
        Step-bind Q InOrder Q InOrder (update (λ c. record c { peer_shake_recv_time = w.now })) _
          (Step-update Q InOrder Q InOrder (λ c. record c { peer_shake_recv_time = w.now })
            (λ c h. h))
          (λ _.
            Step-bind Q InOrder Q InOrder (or_fail callback connect_fail (on_input m))
              (λ x. update (keep x.0 x.1) >> update set) (input-Step callback Q order m)
              (λ x.
                Step-bind Q InOrder Q InOrder (update (keep x.0 x.1)) (λ _. update set)
                  (Step-update Q InOrder Q InOrder (keep x.0 x.1) (λ c h. kept c x.0 x.1 h))
                  (λ _. Step-update Q InOrder InOrder InOrder set fine))))

-- An answer that is checked with a block of its own.
module _ (callback : Callback) (w : World) (P : View → Type 0)
    (order : (v : View) → P v → InOrder v) (set : Conn → Conn)
    (fine : (c : Conn) → P (view c) → InOrder (view (set c))) (times : ℕ → Conn → Bool)
    (bytes : List ℕ → Conn → Bool) where
  abbrev verdict : ℕ → List ℕ → M Conn (Unit {0})
  verdict time nonce c =
      if times time c
      then fail invalid c
      else if bytes nonce c
      then fail invalid c
      else pure tt (set c)

  judged : (time : ℕ) (nonce : List ℕ) → Step P InOrder InOrder (verdict time nonce)
  judged time nonce c h = elim (Bool-cases (times time c)) [
    | inl e ↦ rw e (order (view c) h)
    | inr e ↦ rw e (elim (Bool-cases (bytes nonce c)) [
      | inl f ↦ rw f (order (view c) h)
      | inr f ↦ rw f (fine c h)
    ])
  ]

  answer-Step :
      (m : M Ring (ℕ × ℕ × List ℕ))
      → Step P InOrder InOrder (
          or_fail callback connect_fail (alloc_verify w)
          >> (or_fail callback connect_fail (on_input m) >>= λ x.
              update (λ c. record c { self_shake_recv_time = x.1 }) >> verdict x.0 x.2))
  unfolding view
  answer-Step m =
      Step-bind P InOrder P InOrder (or_fail callback connect_fail (alloc_verify w)) _
        (alloc_verify-Step callback w P order)
        (λ _.
          Step-bind P InOrder P InOrder (or_fail callback connect_fail (on_input m))
            (λ x. update (λ c. record c { self_shake_recv_time = x.1 }) >> verdict x.0 x.2)
            (input-Step callback P order m)
            (λ x.
              Step-bind P InOrder P InOrder (update (λ c. record c { self_shake_recv_time = x.1 }))
                _
                (Step-update P InOrder P InOrder (λ c. record c { self_shake_recv_time = x.1 })
                  (λ c h. h))
                (λ _. judged x.0 x.2)))

module _ (callback : Callback) (w : World) where
  pub emit_c0-Step : Step BeforeC0 InOrder InOrder (emit_c0 callback)
  unfolding emit_c0
  emit_c0-Step = sent-Step callback BeforeC0 (λ v h. h.0) set_c0 set_c0-InOrder (λ _. emit_shake_0)

  pub emit_s0-Step : Step BeforeS0 InOrder InOrder (emit_s0 callback)
  unfolding emit_s0
  emit_s0-Step = sent-Step callback BeforeS0 (λ v h. h.0) set_s0 set_s0-InOrder (λ _. emit_shake_0)

  pub read_c0-Step : Step BeforeC0 InOrder InOrder (read_c0 callback)
  unfolding read_c0
  read_c0-Step = read-Step callback BeforeC0 (λ v h. h.0) set_c0 set_c0-InOrder read_shake_0

  pub read_s0-Step : Step BeforeS0 InOrder InOrder (read_s0 callback)
  unfolding read_s0
  read_s0-Step = read-Step callback BeforeS0 (λ v h. h.0) set_s0 set_s0-InOrder read_shake_0

  pub emit_c1-Step : Step BeforeC1 InOrder InOrder (emit_c1 callback w)
  unfolding emit_c1
  emit_c1-Step =
      nonce_sent-Step callback w BeforeC1 WithC (λ v h. h.0.0) (gen_c w) (gen_c-Step callback w)
        set_c1 (λ c h. set_c1-InOrder c h.0 h.1)
        (λ c. emit_shake_1 c.self_time (nonce_bytes c.nonce_c))

  pub emit_s1-Step : Step BeforeS1 InOrder InOrder (emit_s1 callback w)
  unfolding emit_s1
  emit_s1-Step =
      nonce_sent-Step callback w BeforeS1 WithS (λ v h. h.0.0) (gen_s w) (gen_s-Step callback w)
        set_s1 (λ c h. set_s1-InOrder c h.0 h.1)
        (λ c. emit_shake_1 c.self_time (nonce_bytes c.nonce_s))

  pub read_c1-Step : Step BeforeC1 InOrder InOrder (read_c1 callback w)
  unfolding read_c1
  read_c1-Step =
      nonce_read-Step callback w BeforeC1 WithC (λ v h. h.0.0) (alloc_c w) (alloc_c-Step callback w)
        (λ time nonce c. record c { peer_time = time; nonce_c = some nonce }) got_c set_c1
        (λ c h. set_c1-InOrder c h.0 h.1) (read_shake_1 nonce_size)

  pub read_s1-Step : Step BeforeS1 InOrder InOrder (read_s1 callback w)
  unfolding read_s1
  read_s1-Step =
      nonce_read-Step callback w BeforeS1 WithS (λ v h. h.0.0) (alloc_s w) (alloc_s-Step callback w)
        (λ time nonce c. record c { peer_time = time; nonce_s = some nonce }) got_s set_s1
        (λ c h. set_s1-InOrder c h.0 h.1) (read_shake_1 nonce_size)

  pub emit_c2-Step : Step BeforeC2 InOrder InOrder (emit_c2 callback)
  unfolding emit_c2
  emit_c2-Step =
      sent-Step callback BeforeC2 (λ v h. h.0) (λ c. tryfinalize callback (set_c2 c))
        (set_c2-InOrder callback)
        (λ c. emit_shake_2 c.peer_time c.peer_shake_recv_time (nonce_bytes c.nonce_s))

  pub emit_s2-Step : Step BeforeS2 InOrder InOrder (emit_s2 callback)
  unfolding emit_s2
  emit_s2-Step =
      sent-Step callback BeforeS2 (λ v h. h.0) (λ c. tryfinalize callback (set_s2 c))
        (set_s2-InOrder callback)
        (λ c. emit_shake_2 c.peer_time c.peer_shake_recv_time (nonce_bytes c.nonce_c))

  pub read_c2-Step : Step BeforeC2 InOrder InOrder (read_c2 callback w)
  unfolding read_c2
  read_c2-Step =
      answer-Step callback w BeforeC2 (λ v h. h.0) (λ c. tryfinalize callback (set_c2 c))
        (set_c2-InOrder callback) (λ time c. not (time == c.self_time))
        (λ nonce c. not (same_bytes nonce (nonce_bytes c.nonce_s))) (read_shake_2 nonce_size)

  pub read_s2-Step : Step BeforeS2 InOrder InOrder (read_s2 callback w)
  unfolding read_s2
  read_s2-Step =
      answer-Step callback w BeforeS2 (λ v h. h.0) (λ c. tryfinalize callback (set_s2 c))
        (set_s2-InOrder callback) (λ time c. not (time == c.self_time))
        (λ nonce c. not (same_bytes (nonce_bytes c.nonce_c) nonce)) (read_shake_2 nonce_size)
