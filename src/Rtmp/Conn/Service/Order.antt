-- ===== src/Rtmp/Conn/Service/Order.antt =====
-- src/rtmp/rtmp_chunk_conn.c: the handshake through the rounds of the service loop.
use lib_open_rtmp.Base.{
  ℕ, zero, suc, ◌≡◌, refl, sym, ◌∙◌, subst, Bool, true, false, not, ◌&&◌, ◌||◌, List, Option, none,
  some, if◌then◌else◌, ltb, ◌==◌, inl, inr, Bool-cases,
}
use lib_open_rtmp.Util.Ringbuffer.{count, freeze_read, freeze_write}
use lib_open_rtmp.Rtmp.Errors.{code, pause, is_fatal}
use lib_open_rtmp.Rtmp.Session.{Result, got, failed, M}
use lib_open_rtmp.Rtmp.Cache.{Alloc}
use lib_open_rtmp.Rtmp.Conn.{Conn, Callback, call, event, filled, emptied, shaking_done}
use lib_open_rtmp.Rtmp.Conn.Shake.{World}
use lib_open_rtmp.Rtmp.Conn.Shake.Step.{view, InOrder}
use lib_open_rtmp.Rtmp.Conn.Shake.Order.{service_shake-InOrder}
use lib_open_rtmp.Rtmp.Conn.Service.{
  Round, committed_ok, note_pause, tell, settle, thaw_input, thaw_output, act, input_round,
  output_round, round, end_service, again_or_end, service_loop, service,
}
use lib_open_rtmp.Rtmp.Conn.Service.Quiet.{Quiet-branch, called-Quiet, emptied_call-Quiet}
use lib_open_rtmp.Rtmp.Conn.Service.Arrivals.{recv-Quiet}

-- The connection that a round leaves, or the one that there is without a round.
abbrev RoundInOrder : Conn → Option Round → Type 0
RoundInOrder c none = InOrder (view c)
RoundInOrder c (some r) = InOrder (view r.2)

either-InOrder :
    {A : Type 0} (b : Bool) (x y : Result A × Conn)
    → InOrder (view x.1)
    → InOrder (view y.1)
    → InOrder (view (if b then x else y).1)
either-InOrder true x y p q = p
either-InOrder false x y p q = q

module _ (callback : Callback) (alloc : Alloc) (fresh : List ℕ) where
  -- The handshake's invariant through the parts of a round.
  act-InOrder :
      (w : World) (io_in : Bool) (c : Conn)
      → InOrder (view c)
      → InOrder (view (act callback alloc fresh w io_in c).1)
  unfolding act
  act-InOrder w io_in c h = elim (Bool-cases (not (shaking_done c.status))) [
    | inl e ↦ rw e (service_shake-InOrder callback w io_in (not io_in) c h)
    | inr e ↦ rw e (
        subst InOrder
          (sym (Quiet-branch io_in _ _ (view c) (recv-Quiet callback alloc fresh c) refl)) h)
  ]

  tell-view :
      (input : Bool) (x : Result (Unit {0}) × Conn) (n : ℕ)
      → view (tell callback input x n).2 ≡ view x.1
  unfolding tell
  tell-view input (ret, c) n = elim (Bool-cases (committed_ok ret && ltb 0 n)) [
    | inr e ↦ rw e refl
    | inl e ↦ rw e (told input)
  ]
    where
      told : (b : Bool) → view (call callback (event (if b then emptied else filled)) c).1 ≡ view c
      told true = emptied_call-Quiet callback c
      told false = called-Quiet callback c

  note_pause-view : (x : Round) → view (note_pause x).2 ≡ view x.2
  unfolding note_pause view
  note_pause-view (got _, n, c) = refl
  note_pause-view (failed e, n, c) = elim (Bool-cases (code e == code pause)) [
    | inl z ↦ rw z refl
    | inr z ↦ rw z refl
  ]

  settle-view :
      (input : Bool) (ret : Result (Unit {0})) (x : ℕ × Conn)
      → view (settle callback input ret x).2 ≡ view x.1
  unfolding settle
  settle-view input ret (n, c) =
      note_pause-view (tell callback input (ret, c) n) ∙ tell-view input (ret, c) n

  input_round-InOrder :
      (w : World) (c : Conn)
      → InOrder (view c)
      → InOrder (view (input_round callback alloc fresh w c).2)
  unfolding input_round thaw_input view
  input_round-InOrder w c h =
      let frozen : Conn = record c { input = freeze_read c.input } in
      let (ret, acted) = act callback alloc fresh w true frozen in
      subst InOrder (sym (settle-view true ret (thaw_input ret acted)))
        (act-InOrder w true frozen h)

  output_round-InOrder :
      (w : World) (c : Conn)
      → InOrder (view c)
      → InOrder (view (output_round callback alloc fresh w c).2)
  unfolding output_round thaw_output view
  output_round-InOrder w c h =
      let frozen : Conn = record c { output = freeze_write c.output } in
      let (ret, acted) = act callback alloc fresh w false frozen in
      subst InOrder (sym (settle-view false ret (thaw_output ret acted)))
        (act-InOrder w false frozen h)

  end_service-view :
      (x : Result (Unit {0})) (c : Conn) → view (end_service callback alloc fresh x c).1 ≡ view c
  unfolding end_service view
  end_service-view (got _) c = refl
  end_service-view (failed e) c = elim (Bool-cases (is_fatal e)) [
    | inl z ↦ rw z refl
    | inr z ↦ rw z refl
  ]

  -- What is left of the loop keeps the invariant when what it goes on with does.
  again_or_end-InOrder :
      (rest : M Conn (Unit {0})) (x : Option Round) (c : Conn)
      → ((d : Conn) → InOrder (view d) → InOrder (view (rest d).1))
      → RoundInOrder c x
      → InOrder (view (again_or_end callback alloc fresh rest x c).1)
  unfolding again_or_end
  again_or_end-InOrder rest none c p h = h
  again_or_end-InOrder rest (some (ret, n, d)) c p h =
      elim (Bool-cases (committed_ok ret && ltb 0 n)) [
        | inl e ↦ rw e (p d h)
        | inr e ↦ rw e (subst InOrder (sym (end_service-view ret d)) h)
      ]

  round-InOrder :
      (w : World) (c : Conn) → InOrder (view c) → RoundInOrder c (round callback alloc fresh w c)
  unfolding round
  round-InOrder w c h = elim (Bool-cases (ltb 0 (count c.input))) [
    | inl e ↦ rw e (input_round-InOrder w c h)
    | inr e ↦ rw e (elim (Bool-cases (ltb 0 (count c.output) || not (shaking_done c.status))) [
      | inl f ↦ rw f (output_round-InOrder w c h)
      | inr f ↦ rw f h
    ])
  ]

  loop-InOrder :
      (fuel : ℕ) (worlds : ℕ → World) (c : Conn)
      → InOrder (view c)
      → InOrder (view (service_loop callback alloc fresh fuel worlds c).1)
  unfolding service_loop
  loop-InOrder zero worlds c h = h
  loop-InOrder (suc fuel) worlds c h =
      again_or_end-InOrder (service_loop callback alloc fresh fuel worlds) _ c
        (loop-InOrder fuel worlds) (round-InOrder (worlds fuel) c h)

  -- However long rtmp_chunk_conn_service runs, whatever bytes have arrived, whatever the system and the
  -- callbacks answer, and whether it ends well or with an error, it keeps the order of the handshake's
  -- messages, the single RTMP_EVENT_CONNECT_SUCCESS and the nonces: receiving chunks, control messages
  -- and the answers to them cannot disturb the handshake.
  pub service-InOrder :
      (fuel : ℕ) (worlds : ℕ → World) (c : Conn)
      → InOrder (view c)
      → InOrder (view (service callback alloc fresh fuel worlds c).1)
  unfolding service
  service-InOrder fuel worlds c h = either-InOrder c.paused _ _ h (loop-InOrder fuel worlds c h)
