-- ===== src/Rtmp/Conn/Service/Quiet.antt =====
-- src/rtmp/rtmp_chunk_conn.c: what sending does to the state of the handshake.
use lib_open_rtmp.Base.{
  ℕ, zero, suc, ◌+◌, ◌≡◌, refl, ◌∙◌, Bool, true, false, not, List, Option, none, if◌then◌else◌, ltb,
  ◌==◌, inl, inr, Bool-cases, length, slice, u32,
}
use lib_open_rtmp.Rtmp.Errors.{code, again}
use lib_open_rtmp.Rtmp.Session.{Result, got, failed, M, pure, next, ◌>>=◌, ◌>>◌}
use lib_open_rtmp.Rtmp.Message.{Message}
use lib_open_rtmp.Rtmp.Cache.{Alloc}
use lib_open_rtmp.Rtmp.Conn.{
  Conn, Callback, call, event, chunk, failure, filled, emptied, or_fail, report, connected,
}
use lib_open_rtmp.Rtmp.Conn.Shake.Step.{View, view, connects}
use lib_open_rtmp.Rtmp.Conn.Send.{
  Sent, send_on, send_loop, send_chunk, send_header, send_data, freeze_chunk, commit_chunk,
  chunk_length, send_message, send_control, make_room, finish_send, roll_back, tell_filled,
  is_given, or_zero, set_window_ack_size, acknowledge,
}

-- A step after which the view of the connection is what it was.
abbrev pub Quiet : {A : Type 0} → M Conn A → Type 0
Quiet m = (c : Conn) → view (m c).1 ≡ view c

-- The rest of a step that was quiet so far.
Quiet-next :
    {A B : Type 0} (f : A → M Conn B) (v : View) (x : Result A × Conn)
    → view x.1 ≡ v
    → ((a : A) → Quiet (f a))
    → view (next f x).1 ≡ v
Quiet-next f v (got a, d) e q = q a d ∙ e
Quiet-next f v (failed err, d) e q = e

pub Quiet-bind :
    {A B : Type 0} (m : M Conn A) (f : A → M Conn B)
    → Quiet m
    → ((a : A) → Quiet (f a))
    → Quiet (m >>= f)
Quiet-bind m f p q c = Quiet-next f (view c) (m c) (p c) q

pub Quiet-if :
    {A : Type 0} (b : Bool) (m n : M Conn A) → Quiet m → Quiet n → Quiet (if b then m else n)
Quiet-if true m n p q c = p c
Quiet-if false m n p q c = q c

-- The test may depend on the connection.
pub Quiet-branch :
    {A : Type 0} (b : Bool) (x y : Result A × Conn) (v : View)
    → view x.1 ≡ v
    → view y.1 ≡ v
    → view (if b then x else y).1 ≡ v
Quiet-branch true x y v p q = p
Quiet-branch false x y v p q = q

pub chunk_call-Quiet :
    (callback : Callback) (bytes : List ℕ) (n : ℕ) (m : Message)
    → Quiet (call callback (chunk bytes n m))
unfolding call view connects
chunk_call-Quiet callback bytes n m c = refl

pub called-Quiet : (callback : Callback) → Quiet (call callback (event filled))
unfolding call view connects
called-Quiet callback c = refl

pub emptied_call-Quiet : (callback : Callback) → Quiet (call callback (event emptied))
unfolding call view connects
emptied_call-Quiet callback c = refl

failure_call-Quiet : (callback : Callback) → Quiet (call callback (event failure))
unfolding call view connects
failure_call-Quiet callback c = refl

report-view :
    {A : Type 0} (callback : Callback) (x : Result A × Conn)
    → view (report callback failure x).1 ≡ view x.1
unfolding report
report-view callback (got a, d) = refl
report-view callback (failed err, d) = elim (Bool-cases (code err == code again)) [
  | inl z ↦ rw z refl
  | inr z ↦ rw z (failure_call-Quiet callback d)
]

pub or_fail-Quiet :
    {A : Type 0} (callback : Callback) (m : M Conn A) → Quiet m → Quiet (or_fail callback failure m)
or_fail-Quiet callback m q c = report-view callback (m c) ∙ q c

freeze_chunk-Quiet : (each : Bool) (c : Conn) → view (freeze_chunk each c) ≡ view c
unfolding freeze_chunk view
freeze_chunk-Quiet true c = refl
freeze_chunk-Quiet false c = refl

commit_chunk-Quiet : (each : Bool) (c : Conn) → view (commit_chunk each c) ≡ view c
unfolding commit_chunk view
commit_chunk-Quiet true c = refl
commit_chunk-Quiet false c = refl

make_room-Quiet : (fresh : List ℕ) (c : Conn) → view (make_room fresh c) ≡ view c
unfolding make_room view
make_room-Quiet fresh c = elim (Bool-cases (ltb c.output.size (u32 (c.self_chunk_size + 20)))) [
  | inl e ↦ rw e refl
  | inr e ↦ rw e refl
]

tell_filled-Quiet :
    (callback : Callback) (start : ℕ) (c : Conn) → view (tell_filled callback start c) ≡ view c
unfolding tell_filled
tell_filled-Quiet callback start c = elim (Bool-cases (c.bytes_out == start)) [
  | inl e ↦ rw e refl
  | inr e ↦ rw e (called-Quiet callback c)
]

send_chunk-Quiet :
    (alloc : Alloc) (each : Bool) (bytes : List ℕ) (msg : Message)
    → Quiet (send_chunk alloc each bytes msg)
unfolding send_chunk send_header send_data view
send_chunk-Quiet alloc each bytes msg =
    Quiet-bind (λ c. (got tt, freeze_chunk each c))
      (λ _. send_header alloc msg >>= λ m. (send_data bytes >> done m)) (freeze_chunk-Quiet each)
      (λ _.
        Quiet-bind (send_header alloc msg) (λ m. send_data bytes >> done m) (λ c. refl)
          (λ m.
            Quiet-bind (send_data bytes) (λ _. done m) (λ c. refl)
              (λ _.
                Quiet-bind (λ c. (got tt, commit_chunk each c)) (λ _. pure m)
                  (commit_chunk-Quiet each) (λ _ c. refl))))
  where
    done : Message → M Conn Message
    done m = (λ c. (got tt, commit_chunk each c)) >> pure m

quiet_on :
    (f : Message → Conn → Sent) (written : ℕ) (v : View) (x : Result Message × Conn)
    → view x.1 ≡ v
    → ((m : Message) (d : Conn) → view (f m d).2 ≡ view d)
    → view (send_on f written x).2 ≡ v
unfolding send_on
quiet_on f written v (got m, d) e h = h m d ∙ e
quiet_on f written v (failed err, d) e h = e

loop-Quiet :
    (alloc : Alloc) (fuel : ℕ) (each : Bool) (bytes : List ℕ) (msg : Message) (written : ℕ)
    (c : Conn)
    → view (send_loop alloc fuel each bytes msg written c).2 ≡ view c
unfolding send_loop
loop-Quiet alloc zero each bytes msg written c = refl
loop-Quiet alloc (suc fuel) each bytes msg written c =
    elim (Bool-cases (ltb written (length bytes))) [
      | inr e ↦ rw e refl
      | inl e ↦
          let n : ℕ = chunk_length c (length bytes) written in
          rw e (
            quiet_on _ written (view c) (send_chunk alloc each (slice bytes written n) msg c)
              (send_chunk-Quiet alloc each (slice bytes written n) msg c)
              (λ m d. loop-Quiet alloc fuel each bytes m (written + n) d))
    ]

finish_send-Quiet :
    (callback : Callback) (each : Bool) (start : ℕ) (x : Sent)
    → view (finish_send callback each start x).2 ≡ view x.2
unfolding finish_send roll_back view
finish_send-Quiet callback each start (got _, written, c) =
    tell_filled-Quiet callback start (commit_chunk (not each) c) ∙ commit_chunk-Quiet (not each) c
finish_send-Quiet callback each start (failed e, written, c) =
    tell_filled-Quiet callback start (commit_chunk (not each) (roll_back (failed e) c))
    ∙ commit_chunk-Quiet (not each) (roll_back (failed e) c)

module _ (callback : Callback) (alloc : Alloc) (fresh : List ℕ) where
  send_message-Quiet :
      (type stream message_stream time : ℕ) (bytes : List ℕ) (out : Option ℕ) (c : Conn)
      → view (send_message callback alloc fresh type stream message_stream time bytes out c).2
        ≡ view c
  unfolding send_message
  send_message-Quiet type stream message_stream time bytes out c =
      elim (Bool-cases (not (connected c))) [
        | inl e ↦ rw e refl
        | inr e ↦ rw e (
            finish_send-Quiet callback (is_given out) c.bytes_out _
            ∙ loop-Quiet alloc _ (is_given out) bytes _ (or_zero out) _
            ∙ freeze_chunk-Quiet (not (is_given out)) (make_room fresh c)
            ∙ make_room-Quiet fresh c)
      ]

  pub set_window_ack_size-Quiet : (size : ℕ) → Quiet (set_window_ack_size callback alloc fresh size)
  unfolding set_window_ack_size send_control view
  set_window_ack_size-Quiet size =
      Quiet-bind (send_control callback alloc fresh 5 _) _
        (λ c. send_message-Quiet 5 2 0 0 _ none c) (λ _ c. refl)

  pub acknowledge-Quiet : Quiet (acknowledge callback alloc fresh)
  unfolding acknowledge
  acknowledge-Quiet c = refl
