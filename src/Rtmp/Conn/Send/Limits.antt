-- ===== src/Rtmp/Conn/Send/Limits.antt =====
-- src/rtmp/rtmp_chunk_conn.c: the chunk size and the sending loop.
use lib_open_rtmp.Base.{
  ℕ, zero, suc, ◌+◌, ◌-◌, ◌^◌, ◌≤◌, ◌<◌, ◌≡◌, refl, ap, ◌∙◌, Bool, true, false, not, List, Option,
  none, arith, ltb, length, inl, inr, Bool-cases, slice, ltb→lt, le→not_ltb, ◌==◌,
}
use lib_open_rtmp.Util.Memutil.{ntoh_write_ud}
use lib_open_rtmp.Rtmp.Session.{Result, got, failed, M, pure, next, ◌>>=◌, ◌>>◌}
use lib_open_rtmp.Rtmp.Errors.{Err}
use lib_open_rtmp.Rtmp.Message.{Message}
use lib_open_rtmp.Rtmp.Cache.{Alloc}
use lib_open_rtmp.Rtmp.Conn.{Conn, Callback, call, connected}
use lib_open_rtmp.Rtmp.Conn.Send.{
  Sent, send_on, send_loop, send_chunk, send_header, send_data, freeze_chunk, commit_chunk,
  chunk_length, send_message, send_control, is_given, or_zero, clamp_chunk_size, set_chunk_size,
  make_room, finish_send, roll_back, tell_filled,
}

-- The chunk size survives a step.
abbrev Keeps : {A : Type 0} → (Conn → Result A × Conn) → Type 0
Keeps m = (c : Conn) → (m c).1.self_chunk_size ≡ c.self_chunk_size

Keeps-bind :
    {A B : Type 0} (m : M Conn A) (f : A → M Conn B)
    → Keeps m
    → ((a : A) → Keeps (f a))
    → Keeps (m >>= f)
Keeps-bind m f p q c = go (m c) (p c)
  where
    go :
        (x : Result _ × Conn)
        → x.1.self_chunk_size ≡ c.self_chunk_size
        → (next f x).1.self_chunk_size ≡ c.self_chunk_size
    go (got a, d) e = q a d ∙ e
    go (failed err, d) e = e

freeze_chunk-size :
    (each : Bool) (c : Conn) → (freeze_chunk each c).self_chunk_size ≡ c.self_chunk_size
unfolding freeze_chunk
freeze_chunk-size true c = refl
freeze_chunk-size false c = refl

commit_chunk-size :
    (each : Bool) (c : Conn) → (commit_chunk each c).self_chunk_size ≡ c.self_chunk_size
unfolding commit_chunk
commit_chunk-size true c = refl
commit_chunk-size false c = refl

send_chunk-size :
    (alloc : Alloc) (each : Bool) (chunk : List ℕ) (msg : Message)
    → Keeps (send_chunk alloc each chunk msg)
unfolding send_chunk send_header send_data
send_chunk-size alloc each chunk msg =
    Keeps-bind (λ c. (got tt, freeze_chunk each c))
      (λ _. send_header alloc msg >>= λ m. (send_data chunk >> done m)) (freeze_chunk-size each)
      (λ _.
        Keeps-bind (send_header alloc msg) (λ m. send_data chunk >> done m) (λ c. refl)
          (λ m.
            Keeps-bind (send_data chunk) (λ _. done m) (λ c. refl)
              (λ _.
                Keeps-bind (λ c. (got tt, commit_chunk each c)) (λ _. pure m)
                  (commit_chunk-size each) (λ _ c. refl))))
  where
    done : Message → M Conn Message
    done m = (λ c. (got tt, commit_chunk each c)) >> pure m

-- A chunk of a message that is not finished has a byte at least, and no more than are left.
chunk_length-bounds :
    (c : Conn) (n written : ℕ)
    → 1 ≤ c.self_chunk_size
    → n < 2 ^ 64
    → written < n
    → (1 ≤ chunk_length c n written)
      × (chunk_length c n written + written ≤ n)
      × (chunk_length c n written ≤ c.self_chunk_size)
unfolding chunk_length
chunk_length-bounds c n written p word h = ground arith

-- What follows a chunk matters only where the chunk size is what it was.
send_on-congr :
    (f g : Message → Conn → Sent) (written size : ℕ) (x : Result Message × Conn)
    → x.1.self_chunk_size ≡ size
    → ((m : Message) (d : Conn) → d.self_chunk_size ≡ size → f m d ≡ g m d)
    → send_on f written x ≡ send_on g written x
unfolding send_on
send_on-congr f g written size (got m, d) e h = h m d e
send_on-congr f g written size (failed err, d) e h = refl

-- When the fuel is at least the number of bytes left, one unit more makes no difference.
fuel_step :
    (alloc : Alloc) (fuel : ℕ) (each : Bool) (bytes : List ℕ) (msg : Message) (written : ℕ)
    (c : Conn)
    → 1 ≤ c.self_chunk_size
    → length bytes < 2 ^ 64
    → length bytes ≤ written + fuel
    → send_loop alloc (suc fuel) each bytes msg written c
      ≡ send_loop alloc fuel each bytes msg written c
unfolding send_loop
fuel_step alloc zero each bytes msg written c p word h =
    rw (le→not_ltb {a = written} {b = length bytes} (omega arith)) refl
fuel_step alloc (suc fuel) each bytes msg written c p word h =
    elim (Bool-cases (ltb written (length bytes))) [
      | inr e ↦ rw e refl
      | inl e ↦
          let n : ℕ = chunk_length c (length bytes) written in
          let (progress, _, _) = chunk_length-bounds c (length bytes) written p word (ltb→lt e) in
          rw e (
            send_on-congr _ _ written c.self_chunk_size
              (send_chunk alloc each (slice bytes written n) msg c)
              (send_chunk-size alloc each (slice bytes written n) msg c)
              (λ m d same.
                fuel_step alloc fuel each bytes m (written + n) d (omega (arith, same)) word
                  (omega arith)))
    ]

-- The loop of rtmp_chunk_conn_send_message ends: with a chunk size of at least 1, any fuel from the
-- number of bytes still to write on gives the same result as that number, so the loop never stops
-- for want of it.
pub send_loop_ends :
    (alloc : Alloc) (more : ℕ) (each : Bool) (bytes : List ℕ) (msg : Message) (written : ℕ)
    (c : Conn)
    → 1 ≤ c.self_chunk_size
    → length bytes < 2 ^ 64
    → send_loop alloc (more + (length bytes - written)) each bytes msg written c
      ≡ send_loop alloc (length bytes - written) each bytes msg written c
send_loop_ends alloc zero each bytes msg written c p word =
    ap (λ (k : ℕ). send_loop alloc k each bytes msg written c) (omega arith)
send_loop_ends alloc (suc more) each bytes msg written c p word =
    ap (λ (k : ℕ). send_loop alloc k each bytes msg written c) (omega arith)
    ∙ fuel_step alloc (more + (length bytes - written)) each bytes msg written c p word
        (omega arith)
    ∙ send_loop_ends alloc more each bytes msg written c p word

after_chunk :
    (f : Message → Conn → Sent) (written size : ℕ) (x : Result Message × Conn)
    → x.1.self_chunk_size ≡ size
    → ((m : Message) (d : Conn) → (f m d).2.self_chunk_size ≡ d.self_chunk_size)
    → (send_on f written x).2.self_chunk_size ≡ size
unfolding send_on
after_chunk f written size (got m, d) e h = h m d ∙ e
after_chunk f written size (failed err, d) e h = e

loop_size :
    (alloc : Alloc) (fuel : ℕ) (each : Bool) (bytes : List ℕ) (msg : Message) (written : ℕ)
    (c : Conn)
    → (send_loop alloc fuel each bytes msg written c).2.self_chunk_size ≡ c.self_chunk_size
unfolding send_loop
loop_size alloc zero each bytes msg written c = refl
loop_size alloc (suc fuel) each bytes msg written c =
    elim (Bool-cases (ltb written (length bytes))) [
      | inr e ↦ rw e refl
      | inl e ↦
          let n : ℕ = chunk_length c (length bytes) written in
          rw e (
            after_chunk _ written c.self_chunk_size
              (send_chunk alloc each (slice bytes written n) msg c)
              (send_chunk-size alloc each (slice bytes written n) msg c)
              (λ m d. loop_size alloc fuel each bytes m (written + n) d))
    ]

make_room-size :
    (fresh : List ℕ) (c : Conn) → (make_room fresh c).self_chunk_size ≡ c.self_chunk_size
unfolding make_room
make_room-size fresh c = ground arith

tell_filled-size :
    (callback : Callback) (start : ℕ) (c : Conn)
    → (tell_filled callback start c).self_chunk_size ≡ c.self_chunk_size
unfolding tell_filled call
tell_filled-size callback start c = elim (Bool-cases (c.bytes_out == start)) [
  | inl e ↦ rw e refl
  | inr e ↦ rw e refl
]

finish_send-size :
    (callback : Callback) (each : Bool) (start : ℕ) (x : Sent)
    → (finish_send callback each start x).2.self_chunk_size ≡ x.2.self_chunk_size
unfolding finish_send roll_back
finish_send-size callback each start (got _, written, c) =
    tell_filled-size callback start (commit_chunk (not each) c) ∙ commit_chunk-size (not each) c
finish_send-size callback each start (failed e, written, c) =
    tell_filled-size callback start (commit_chunk (not each) (roll_back (failed e) c))
    ∙ commit_chunk-size (not each) (roll_back (failed e) c)

pub clamped : (size : ℕ) → (1 ≤ clamp_chunk_size size) × (clamp_chunk_size size ≤ 10000)
unfolding clamp_chunk_size
clamped size = ground arith

module _ (callback : Callback) (alloc : Alloc) (fresh : List ℕ) where
  send_message-size :
      (type stream message_stream time : ℕ) (bytes : List ℕ) (out : Option ℕ) (c : Conn)
      → (send_message callback alloc fresh type stream message_stream time bytes out
          c).2.self_chunk_size
        ≡ c.self_chunk_size
  unfolding send_message
  send_message-size type stream message_stream time bytes out c =
      elim (Bool-cases (not (connected c))) [
        | inl e ↦ rw e refl
        | inr e ↦ rw e (
            finish_send-size callback (is_given out) c.bytes_out _
            ∙ loop_size alloc _ (is_given out) bytes _ (or_zero out) _
            ∙ freeze_chunk-size (not (is_given out)) (make_room fresh c)
            ∙ make_room-size fresh c)
      ]

  -- The chunk size changes when the message was sent.
  resized :
      (size : ℕ) (c : Conn) (x : Result (Unit {0}) × Conn)
      → 1 ≤ c.self_chunk_size
      → c.self_chunk_size ≤ 10000
      → x.1.self_chunk_size ≡ c.self_chunk_size
      → let (ret, d) =
          next (λ _ d. (got tt, record d { self_chunk_size = clamp_chunk_size size })) x in
        (1 ≤ d.self_chunk_size)
        × (d.self_chunk_size ≤ 10000)
        × ((e : Err) → ret ≡ failed e → d.self_chunk_size ≡ c.self_chunk_size)
  resized size c (got _, d) lo hi e =
      ((clamped size).0, (clamped size).1, λ err p. absurd (ground (arith, p)))
  resized size c (failed _, d) lo hi e = (omega (arith, e), omega (arith, e), λ _ _. e)

  -- rtmp_chunk_conn_set_chunk_size leaves the chunk size between 1 and 10000 if it was, whatever
  -- size is asked for and whether or not the message could be sent; and a failed call leaves it as
  -- it was.
  pub set_chunk_size-limits :
      (size : ℕ) (c : Conn)
      → 1 ≤ c.self_chunk_size
      → c.self_chunk_size ≤ 10000
      → let (ret, d) = set_chunk_size callback alloc fresh size c in
        (1 ≤ d.self_chunk_size)
        × (d.self_chunk_size ≤ 10000)
        × ((e : Err) → ret ≡ failed e → d.self_chunk_size ≡ c.self_chunk_size)
  unfolding set_chunk_size send_control
  set_chunk_size-limits size c lo hi =
      resized size c (send_control callback alloc fresh 1 (ntoh_write_ud (clamp_chunk_size size)) c)
        lo hi (send_message-size 1 2 0 0 (ntoh_write_ud (clamp_chunk_size size)) none c)
