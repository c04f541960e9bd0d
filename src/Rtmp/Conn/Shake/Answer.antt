-- ===== src/Rtmp/Conn/Shake/Answer.antt =====
-- src/rtmp/rtmp_chunk_conn.c: the check of the peer's third handshake message.
use lib_open_rtmp.Base.{
  ℕ, ◌^◌, ◌≤◌, ◌<◌, ◌≡◌, ◌≢◌, refl, sym, ap, ap₂, ◌∙◌, ◌⊎◌, inl, inr, Bool, true, false, not, List,
  [], ◌∷◌, ◌++◌, some, arith, length, if◌then◌else◌, ◌==◌, eq→==, ne→not_==, ==→eq, Bool-cases,
}
use lib_open_rtmp.Util.Memutil.{ntoh_write_ud, nonce_alloc}
use lib_open_rtmp.Util.Ringbuffer.{Ring}
use lib_open_rtmp.Rtmp.Errors.{invalid}
use lib_open_rtmp.Rtmp.Session.{Result, got, failed, pure, fail, next, ◌>>◌}
use lib_open_rtmp.Rtmp.Flow.{read_shake_2}
use lib_open_rtmp.Rtmp.Flow.Wire.{Ready}
use lib_open_rtmp.Rtmp.Flow.Shake.{read_shake_2-emit_shake_2}
use lib_open_rtmp.Rtmp.Conn.{Conn, Callback, report, connect_fail, call, shaking_done, update}
use lib_open_rtmp.Rtmp.Conn.Shake.{
  World, read_s2, read_c2, nonce_bytes, same_bytes, alloc_verify, nonce_result, tryfinalize,
  finalized, set_s2, set_c2,
}

same_bytes_self : (xs : List ℕ) → same_bytes xs xs ≡ true
unfolding same_bytes
same_bytes_self [] = refl
same_bytes_self (x ∷ xs) = rw (eq→== {a = x} refl) (same_bytes_self xs)

same_bytes→eq : (xs ys : List ℕ) → same_bytes xs ys ≡ true → xs ≡ ys
unfolding same_bytes
same_bytes→eq [] [] e = refl
same_bytes→eq [] (y ∷ ys) e = absurd (ground (arith, e))
same_bytes→eq (x ∷ xs) [] e = absurd (ground (arith, e))
same_bytes→eq (x ∷ xs) (y ∷ ys) e = elim (Bool-cases (x == y)) [
  | inl f ↦ ap₂ ◌∷◌ (==→eq f) (same_bytes→eq xs ys (ground (arith, e)))
  | inr f ↦ absurd (ground (arith, e))
]

bytes_agree : (xs ys : List ℕ) → xs ≡ ys → same_bytes xs ys ≡ true
bytes_agree xs ys e = ap (same_bytes xs) (sym e) ∙ same_bytes_self xs

bytes_differ : (xs ys : List ℕ) → xs ≢ ys → same_bytes xs ys ≡ false
bytes_differ xs ys h = elim (Bool-cases (same_bytes xs ys)) [
  | inl e ↦ absurd (h (same_bytes→eq xs ys e))
  | inr e ↦ e
]

tryfinalize-status : (callback : Callback) (c : Conn) → (tryfinalize callback c).status ≡ c.status
unfolding tryfinalize finalized call
tryfinalize-status callback c = elim (Bool-cases (shaking_done c.status)) [
  | inl e ↦ rw e refl
  | inr e ↦ rw e refl
]

-- What the message holds: the two times and the nonce, and what follows it.
module _ (callback : Callback) (now : ℕ) (block random : List ℕ) (c : Conn) (t u : ℕ)
    (nonce rest : List ℕ) (word_t : t < 2 ^ 32) (word_u : u < 2 ^ 32) (long : length nonce ≡ 1528)
    (ready : Ready c.input ((ntoh_write_ud t ++ (ntoh_write_ud u ++ nonce)) ++ rest)) where
  abbrev w : World
  w = record { now = now; block = some block; random = random }

  message_read : (r : Ring) × (read_shake_2 1528 c.input ≡ (got (t, u, nonce), r))
  message_read =
      let (r, run, _) =
        (read_shake_2-emit_shake_2 t nonce word_t (omega (arith, long)) u word_u).1 rest c.input
          ready in
      (r, ap (λ (n : ℕ). read_shake_2 n c.input) (sym long) ∙ run)

  -- The connection once the message is read.
  abbrev after : Conn
  after = record c { input = message_read.0; self_shake_recv_time = u }

  abbrev Heard : Type 0
  Heard = Result (ℕ × ℕ × List ℕ) × Ring

  abbrev with_input : Heard → Result (ℕ × ℕ × List ℕ) × Conn
  with_input x = (x.0, record c { input = x.1 })

  -- The verdict of the two tests.
  abbrev verdict : Bool → Bool → (Conn → Conn) → Result (Unit {0}) × Conn
  verdict wrong_time wrong_nonce set =
      if wrong_time
      then (failed invalid, after)
      else if wrong_nonce
      then (failed invalid, after)
      else (got tt, tryfinalize callback (set after))

  s2_computed :
      read_s2 callback w c
      ≡ verdict (not (t == c.self_time)) (not (same_bytes (nonce_bytes c.nonce_c) nonce)) set_s2
  unfolding read_s2 report alloc_verify nonce_alloc nonce_result
  s2_computed =
      ap
        (λ (x : Heard).
          next
            (λ y. update (λ conn. record conn { self_shake_recv_time = y.1 }) >> (λ conn.
              if not (y.0 == conn.self_time)
              then fail invalid conn
              else if not (same_bytes (nonce_bytes conn.nonce_c) y.2)
              then fail invalid conn
              else pure tt (tryfinalize callback (set_s2 conn))))
            (report callback connect_fail (with_input x)))
        message_read.1

  c2_computed :
      read_c2 callback w c
      ≡ verdict (not (t == c.self_time)) (not (same_bytes nonce (nonce_bytes c.nonce_s))) set_c2
  unfolding read_c2 report alloc_verify nonce_alloc nonce_result
  c2_computed =
      ap
        (λ (x : Heard).
          next
            (λ y. update (λ conn. record conn { self_shake_recv_time = y.1 }) >> (λ conn.
              if not (y.0 == conn.self_time)
              then fail invalid conn
              else if not (same_bytes y.2 (nonce_bytes conn.nonce_s))
              then fail invalid conn
              else pure tt (tryfinalize callback (set_c2 conn))))
            (report callback connect_fail (with_input x)))
        message_read.1

  accepted :
      (wrong_time wrong_nonce : Bool) (set : Conn → Conn)
      → wrong_time ≡ false
      → wrong_nonce ≡ false
      → ((verdict wrong_time wrong_nonce set).0 ≡ got tt)
        × ((verdict wrong_time wrong_nonce set).1.status ≡ (set after).status)
  accepted wrong_time wrong_nonce set p q =
      rw (p, q) (refl, tryfinalize-status callback (set after))

  refused :
      (wrong_time wrong_nonce : Bool) (set : Conn → Conn)
      → (wrong_time ≡ true) ⊎ (wrong_nonce ≡ true)
      → ((verdict wrong_time wrong_nonce set).0 ≡ failed invalid)
        × ((verdict wrong_time wrong_nonce set).1.status ≡ c.status)
  refused true wrong_nonce set p = (refl, refl)
  refused false true set p = (refl, refl)
  refused false false set p = absurd (ground (arith, p))

  time_differs : t ≢ c.self_time → not (t == c.self_time) ≡ true
  time_differs h = ap not (ne→not_== h)

  time_agrees : t ≡ c.self_time → not (t == c.self_time) ≡ false
  time_agrees h = ap not (eq→== h)

  -- A client accepts the server's third message when it repeats the time and the nonce that the
  -- client sent: its flag is then set. When one of them differs the result is RTMP_ERR_INVALID, and
  -- the status is as before.
  pub read_s2-answer :
      (t ≡ c.self_time
        → nonce ≡ nonce_bytes c.nonce_c
        → ((read_s2 callback w c).0 ≡ got tt)
          × ((read_s2 callback w c).1.status ≡ record (c.status) { s2 = true }))
      × ((t ≢ c.self_time) ⊎ (nonce ≢ nonce_bytes c.nonce_c)
          → ((read_s2 callback w c).0 ≡ failed invalid)
            × ((read_s2 callback w c).1.status ≡ c.status))
  read_s2-answer = (
    λ p q. rw s2_computed (
        accepted _ _ set_s2 (time_agrees p)
          (ap not (bytes_agree (nonce_bytes c.nonce_c) nonce (sym q)))),
    λ h. rw s2_computed (
        refused _ _ set_s2 (elim h [
          | inl p ↦ inl (time_differs p)
          | inr q ↦ inr (ap not (bytes_differ (nonce_bytes c.nonce_c) nonce (λ e. q (sym e))))
        ])),
  )

  -- A server checks the client's third message in the same way against what it sent itself.
  pub read_c2-answer :
      (t ≡ c.self_time
        → nonce ≡ nonce_bytes c.nonce_s
        → ((read_c2 callback w c).0 ≡ got tt)
          × ((read_c2 callback w c).1.status ≡ record (c.status) { c2 = true }))
      × ((t ≢ c.self_time) ⊎ (nonce ≢ nonce_bytes c.nonce_s)
          → ((read_c2 callback w c).0 ≡ failed invalid)
            × ((read_c2 callback w c).1.status ≡ c.status))
  read_c2-answer = (
    λ p q. rw c2_computed (
        accepted _ _ set_c2 (time_agrees p) (ap not (bytes_agree nonce (nonce_bytes c.nonce_s) q))),
    λ h. rw c2_computed (
        refused _ _ set_c2 (elim h [
          | inl p ↦ inl (time_differs p)
          | inr q ↦ inr (ap not (bytes_differ nonce (nonce_bytes c.nonce_s) q))
        ])),
  )

  -- The message has 32 bits for the time: once the clock that a client read for its own message has
  -- passed 2 ^ 32 milliseconds, every answer is refused, one that repeats all its bytes too.
  pub read_s2_late :
      2 ^ 32 ≤ c.self_time
      → ((read_s2 callback w c).0 ≡ failed invalid) × ((read_s2 callback w c).1.status ≡ c.status)
  read_s2_late late = read_s2-answer.1 (inl (λ e. omega (arith, e)))
