-- ===== src/Rtmp/Conn/Shake.antt =====
-- src/rtmp/rtmp_chunk_conn.c: the handshake of the client and of the server.
pub mod Step
pub mod Flags
pub mod Order
pub mod Messages
pub mod Answer
use lib_open_rtmp.Base.{
  ℕ, zero, suc, ◌+◌, ◌-◌, Bool, true, false, ◌&&◌, not, List, [], ◌∷◌, if◌then◌else◌, ltb, ◌==◌,
  sub64, Option, none, some, u64,
}
use lib_open_rtmp.Util.Memutil.{Nonce, nonce_del, nonce_gen, nonce_alloc}
use lib_open_rtmp.Util.Ringbuffer.{Ring}
use lib_open_rtmp.Rtmp.Errors.{Err, again, invalid, oom, is_error}
use lib_open_rtmp.Rtmp.Session.{Result, got, failed, M, pure, fail, next, ◌>>=◌, ◌>>◌}
use lib_open_rtmp.Rtmp.Flow.{
  emit_shake_0, emit_shake_1, emit_shake_2, read_shake_0, read_shake_1, read_shake_2,
}
use lib_open_rtmp.Rtmp.Conn.{
  Conn, Status, Callback, call, event, connect_success, connect_fail, shaking_done, nonce_size,
  on_input, on_output, update, or_fail,
}

-- What the system answers while one message is handled: the time, the block that `malloc` gives
-- for a nonce, and the random numbers.
pub record World : Type 0 where
  pub now : ℕ
  pub block : Nonce
  pub random : List ℕ

-- The bytes that a nonce points to.
unfoldable pub nonce_bytes : Nonce → List ℕ
nonce_bytes none = []
nonce_bytes (some bytes) = bytes

-- `memcmp` of two nonces is 0.
unfoldable pub same_bytes : List ℕ → List ℕ → Bool
same_bytes [] [] = true
same_bytes [] (y ∷ ys) = false
same_bytes (x ∷ xs) [] = false
same_bytes (x ∷ xs) (y ∷ ys) = (x == y) && same_bytes xs ys

unfoldable pub latency : ℕ → ℕ → ℕ
latency peer self = if ltb self peer then sub64 peer self else sub64 self peer

-- The latency is taken when the event has been raised, whatever its callback answered.
unfoldable pub finalized : Callback → Conn → Conn
unfolding nonce_del call latency
finalized callback conn =
    let freed = record conn {
      nonce_c = nonce_del conn.nonce_c;
      nonce_s = nonce_del conn.nonce_s;
    } in
    let told = (call callback (event connect_success) freed).1 in
    record told { lag = latency told.peer_shake_recv_time told.self_time }

unfoldable pub tryfinalize : Callback → Conn → Conn
unfolding finalized
tryfinalize callback conn = if shaking_done conn.status then finalized callback conn else conn

-- The result of `rtmp_nonce_gen` and `rtmp_nonce_alloc` as an error.
unfoldable pub nonce_result : Bool → Result (Unit {0})
nonce_result true = got tt
nonce_result false = failed oom

-- A failed read keeps the block as `malloc` gave it: what was copied into it is not recorded, since
-- the next attempt takes a new block.
unfoldable pub gen_c : World → M Conn (Unit {0})
unfolding nonce_gen nonce_result
gen_c w conn =
    let (fine, nonce) = nonce_gen w.block w.random in
    (nonce_result fine, record conn { nonce_c = nonce })

unfoldable pub gen_s : World → M Conn (Unit {0})
unfolding nonce_gen nonce_result
gen_s w conn =
    let (fine, nonce) = nonce_gen w.block w.random in
    (nonce_result fine, record conn { nonce_s = nonce })

unfoldable pub alloc_c : World → M Conn (Unit {0})
unfolding nonce_alloc nonce_result
alloc_c w conn =
    let (fine, nonce) = nonce_alloc w.block in (nonce_result fine, record conn { nonce_c = nonce })

unfoldable pub alloc_s : World → M Conn (Unit {0})
unfolding nonce_alloc nonce_result
alloc_s w conn =
    let (fine, nonce) = nonce_alloc w.block in (nonce_result fine, record conn { nonce_s = nonce })

-- The nonce that the peer's answer is checked with.
unfoldable pub alloc_verify : World → M Conn (Unit {0})
unfolding nonce_alloc nonce_result
alloc_verify w conn = (nonce_result (nonce_alloc w.block).0, conn)

-- The flags that a message sets in the status.
abbrev pub set_c0 : Conn → Conn
set_c0 conn = record conn { status = record (conn.status) { c0 = true } }

abbrev pub set_c1 : Conn → Conn
set_c1 conn = record conn { status = record (conn.status) { c1 = true } }

abbrev pub set_c2 : Conn → Conn
set_c2 conn = record conn { status = record (conn.status) { c2 = true } }

abbrev pub set_s0 : Conn → Conn
set_s0 conn = record conn { status = record (conn.status) { s0 = true } }

abbrev pub set_s1 : Conn → Conn
set_s1 conn = record conn { status = record (conn.status) { s1 = true } }

abbrev pub set_s2 : Conn → Conn
set_s2 conn = record conn { status = record (conn.status) { s2 = true } }

module _ (callback : Callback) where
  abbrev guarded : {A : Type 0} → M Conn A → M Conn A
  guarded m = or_fail callback connect_fail m

  unfoldable pub emit_c0 : M Conn (Unit {0})
  emit_c0 = guarded (on_output emit_shake_0) >> update set_c0

  unfoldable pub emit_c1 : World → M Conn (Unit {0})
  emit_c1 w = do
    guarded (gen_c w)
    update (λ conn. record conn { self_time = w.now })
    guarded (λ conn. on_output (emit_shake_1 conn.self_time (nonce_bytes conn.nonce_c)) conn)
    update set_c1

  unfoldable pub emit_c2 : M Conn (Unit {0})
  emit_c2 = do
    guarded (λ conn.
        on_output (emit_shake_2 conn.peer_time conn.peer_shake_recv_time (nonce_bytes conn.nonce_s))
          conn)
    update set_c2
    update (tryfinalize callback)

  unfoldable pub client_emit : World → M Conn (Unit {0})
  client_emit w conn =
      if not conn.status.c0
      then emit_c0 conn
      else if not conn.status.c1
      then emit_c1 w conn
      else if not conn.status.c2 && (conn.status.s0 && conn.status.s1)
      then emit_c2 conn
      else (got tt, conn)

  unfoldable pub read_s0 : M Conn (Unit {0})
  read_s0 = guarded (on_input read_shake_0) >> update set_s0

  unfoldable pub read_s1 : World → M Conn (Unit {0})
  read_s1 w = do
    guarded (alloc_s w)
    update (λ conn. record conn { peer_shake_recv_time = w.now })
    (time, nonce) ← guarded (on_input (read_shake_1 nonce_size))
    update (λ conn. record conn { peer_time = time; nonce_s = some nonce })
    update set_s1

  unfoldable pub read_s2 : World → M Conn (Unit {0})
  read_s2 w = do
    guarded (alloc_verify w)
    (verify_time, recv_time, verify_nonce) ← guarded (on_input (read_shake_2 nonce_size))
    update (λ conn. record conn { self_shake_recv_time = recv_time })
    (λ conn.
        if not (verify_time == conn.self_time)
        then fail invalid conn
        else if not (same_bytes (nonce_bytes conn.nonce_c) verify_nonce)
        then fail invalid conn
        else pure tt (tryfinalize callback (set_s2 conn)))

  unfoldable pub client_ingest : World → M Conn (Unit {0})
  client_ingest w conn =
      if not conn.status.s0
      then (if not conn.status.c0 then fail again conn else read_s0 conn)
      else if not conn.status.s1
      then (if not conn.status.c0 then fail again conn else read_s1 w conn)
      else if not conn.status.s2 && (conn.status.c0 && conn.status.c1)
      then read_s2 w conn
      else pure tt conn

  unfoldable pub emit_s0 : M Conn (Unit {0})
  emit_s0 = guarded (on_output emit_shake_0) >> update set_s0

  unfoldable pub emit_s1 : World → M Conn (Unit {0})
  emit_s1 w = do
    guarded (gen_s w)
    update (λ conn. record conn { self_time = w.now })
    guarded (λ conn. on_output (emit_shake_1 conn.self_time (nonce_bytes conn.nonce_s)) conn)
    update set_s1

  unfoldable pub emit_s2 : M Conn (Unit {0})
  emit_s2 = do
    guarded (λ conn.
        on_output (emit_shake_2 conn.peer_time conn.peer_shake_recv_time (nonce_bytes conn.nonce_c))
          conn)
    update set_s2
    update (tryfinalize callback)

  unfoldable pub server_emit : World → M Conn (Unit {0})
  server_emit w conn =
      if not conn.status.s0
      then (if not conn.status.c0 then fail again conn else emit_s0 conn)
      else if not conn.status.s1
      then emit_s1 w conn
      else if not conn.status.s2 && (conn.status.c0 && conn.status.c1)
      then emit_s2 conn
      else pure tt conn

  unfoldable pub read_c0 : M Conn (Unit {0})
  read_c0 = guarded (on_input read_shake_0) >> update set_c0

  unfoldable pub read_c1 : World → M Conn (Unit {0})
  read_c1 w = do
    guarded (alloc_c w)
    update (λ conn. record conn { peer_shake_recv_time = w.now })
    (time, nonce) ← guarded (on_input (read_shake_1 nonce_size))
    update (λ conn. record conn { peer_time = time; nonce_c = some nonce })
    update set_c1

  unfoldable pub read_c2 : World → M Conn (Unit {0})
  read_c2 w = do
    guarded (alloc_verify w)
    (verify_time, recv_time, verify_nonce) ← guarded (on_input (read_shake_2 nonce_size))
    update (λ conn. record conn { self_shake_recv_time = recv_time })
    (λ conn.
        if not (verify_time == conn.self_time)
        then fail invalid conn
        else if not (same_bytes verify_nonce (nonce_bytes conn.nonce_s))
        then fail invalid conn
        else pure tt (tryfinalize callback (set_c2 conn)))

  unfoldable pub server_ingest : World → M Conn (Unit {0})
  server_ingest w conn =
      if not conn.status.c0
      then read_c0 conn
      else if not conn.status.c1
      then read_c1 w conn
      else if not conn.status.c2 && (conn.status.s0 && conn.status.s1)
      then read_c2 w conn
      else pure tt conn

  -- The flags of `io_status` are given as two tests: output is served first.
  unfoldable pub service_shake : World → Bool → Bool → M Conn (Unit {0})
  service_shake w io_in io_out conn =
      if conn.status.is_client
      then ((if io_out then client_emit w else pure tt)
            >> (if io_in then client_ingest w else pure tt))
          conn
      else ((if io_out then server_emit w else pure tt)
            >> (if io_in then server_ingest w else pure tt))
          conn
