-- ===== src/Rtmp/Conn/Shake/Order.antt =====
-- src/rtmp/rtmp_chunk_conn.c: the handshake through its four handlers.
use lib_open_rtmp.Base.{ℕ, ◌≡◌, refl, Bool, true, false, ◌&&◌, not, List, if◌then◌else◌, arith}
use lib_open_rtmp.Rtmp.Session.{Result, got, failed, M, pure}
use lib_open_rtmp.Rtmp.Conn.{Conn, Callback, conn_create}
use lib_open_rtmp.Rtmp.Conn.Shake.{
  World, client_emit, client_ingest, server_emit, server_ingest, service_shake,
}
use lib_open_rtmp.Rtmp.Conn.Shake.Step.{View, view, InOrder, Outcome, Step, Step-bind}
use lib_open_rtmp.Rtmp.Conn.Shake.Messages.{
  emit_c0-Step, emit_s0-Step, read_c0-Step, read_s0-Step, emit_c1-Step, emit_s1-Step, read_c1-Step,
  read_s1-Step, emit_c2-Step, emit_s2-Step, read_c2-Step, read_s2-Step,
}

branch :
    {A : Type 0} (F Q : View → Type 0) (b : Bool) (x y : Result A × Conn)
    → (b ≡ true → Outcome F Q x)
    → (b ≡ false → Outcome F Q y)
    → Outcome F Q (if b then x else y)
branch F Q true x y p q = p refl
branch F Q false x y p q = q refl

-- The tests of the four handlers choose a message whose flag may be set.
module _ (callback : Callback) (w : World) where
  client_emit-Step : Step InOrder InOrder InOrder (client_emit callback w)
  unfolding client_emit view
  client_emit-Step c h =
      branch InOrder InOrder (not c.status.c0) _ _ (λ e. emit_c0-Step callback w c (ground arith))
        (λ e.
          branch InOrder InOrder (not c.status.c1) _ _
            (λ f. emit_c1-Step callback w c (ground arith))
            (λ f.
              branch InOrder InOrder (not c.status.c2 && (c.status.s0 && c.status.s1)) _ _
                (λ g. emit_c2-Step callback w c (ground arith)) (λ g. h)))

  server_emit-Step : Step InOrder InOrder InOrder (server_emit callback w)
  unfolding server_emit view
  server_emit-Step c h =
      branch InOrder InOrder (not c.status.s0) _ _
        (λ e.
          branch InOrder InOrder (not c.status.c0) _ _ (λ f. h)
            (λ f. emit_s0-Step callback w c (ground arith)))
        (λ e.
          branch InOrder InOrder (not c.status.s1) _ _
            (λ f. emit_s1-Step callback w c (ground arith))
            (λ f.
              branch InOrder InOrder (not c.status.s2 && (c.status.c0 && c.status.c1)) _ _
                (λ g. emit_s2-Step callback w c (ground arith)) (λ g. h)))

  client_ingest-Step : Step InOrder InOrder InOrder (client_ingest callback w)
  unfolding client_ingest view
  client_ingest-Step c h =
      branch InOrder InOrder (not c.status.s0) _ _
        (λ e.
          branch InOrder InOrder (not c.status.c0) _ _ (λ f. h)
            (λ f. read_s0-Step callback w c (ground arith)))
        (λ e.
          branch InOrder InOrder (not c.status.s1) _ _
            (λ f.
              branch InOrder InOrder (not c.status.c0) _ _ (λ g. h)
                (λ g. read_s1-Step callback w c (ground arith)))
            (λ f.
              branch InOrder InOrder (not c.status.s2 && (c.status.c0 && c.status.c1)) _ _
                (λ g. read_s2-Step callback w c (ground arith)) (λ g. h)))

  server_ingest-Step : Step InOrder InOrder InOrder (server_ingest callback w)
  unfolding server_ingest view
  server_ingest-Step c h =
      branch InOrder InOrder (not c.status.c0) _ _ (λ e. read_c0-Step callback w c (ground arith))
        (λ e.
          branch InOrder InOrder (not c.status.c1) _ _
            (λ f. read_c1-Step callback w c (ground arith))
            (λ f.
              branch InOrder InOrder (not c.status.c2 && (c.status.s0 && c.status.s1)) _ _
                (λ g. read_c2-Step callback w c (ground arith)) (λ g. h)))

  done_if :
      (b : Bool) (m : M Conn (Unit {0}))
      → Step InOrder InOrder InOrder m
      → Step InOrder InOrder InOrder (if b then m else pure tt)
  done_if true m s c h = s c h
  done_if false m s c h = h

  service_shake-Step :
      (io_in io_out : Bool) → Step InOrder InOrder InOrder (service_shake callback w io_in io_out)
  unfolding service_shake
  service_shake-Step io_in io_out c h =
      branch InOrder InOrder c.status.is_client _ _
        (λ e.
          Step-bind InOrder InOrder InOrder InOrder
            (if io_out then client_emit callback w else pure tt) _
            (done_if io_out (client_emit callback w) client_emit-Step)
            (λ _. done_if io_in (client_ingest callback w) client_ingest-Step) c h)
        (λ e.
          Step-bind InOrder InOrder InOrder InOrder
            (if io_out then server_emit callback w else pure tt) _
            (done_if io_out (server_emit callback w) server_emit-Step)
            (λ _. done_if io_in (server_ingest callback w) server_ingest-Step) c h)

-- A new connection has passed no message.
pub conn_create-InOrder :
    (block_in block_out : List ℕ) (client : Bool)
    → InOrder (view (conn_create block_in block_out client))
unfolding view conn_create
conn_create-InOrder block_in block_out client = ground arith

either : {A : Type 0} (P : View → Type 0) (x : Result A × Conn) → Outcome P P x → P (view x.1)
either P (got a, c) o = o
either P (failed e, c) o = o

-- Every call of rtmp_chunk_conn_service_shake keeps the messages of the handshake in order (`s0` after
-- `c0`, `s1` after `s0`, `c1` after `c0`, `c2` and `s2` after `c1` and `s1`), whatever the peer sends, the system
-- answers and the callbacks do, in success and in failure; RTMP_EVENT_CONNECT_SUCCESS has been raised
-- once when all six messages have passed and not before; and until then the nonces of `c1` and of `s1`
-- are there from their messages on.
pub service_shake-InOrder :
    (callback : Callback) (w : World) (io_in io_out : Bool) (c : Conn)
    → InOrder (view c)
    → InOrder (view (service_shake callback w io_in io_out c).1)
service_shake-InOrder callback w io_in io_out c h =
    either InOrder (service_shake callback w io_in io_out c)
      (service_shake-Step callback w io_in io_out c h)
