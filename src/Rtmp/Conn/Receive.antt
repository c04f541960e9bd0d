-- ===== src/Rtmp/Conn/Receive.antt =====
-- src/rtmp/rtmp_chunk_conn.c: receiving chunks, the control messages among them, and the service loop.
pub mod Control
use lib_open_rtmp.Base.{
  ℕ, zero, suc, ◌+◌, ◌-◌, ◌/◌, Bool, true, false, not, ◌&&◌, List, [], ◌∷◌, Option, none, some,
  if◌then◌else◌, ltb, leb, ◌==◌, add64, sub64, u32, get_or, slice, blit, length,
}
use lib_open_rtmp.Util.Memutil.{ntoh_read_ud}
use lib_open_rtmp.Util.Ringbuffer.{
  Ring, get_read_buf, commit_read, count, freeze_read, unfreeze_read, freeze_write, unfreeze_write,
  clear,
}
use lib_open_rtmp.Rtmp.Errors.{Err, invalid, inadequate_chunk, pause, is_fatal}
use lib_open_rtmp.Rtmp.Session.{Result, got, failed, M, pure, fail, next, ◌>>=◌, ◌>>◌}
use lib_open_rtmp.Rtmp.Message.{Message, Entry}
use lib_open_rtmp.Rtmp.Cache.{Cache, Ref, Alloc, load, store, cache_get, cache_reset}
use lib_open_rtmp.Rtmp.Flow.{read_hdr}
use lib_open_rtmp.Rtmp.Conn.{
  Conn, Callback, Call, call, event, chunk, failure, filled, emptied, limit_hard, limit_soft,
  limit_dynamic, or_fail, shaking_done, update,
}
use lib_open_rtmp.Rtmp.Conn.Shake.{World, service_shake}
use lib_open_rtmp.Rtmp.Conn.Send.{
  acknowledge, set_window_ack_size, control_chunk_stream, control_msg_stream,
}

abbrev pub control_buffer_size : ℕ
control_buffer_size = 16

-- The control message's first four bytes.
unfoldable pub control_number : Conn → ℕ
control_number conn = ntoh_read_ud conn.control_message_buffer

-- The parameters of sending, for the answers.
module _ (callback : Callback) (alloc : Alloc) (fresh : List ℕ) where
  unfoldable pub recv_set_chunk_size : M Conn (Unit {0})
  recv_set_chunk_size conn =
      let size = control_number conn in
      if leb 4 conn.control_message_len
      then (got tt, record conn { peer_chunk_size = if ltb size 1 then 1 else size })
      else fail invalid conn

  -- `rtmp_cache_get` on the cache of the input.
  unfoldable pub entry_in : ℕ → M Conn Ref
  entry_in id conn =
      let (found, c) = cache_get alloc conn.stream_cache_in id in
      (
        elim found [ none ↦ failed inadequate_chunk | some ref ↦ got ref ],
        record conn { stream_cache_in = c },
      )

  abbrev pub modify_in : Ref → (Entry → Entry) → M Conn (Unit {0})
  modify_in ref f conn = (
    got tt,
    record conn {
      stream_cache_in = store conn.stream_cache_in ref (f (load conn.stream_cache_in ref));
    },
  )

  -- The answer of the callback is ignored.
  unfoldable pub abort_entries : ℕ → Ref → Ref → M Conn (Unit {0})
  unfolding call
  abort_entries id cached agmsg = do
    (λ s.
        let msg = record ((load s.stream_cache_in cached).msg) { chunk_stream_id = id } in
        (got tt, (call callback (chunk [] 0 msg) s).1))
    modify_in cached (λ e. record e { processed = 0 })
    modify_in agmsg (λ e. record e { processed = 0; initialized = false })

  unfoldable pub abort_found : ℕ → Result Ref → Result Ref → M Conn (Unit {0})
  unfolding abort_entries
  abort_found id (got cached) (got agmsg) = abort_entries id cached agmsg
  abort_found id (got cached) (failed e) = fail e
  abort_found id (failed e) found = fail e

  -- The two look-ups are both done before either result is tested.
  unfoldable pub abort_stream : ℕ → M Conn (Unit {0})
  abort_stream id conn =
      let (found, once) = entry_in id conn in
      let (found', twice) = entry_in 0 once in abort_found id found found' twice

  unfoldable pub recv_abort : M Conn (Unit {0})
  recv_abort conn =
      if leb 4 conn.control_message_len
      then abort_stream (control_number conn) conn
      else fail invalid conn

  -- The limit that is meant and the new size; `none` for an unknown limit.
  unfoldable pub bandwidth : ℕ → ℕ → ℕ → ℕ → Option (ℕ × ℕ)
  bandwidth limit previous new old =
      if limit == limit_dynamic
      then some (if previous == limit_hard then limit_hard else limit_dynamic, new)
      else if limit == limit_hard
      then some (limit_hard, new)
      else if limit == limit_soft
      then some (limit_soft, if ltb old new then old else new)
      else none

  unfoldable pub use_bandwidth : Option (ℕ × ℕ) → M Conn (Unit {0})
  use_bandwidth none conn = fail invalid conn
  use_bandwidth (some (limit, new)) conn =
      let typed = record conn { peer_bandwidth_type = limit } in
      if new == conn.self_window_size
      then pure tt typed
      else set_window_ack_size callback alloc fresh new typed

  unfoldable pub recv_set_peer_bwidth : M Conn (Unit {0})
  recv_set_peer_bwidth conn =
      let size = control_number conn in
      let new = if ltb size 1 then 1 else size in
      if leb 5 conn.control_message_len
      then use_bandwidth
          (bandwidth (get_or conn.control_message_buffer 4 0) conn.peer_bandwidth_type new
            conn.self_window_size)
          conn
      else fail invalid conn

  unfoldable pub recv_ack : M Conn (Unit {0})
  recv_ack conn =
      if leb 4 conn.control_message_len
      then (got tt, record conn { last_ack_out = control_number conn })
      else fail invalid conn

  unfoldable pub recv_win_ack_size : M Conn (Unit {0})
  recv_win_ack_size conn =
      let size = control_number conn in
      if leb 4 conn.control_message_len
      then acknowledge callback alloc fresh
          (record conn { peer_window_size = if ltb size 1 then 1 else size })
      else fail invalid conn

  -- The switch on the message type.
  unfoldable pub recv_control : ℕ → M Conn (Unit {0})
  recv_control message_type =
      if message_type == 1
      then recv_set_chunk_size
      else if message_type == 2
      then recv_abort
      else if message_type == 6
      then recv_set_peer_bwidth
      else if message_type == 3
      then recv_ack
      else if message_type == 5
      then recv_win_ack_size
      else pure tt

  -- The end of a control message, when nothing of it remains.
  unfoldable pub end_control : ℕ → M Conn (Unit {0})
  end_control message_type conn =
      let (ret, handled) = recv_control message_type conn in
      (ret, record handled { control_message_len = 0 })

  -- How much of `available` bytes still goes into the control buffer.
  unfoldable pub clamp_control : Conn → ℕ → ℕ
  clamp_control conn available =
      if leb control_buffer_size (add64 available conn.control_message_len)
      then sub64 control_buffer_size conn.control_message_len
      else available

  unfoldable pub buffer_control : Conn → List ℕ → Conn
  buffer_control conn bytes = record conn {
    control_message_buffer = blit conn.control_message_buffer conn.control_message_len bytes;
    control_message_len = conn.control_message_len + length bytes;
  }

  -- `bytes` are the `available` ones at `input`.
  unfoldable pub recv_cmd : List ℕ → ℕ → ℕ → M Conn (Unit {0})
  recv_cmd bytes remaining message_type conn =
      let n = clamp_control conn (length bytes) in
      let buffered = buffer_control conn (slice bytes 0 n) in
      if (length bytes == remaining) && (remaining == 0)
      then pure tt conn
      else if remaining == 0
      then end_control message_type buffered
      else if n == 0
      then fail invalid buffered
      else pure tt buffered

  -- The two kinds of messages; the result is tested after the input is committed.
  unfoldable pub dispatch : List ℕ → ℕ → Message → M Conn (Unit {0})
  dispatch bytes remaining msg =
      if (msg.chunk_stream_id == control_chunk_stream)
        && (msg.message_stream_id == control_msg_stream)
      then recv_cmd bytes remaining msg.message_type
      else call callback (chunk bytes remaining msg)

  unfoldable pub recv_issue : Ref → ℕ → M Conn (Unit {0})
  recv_issue previous available conn =
      let bytes = slice conn.input.mem (get_read_buf conn.input).0 available in
      let left = u32 (sub64 (load conn.stream_cache_in previous).processed available) in
      let counted = (modify_in previous (λ e. record e { processed = left }) conn).1 in
      let (ret, issued) = dispatch bytes left (load counted.stream_cache_in previous).msg counted in
      (ret, record issued { input = (commit_read issued.input available).1 })

  unfoldable pub recv_partial : M Conn (Unit {0})
  recv_partial = do
    previous ← (λ s. entry_in s.partial_msg s)
    (λ s.
        let room = (get_read_buf s.input).1 in
        if ltb room s.partial_chunk
        then recv_issue previous room (record s { partial_chunk = sub64 s.partial_chunk room })
        else recv_issue previous s.partial_chunk (record s { partial_chunk = 0 }))

  -- The bytes of the message that the chunk may bring, before the buffer is looked at.
  unfoldable pub begin_message : Ref → Conn → ℕ × Conn
  begin_message previous s =
      let e = load s.stream_cache_in previous in
      let available = if e.processed == 0 then e.msg.message_length else e.processed in
      (
        if ltb s.peer_chunk_size available then s.peer_chunk_size else available,
        if e.processed == 0
            then (modify_in previous (λ t. record t { processed = u32 t.msg.message_length }) s).1
            else s,
      )

  -- A chunk that is not buffered as a whole is noted as partial.
  unfoldable pub recv_chunk : Ref → M Conn (Unit {0})
  recv_chunk previous s =
      let (available, begun) = begin_message previous s in
      let room = (get_read_buf begun.input).1 in
      let id = (load begun.stream_cache_in previous).msg.chunk_stream_id in
      if ltb room available
      then recv_issue previous room
          (record begun { partial_chunk = sub64 available room; partial_msg = id })
      else recv_issue previous available begun

  -- `rtmp_chunk_conn_acknowledge`, whose result is not looked at, changes nothing.
  unfoldable pub recv_message : M Conn (Unit {0})
  recv_message = do
    msg ← or_fail callback failure (λ s.
        let (x, link) = read_hdr alloc (s.input, s.stream_cache_in) in
        (x, record s { input = link.0; stream_cache_in = link.1 }))
    previous ← (λ s. entry_in (load s.stream_cache_in msg).msg.chunk_stream_id s)
    recv_chunk previous

  unfoldable pub recv : M Conn (Unit {0})
  recv conn = if ltb 0 conn.partial_chunk then recv_partial conn else recv_message conn
