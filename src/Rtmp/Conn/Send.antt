-- ===== src/Rtmp/Conn/Send.antt =====
-- src/rtmp/rtmp_chunk_conn.c: sending messages, chunk by chunk, and the control messages.
pub mod Limits
use lib_open_rtmp.Base.{
  ℕ, zero, suc, ◌+◌, ◌-◌, ◌^◌, Bool, true, false, not, List, [], ◌∷◌, ◌++◌, Option, none, some,
  if◌then◌else◌, ltb, ◌==◌, add64, sub64, u32, bit_and, length, slice,
}
use lib_open_rtmp.Util.Memutil.{ntoh_write_ud}
use lib_open_rtmp.Util.Ringbuffer.{Ring, resize, freeze_write, unfreeze_write, copy_write}
use lib_open_rtmp.Rtmp.Errors.{Err, again}
use lib_open_rtmp.Rtmp.Session.{Result, got, failed, M, pure, fail, next, ◌>>=◌, ◌>>◌}
use lib_open_rtmp.Rtmp.Message.{Message}
use lib_open_rtmp.Rtmp.Cache.{Cache, Alloc}
use lib_open_rtmp.Rtmp.Flow.{emit_hdr}
use lib_open_rtmp.Rtmp.Conn.{Conn, Callback, call, event, filled, connected}

abbrev pub min_chunk_size : ℕ
min_chunk_size = 1

abbrev pub max_chunk_size : ℕ
max_chunk_size = 10000

-- `RTMP_CONTROL_CHUNK_STREAM` and `RTMP_CONTROL_MSG_STREAM`
abbrev pub control_chunk_stream : ℕ
control_chunk_stream = 2

abbrev pub control_msg_stream : ℕ
control_msg_stream = 0

abbrev pub msg_set_chunk_size : ℕ
msg_set_chunk_size = 1

abbrev pub msg_abort : ℕ
msg_abort = 2

abbrev pub msg_ack : ℕ
msg_ack = 3

abbrev pub msg_win_ack_size : ℕ
msg_win_ack_size = 5

abbrev pub msg_set_peer_bwidth : ℕ
msg_set_peer_bwidth = 6

-- The result of the loop, and how much has been written.
abbrev pub Sent : Type 0
Sent = Result (Unit {0}) × ℕ × Conn

unfoldable pub send_on : (Message → Conn → Sent) → ℕ → Result Message × Conn → Sent
send_on rest written (got msg, conn) = rest msg conn
send_on rest written (failed e, conn) = (failed e, written, conn)

-- Commits the chunk when each chunk is a transaction of its own.
unfoldable pub commit_chunk : Bool → Conn → Conn
unfolding unfreeze_write
commit_chunk false conn = conn
commit_chunk true conn =
    let (n, out) = unfreeze_write conn.output true in
    record conn { output = out; bytes_out = add64 conn.bytes_out n }

unfoldable pub freeze_chunk : Bool → Conn → Conn
unfolding freeze_write
freeze_chunk false conn = conn
freeze_chunk true conn = record conn { output = freeze_write conn.output }

-- What is left of the loop's body once the header is written: the chunk's bytes.
unfoldable pub send_data : List ℕ → M Conn (Unit {0})
send_data chunk conn =
    let (n, out) = copy_write conn.output chunk in
    (if ltb n (length chunk) then failed again else got tt, record conn { output = out })

unfoldable pub chunk_length : Conn → ℕ → ℕ → ℕ
chunk_length conn length written =
    let chunk_len = sub64 length written in
    if ltb conn.self_chunk_size chunk_len then conn.self_chunk_size else chunk_len

-- The room for a whole chunk; `fresh` is what `realloc` adds to the block.
unfoldable pub make_room : List ℕ → Conn → Conn
unfolding resize
make_room fresh conn =
    let need = u32 (conn.self_chunk_size + 20) in
    if ltb conn.output.size need
    then record conn { output = resize conn.output fresh need }
    else conn

unfoldable pub is_given : Option ℕ → Bool
is_given none = false
is_given (some _) = true

unfoldable pub or_zero : Option ℕ → ℕ
or_zero none = 0
or_zero (some written) = written

module _ (alloc : Alloc) where
  -- `rtmp_chunk_emit_hdr( conn->out, &msg, conn->stream_cache_out )`
  unfoldable pub send_header : Message → M Conn Message
  unfolding emit_hdr
  send_header msg conn =
      let (x, link) = emit_hdr alloc msg (conn.output, conn.stream_cache_out) in
      (x, record conn { output = link.0; stream_cache_out = link.1 })

  -- One round of the loop. The message comes back, since its chunk stream id may be filled in.
  unfoldable pub send_chunk : Bool → List ℕ → Message → M Conn Message
  send_chunk each chunk msg = do
    (λ conn. (got tt, freeze_chunk each conn))
    msg' ← send_header msg
    send_data chunk
    (λ conn. (got tt, commit_chunk each conn))
    pure msg'

  -- `while( written < length )`, on fuel. A failed chunk ends it with what was written before.
  unfoldable pub send_loop : ℕ → Bool → List ℕ → Message → ℕ → Conn → Sent
  unfolding send_on
  send_loop zero each bytes msg written conn = (got tt, written, conn)
  send_loop (suc fuel) each bytes msg written conn =
      let n = chunk_length conn (length bytes) written in
      let rest : Message → Conn → Sent =
        λ msg' conn'. send_loop fuel each bytes msg' (written + n) conn' in
      if ltb written (length bytes)
      then send_on rest written (send_chunk each (slice bytes written n) msg conn)
      else (got tt, written, conn)

-- `ringbuffer_unfreeze_write( conn->out, false )` after an error.
unfoldable pub roll_back : Result (Unit {0}) → Conn → Conn
unfolding unfreeze_write
roll_back (got _) conn = conn
roll_back (failed e) conn = record conn { output = (unfreeze_write conn.output false).1 }

-- RTMP_EVENT_FILLED when bytes were committed since `bytes_out` was `start`.
unfoldable pub tell_filled : Callback → ℕ → Conn → Conn
unfolding call
tell_filled callback start conn =
    if conn.bytes_out == start then conn else (call callback (event filled) conn).1

-- Without `written_out` the whole message is one transaction.
unfoldable pub finish_send : Callback → Bool → ℕ → Sent → Sent
unfolding roll_back commit_chunk tell_filled
finish_send callback each start (ret, written, conn) =
    (ret, written, tell_filled callback start (commit_chunk (not each) (roll_back ret conn)))

-- The clamps of `rtmp_chunk_conn_set_chunk_size`.
unfoldable pub clamp_chunk_size : ℕ → ℕ
clamp_chunk_size size =
    let low = bit_and size (2 ^ 31 - 1) in
    if ltb low min_chunk_size
    then min_chunk_size
    else if ltb max_chunk_size low
    then max_chunk_size
    else low

module _ (callback : Callback) (alloc : Alloc) (fresh : List ℕ) where
  -- `written_out` is `none` for `nullptr`. The number is what `*written_out` is after the call.
  unfoldable pub send_message : ℕ → ℕ → ℕ → ℕ → List ℕ → Option ℕ → Conn → Sent
  send_message message_type chunk_stream message_stream timestamp bytes written_out conn =
      let msg : Message = record {
        chunk_stream_id = chunk_stream;
        timestamp = timestamp;
        message_length = length bytes;
        message_stream_id = message_stream;
        message_type = message_type;
      } in
      let each = is_given written_out in
      let written = or_zero written_out in
      let ready = freeze_chunk (not each) (make_room fresh conn) in
      if not (connected conn)
      then (failed again, written, conn)
      else finish_send callback each conn.bytes_out
          (send_loop alloc (suc (length bytes - written)) each bytes msg written ready)

  -- A message of the control stream.
  unfoldable pub send_control : ℕ → List ℕ → M Conn (Unit {0})
  send_control message_type bytes conn =
      let (ret, _, sent) =
        send_message message_type control_chunk_stream control_msg_stream 0 bytes none conn in
      (ret, sent)

  unfoldable pub set_chunk_size : ℕ → M Conn (Unit {0})
  set_chunk_size size = do
    send_control msg_set_chunk_size (ntoh_write_ud (clamp_chunk_size size))
    (λ conn. (got tt, record conn { self_chunk_size = clamp_chunk_size size }))

  unfoldable pub conn_abort : ℕ → M Conn (Unit {0})
  conn_abort chunk_stream = send_control msg_abort (ntoh_write_ud chunk_stream)

  -- The function returns at its first statement: nothing is ever acknowledged.
  unfoldable pub acknowledge : M Conn (Unit {0})
  acknowledge = pure tt

  unfoldable pub set_window_ack_size : ℕ → M Conn (Unit {0})
  set_window_ack_size size = do
    send_control msg_win_ack_size (ntoh_write_ud (if ltb size 1 then 1 else size))
    (λ conn. (got tt, record conn { self_window_size = if ltb size 1 then 1 else size }))

  unfoldable pub set_peer_bwidth : ℕ → ℕ → M Conn (Unit {0})
  set_peer_bwidth size limit_type =
      send_control msg_set_peer_bwidth
        (ntoh_write_ud (if ltb size 1 then 1 else size) ++ limit_type ∷ [])
