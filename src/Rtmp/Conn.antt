-- ===== src/Rtmp/Conn.antt =====
-- src/rtmp/rtmp_chunk_conn.c: the state of a chunk connection, and its calls of the user's callbacks.
pub mod Shake
pub mod Send
pub mod Receive
pub mod Service
use lib_open_rtmp.Base.{
  ℕ, zero, suc, ◌+◌, ◌-◌, ◌*◌, Bool, true, false, ◌&&◌, List, [], ◌∷◌, ◌++◌, if◌then◌else◌, ltb,
  ◌==◌, sub64, Option, none, some,
}
use lib_open_rtmp.Util.Memutil.{Nonce, nonce_del}
use lib_open_rtmp.Util.Ringbuffer.{
  Ring, create, get_write_buf, get_read_buf, commit_write, commit_read,
}
use lib_open_rtmp.Rtmp.Errors.{Err, error, pause, abort, again, ok, code}
use lib_open_rtmp.Rtmp.Session.{Result, got, failed, M, pure, fail, next, ◌>>=◌, ◌>>◌}
use lib_open_rtmp.Rtmp.Message.{Message}
use lib_open_rtmp.Rtmp.Cache.{Cache, cache_create}

-- `rtmp_chunk_conn_status_t`, a flag for each of its bits.
pub record Status : Type 0 where
  pub c0 : Bool
  pub c1 : Bool
  pub c2 : Bool
  pub s0 : Bool
  pub s1 : Bool
  pub s2 : Bool
  pub is_client : Bool

-- `( status & RTMP_STATUS_SHAKING_DONE ) == RTMP_STATUS_SHAKING_DONE`
abbrev pub shaking_done : Status → Bool
shaking_done s = s.c0 && (s.c1 && (s.c2 && (s.s0 && (s.s1 && s.s2))))

-- The events of `rtmp_event_t` that this file raises.
pub data Event : Type 0 where
  connect_success connect_fail failure filled emptied : Event

-- `rtmp_cb_status_t`
pub data CbStatus : Type 0 where
  cb_continue cb_error cb_defer_pause cb_abort : CbStatus

-- A call of a callback. A chunk comes with its bytes, the number that remain, and the message.
pub data Call : Type 0 where
  event : Event → Call
  chunk : List ℕ → ℕ → Message → Call

-- `rtmp_limit_t`, as the number that the peer sends.
abbrev pub limit_hard : ℕ
limit_hard = 0

abbrev pub limit_soft : ℕ
limit_soft = 1

abbrev pub limit_dynamic : ℕ
limit_dynamic = 2

-- `struct rtmp_chunk_conn`; `calls` is the history of calls of the callbacks, latest first.
pub record Conn : Type 0 where
  pub input : Ring
  pub output : Ring
  pub stream_cache_out : Cache
  pub stream_cache_in : Cache
  pub bytes_out : ℕ
  pub bytes_in : ℕ
  pub last_ack_out : ℕ
  pub last_ack_in : ℕ
  pub partial_chunk : ℕ
  pub partial_msg : ℕ
  pub paused : Bool
  pub nonce_c : Nonce
  pub nonce_s : Nonce
  pub self_time : ℕ
  pub peer_time : ℕ
  pub peer_shake_recv_time : ℕ
  pub self_shake_recv_time : ℕ
  pub lag : ℕ
  pub control_message_buffer : List ℕ
  pub control_message_len : ℕ
  pub status : Status
  pub self_chunk_size : ℕ
  pub peer_chunk_size : ℕ
  pub self_window_size : ℕ
  pub peer_window_size : ℕ
  pub peer_bandwidth_type : ℕ
  pub calls : List Call

abbrev pub io_buffer_size : ℕ
io_buffer_size = 30000000

abbrev pub nonce_size : ℕ
nonce_size = 1528

abbrev pub default_chunk_size : ℕ
default_chunk_size = 128

abbrev pub default_window_size : ℕ
default_window_size = 0x00FFFFFF

-- `RTMP_CONTROL_BUFFER_SIZE` zero bytes, from `calloc`.
abbrev pub control_buffer : List ℕ
control_buffer = 0 ∷ 0 ∷ 0 ∷ 0 ∷ 0 ∷ 0 ∷ 0 ∷ 0 ∷ 0 ∷ 0 ∷ 0 ∷ 0 ∷ 0 ∷ 0 ∷ 0 ∷ 0 ∷ []

-- The two blocks are what `malloc` gives for the ring buffers.
unfoldable pub conn_create : List ℕ → List ℕ → Bool → Conn
unfolding create cache_create
conn_create block_in block_out is_client = record {
  input = create block_in io_buffer_size;
  output = create block_out io_buffer_size;
  stream_cache_out = cache_create;
  stream_cache_in = cache_create;
  bytes_out = 0;
  bytes_in = 0;
  last_ack_out = 0;
  last_ack_in = 0;
  partial_chunk = 0;
  partial_msg = 0;
  paused = false;
  nonce_c = none;
  nonce_s = none;
  self_time = 0;
  peer_time = 0;
  peer_shake_recv_time = 0;
  self_shake_recv_time = 0;
  lag = 0;
  control_message_buffer = control_buffer;
  control_message_len = 0;
  status = record {
    c0 = false;
    c1 = false;
    c2 = false;
    s0 = false;
    s1 = false;
    s2 = false;
    is_client = is_client;
  };
  self_chunk_size = default_chunk_size;
  peer_chunk_size = default_chunk_size;
  self_window_size = default_window_size;
  peer_window_size = 0;
  peer_bandwidth_type = limit_hard;
  calls = [];
}

unfoldable pub connected : Conn → Bool
connected conn = shaking_done conn.status

unfoldable pub conn_pause : Conn → Bool → Conn
conn_pause conn status = record conn { paused = status }

-- The buffers that the network side fills and drains: where they begin, and how long they are.
unfoldable pub get_in_buff : Conn → ℕ × ℕ
unfolding get_write_buf
get_in_buff conn = get_write_buf conn.input

unfoldable pub get_out_buff : Conn → ℕ × ℕ
unfolding get_read_buf
get_out_buff conn = get_read_buf conn.output

unfoldable pub commit_in_buff : Conn → ℕ → Conn
unfolding commit_write
commit_in_buff conn size = record conn { input = (commit_write conn.input size).1 }

unfoldable pub commit_out_buff : Conn → ℕ → Conn
unfolding commit_read
commit_out_buff conn size = record conn { output = (commit_read conn.output size).1 }

-- What the callbacks answer, from the history of their calls. A callback that is not set answers
-- `cb_continue`.
abbrev pub Callback : Type 0
Callback = List Call → CbStatus

-- The switch on the answer.
unfoldable pub cb_result : CbStatus → Result (Unit {0})
cb_result cb_continue = got tt
cb_result cb_defer_pause = failed pause
cb_result cb_error = failed error
cb_result cb_abort = failed abort

unfoldable pub call : Callback → Call → M Conn (Unit {0})
unfolding cb_result
call callback c conn =
    let calls = c ∷ conn.calls in (cb_result (callback calls), record conn { calls = calls })

abbrev pub on_output : {A : Type 0} → M Ring A → M Conn A
on_output m conn = let (x, r) = m conn.output in (x, record conn { output = r })

abbrev pub on_input : {A : Type 0} → M Ring A → M Conn A
on_input m conn = let (x, r) = m conn.input in (x, record conn { input = r })

-- A statement that changes fields of the connection.
abbrev pub update : (Conn → Conn) → M Conn (Unit {0})
update f conn = (got tt, f conn)

-- `FAIL_IF_ERR`: an error other than RTMP_ERR_AGAIN raises the event before it is returned.
unfoldable pub report : {A : Type 0} → Callback → Event → Result A × Conn → Result A × Conn
unfolding call
report callback e (got a, conn) = (got a, conn)
report callback e (failed err, conn) =
    (failed err, if code err == code again then conn else (call callback (event e) conn).1)

abbrev pub or_fail : {A : Type 0} → Callback → Event → M Conn A → M Conn A
or_fail callback e m conn = report callback e (m conn)
