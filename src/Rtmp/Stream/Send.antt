-- ===== src/Rtmp/Stream/Send.antt =====
-- src/rtmp/rtmp_stream.c and rtmp_amferr of src/rtmp.c: the messages that a stream sends.
use lib_open_rtmp.Base.{ℕ, ◌^◌, Option, none, some, List, ◌++◌, leb, if◌then◌else◌}
use lib_open_rtmp.Util.Memutil.{ntoh_write_s, ntoh_write_ud}
use lib_open_rtmp.Amf.{AmfErr, oom}
use lib_open_rtmp.Amf.Builder.{Amf}
use lib_open_rtmp.Amf.Write.{amf_write}
use lib_open_rtmp.Rtmp.Errors
use lib_open_rtmp.Rtmp.Errors.{Err, ok, error, bad_write}
use lib_open_rtmp.Rtmp.Session.{Result, got, failed}
use lib_open_rtmp.Rtmp.Cache.{Alloc}
use lib_open_rtmp.Rtmp.Conn.{Callback}
use lib_open_rtmp.Rtmp.Conn.Send.{Sent, send_message, control_chunk_stream, control_msg_stream}
use lib_open_rtmp.Rtmp.Stream.{Stream}

unfoldable pub amferr : AmfErr → Err
amferr oom = Errors.oom
amferr _ = error

abbrev pub result_code : {A : Type 0} → Result A → Err
result_code (got x) = ok
result_code (failed e) = e

-- The error, the number written, and the stream after a call.
abbrev pub StreamSent : Type 0
StreamSent = Err × ℕ × Stream

abbrev pub with_conn : Stream → Sent → StreamSent
with_conn s (ret, written, conn) = (result_code ret, written, record s { connection = conn })

abbrev pub msg_audio : ℕ
msg_audio = 8

abbrev pub msg_video : ℕ
msg_video = 9

abbrev pub msg_amf0_dat : ℕ
msg_amf0_dat = 18

abbrev pub msg_amf0_so : ℕ
msg_amf0_so = 19

abbrev pub msg_amf0_cmd : ℕ
msg_amf0_cmd = 20

abbrev pub msg_user_ctl : ℕ
msg_user_ctl = 4

-- The object as data in the scratch block: asked for its size first, then written. `block` is what
-- `malloc` gives.
unfoldable pub prepare_amf : (block : ℕ → Option (List ℕ)) → Amf → Stream → Err × Stream
prepare_amf block amf s =
    if leb (2 ^ 31) (amf_write amf none).0
    then (bad_write, s)
    else fill_scratch (block (amf_write amf none).0)
  where
    fill_scratch : Option (List ℕ) → Err × Stream
    fill_scratch none = (Errors.oom, record s { scratch = none })
    fill_scratch (some mem) =
        let (result, n, written) = amf_write amf (some mem) in
        (if leb (2 ^ 31) result then bad_write else ok, record s { scratch = written })

-- `rtmp_usr_evt_t`
abbrev pub stream_begin : ℕ
stream_begin = 0

abbrev pub stream_eof : ℕ
stream_eof = 1

abbrev pub stream_dry : ℕ
stream_dry = 2

abbrev pub set_buf_len : ℕ
set_buf_len = 3

abbrev pub stream_is_rec : ℕ
stream_is_rec = 4

abbrev pub ping_req : ℕ
ping_req = 5

abbrev pub ping_res : ℕ
ping_res = 6

module _ (callback : Callback) (alloc : Alloc) (fresh : List ℕ) where
  abbrev pub send_on_conn : ℕ → ℕ → ℕ → ℕ → List ℕ → Option ℕ → Stream → StreamSent
  unfolding send_message
  send_on_conn type chunk_id msg_id timestamp bytes written s =
      with_conn s (
        send_message callback alloc fresh type chunk_id msg_id timestamp bytes written s.connection)

  -- The chunk stream that the caller names is not looked at.
  unfoldable pub send_audio2 : ℕ → ℕ → ℕ → List ℕ → Option ℕ → Stream → StreamSent
  send_audio2 chunk_id msg_id timestamp data_bytes written s =
      send_on_conn msg_audio 5 msg_id timestamp data_bytes written s

  unfoldable pub send_video2 : ℕ → ℕ → ℕ → List ℕ → Option ℕ → Stream → StreamSent
  send_video2 chunk_id msg_id timestamp data_bytes written s =
      send_on_conn msg_video 4 msg_id timestamp data_bytes written s

  unfoldable pub send_audio : ℕ → List ℕ → Option ℕ → Stream → StreamSent
  unfolding send_audio2
  send_audio timestamp data_bytes written s =
      send_audio2 s.chunk_id s.message_id timestamp data_bytes written s

  unfoldable pub send_video : ℕ → List ℕ → Option ℕ → Stream → StreamSent
  unfolding send_video2
  send_video timestamp data_bytes written s =
      send_video2 s.chunk_id s.message_id timestamp data_bytes written s

  abbrev pub send_user_ctl : List ℕ → Stream → Err × Stream
  send_user_ctl buffer s =
      let (ret, written, after) =
        send_on_conn msg_user_ctl control_chunk_stream control_msg_stream 0 buffer none s in
      (ret, after)

  unfoldable pub send_stream_begin : ℕ → Stream → Err × Stream
  unfolding ntoh_write_s ntoh_write_ud
  send_stream_begin stream_id s =
      send_user_ctl (ntoh_write_s stream_begin ++ ntoh_write_ud stream_id) s

  unfoldable pub send_stream_eof : ℕ → Stream → Err × Stream
  unfolding ntoh_write_s ntoh_write_ud
  send_stream_eof stream_id s = send_user_ctl (ntoh_write_s stream_eof ++ ntoh_write_ud stream_id) s

  unfoldable pub send_stream_dry : ℕ → Stream → Err × Stream
  unfolding ntoh_write_s ntoh_write_ud
  send_stream_dry stream_id s = send_user_ctl (ntoh_write_s stream_dry ++ ntoh_write_ud stream_id) s

  unfoldable pub send_set_buf_len : ℕ → ℕ → Stream → Err × Stream
  unfolding ntoh_write_s ntoh_write_ud
  send_set_buf_len stream_id len_ms s =
      send_user_ctl (ntoh_write_s set_buf_len ++ ntoh_write_ud stream_id ++ ntoh_write_ud len_ms) s

  unfoldable pub send_is_recorded : ℕ → Stream → Err × Stream
  unfolding ntoh_write_s ntoh_write_ud
  send_is_recorded stream_id s =
      send_user_ctl (ntoh_write_s stream_is_rec ++ ntoh_write_ud stream_id) s

  unfoldable pub send_ping_req : ℕ → Stream → Err × Stream
  unfolding ntoh_write_s ntoh_write_ud
  send_ping_req ping_time s = send_user_ctl (ntoh_write_s ping_req ++ ntoh_write_ud ping_time) s

  unfoldable pub send_ping_res : ℕ → Stream → Err × Stream
  unfolding ntoh_write_s ntoh_write_ud
  send_ping_res ping_time s = send_user_ctl (ntoh_write_s ping_res ++ ntoh_write_ud ping_time) s
