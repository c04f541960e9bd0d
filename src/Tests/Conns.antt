-- ===== src/Tests/Conns.antt =====
-- src/rtmp/rtmp_chunk_conn.c on a new client.
use lib_open_rtmp.Base.{
  replicate, true, ℕ, ◌+◌, ◌-◌, ◌≤◌, ◌≡◌, refl, true, false, List, [], ◌∷◌, some, arith, length,
}
use lib_open_rtmp.Util.Memutil.{ntoh_write_ud}
use lib_open_rtmp.Rtmp.Errors.{Err}
use lib_open_rtmp.Rtmp.Session.{got, failed}
use lib_open_rtmp.Rtmp.Conn.{Conn, Callback, cb_continue, conn_create, connected}
use lib_open_rtmp.Rtmp.Conn.Shake.{World, service_shake}
use lib_open_rtmp.Rtmp.Conn.Shake.Step.{InOrder, view}
use lib_open_rtmp.Rtmp.Conn.Shake.Order.{conn_create-InOrder, service_shake-InOrder}
use lib_open_rtmp.Rtmp.Conn.Send.{
  send_loop, set_chunk_size, clamp_chunk_size, send_control, send_message, msg_set_chunk_size,
  finish_send, make_room,
}
use lib_open_rtmp.Rtmp.Conn.Send.Limits.{send_loop_ends, set_chunk_size-limits}
use lib_open_rtmp.Rtmp.Conn.Receive.{recv_cmd, clamp_control, dispatch}
use lib_open_rtmp.Rtmp.Conn.Receive.Control.{
  recv_cmd-bounds, Announced, control_msg, dispatch-set_chunk_size,
}
use lib_open_rtmp.Rtmp.Conn.Service.{service}
use lib_open_rtmp.Rtmp.Conn.Service.Order.{service-InOrder}
use lib_open_rtmp.Tests.Chunks.{audio, no_memory}
use lib_open_rtmp.Rtmp.Conn.Send.{
  or_zero, send_chunk, send_header, freeze_chunk, is_given, chunk_length, send_data,
}
use lib_open_rtmp.Rtmp.Flow.{
  entry_to_emit, entry_for, emit_hdr_basic, write_all, header_fields, header_format, wire_time,
}
use lib_open_rtmp.Rtmp.Cache.{cache_get, load}
use lib_open_rtmp.Util.Ringbuffer.{copy_write, get_write_buf, commit_write, grow, put}
use lib_open_rtmp.Util.Memutil.{htol_write_ud, ntoh_write_ud3}

abbrev pub go_on : Callback
go_on calls = cb_continue

abbrev world : World
world = record { now = 5; block = some (0 ∷ []); random = 300 ∷ [] }

abbrev pub client : Conn
client = conn_create [] [] true

-- 300 bytes of no more than 16 could be held: the first 20 of them.
abbrev twenty : List ℕ
twenty =
    1 ∷ 2 ∷ 3 ∷ 4 ∷ 5 ∷ 6 ∷ 7 ∷ 8 ∷ 9 ∷ 10 ∷ 11 ∷ 12 ∷ 13 ∷ 14 ∷ 15 ∷ 16 ∷ 17 ∷ 18 ∷ 19 ∷ 20 ∷ []

clamped_sizes :
    (clamp_chunk_size 0 ≡ 1) × (clamp_chunk_size 4096 ≡ 4096) × (clamp_chunk_size 70000 ≡ 10000)
unfolding clamp_chunk_size
clamped_sizes = (refl, refl, refl)

client_size : client.self_chunk_size ≡ 128
unfolding conn_create
client_size = refl

client_len : client.control_message_len ≡ 0
unfolding conn_create
client_len = refl

client_buffer : 4 ≤ length client.control_message_buffer
unfolding conn_create
client_buffer = omega arith

service_shake-InOrder_example : InOrder (view (service_shake go_on world false true client).1)
service_shake-InOrder_example =
    service_shake-InOrder go_on world false true client (conn_create-InOrder [] [] true)

send_loop_ends_example :
    send_loop no_memory (7 + (length twenty - 0)) false twenty audio 0 client
    ≡ send_loop no_memory (length twenty - 0) false twenty audio 0 client
send_loop_ends_example =
    send_loop_ends no_memory 7 false twenty audio 0 client (omega (arith, client_size))
      (omega arith)

set_chunk_size-limits_example :
    let (ret, d) = set_chunk_size go_on no_memory [] 70000 client in
    (1 ≤ d.self_chunk_size)
    × (d.self_chunk_size ≤ 10000)
    × ((e : Err) → ret ≡ failed e → d.self_chunk_size ≡ client.self_chunk_size)
set_chunk_size-limits_example =
    set_chunk_size-limits go_on no_memory [] 70000 client (omega (arith, client_size))
      (omega (arith, client_size))

recv_cmd-bounds_example :
    (client.control_message_len + clamp_control go_on no_memory [] client (length twenty) ≤ 16)
    × ((recv_cmd go_on no_memory [] twenty 4 1 client).1.control_message_len ≤ 16)
recv_cmd-bounds_example =
    recv_cmd-bounds go_on no_memory [] twenty 4 1 client (omega (arith, client_len)) (omega arith)

-- A client whose handshake is done, with an empty output of 64 bytes.
abbrev speaker : Conn
speaker = record client {
  status = record {
    c0 = true;
    c1 = true;
    c2 = true;
    s0 = true;
    s1 = true;
    s2 = true;
    is_client = true;
  };
  output = record {
    mem = replicate 64 0;
    read_offset = 0;
    write_offset = 0;
    read_frozen = false;
    write_frozen = false;
    start = 0;
    len = 0;
    size = 64;
  };
}

told_size : (set_chunk_size go_on no_memory [] 4096 speaker).0 ≡ got tt
unfolding set_chunk_size send_control send_message connected finish_send send_loop or_zero
    ntoh_write_ud send_chunk send_header entry_to_emit entry_for cache_get emit_hdr_basic write_all
    copy_write get_write_buf freeze_chunk is_given make_room conn_create load chunk_length send_data
    header_fields header_format wire_time htol_write_ud ntoh_write_ud3 commit_write grow put
told_size = refl

dispatch-set_chunk_size_example :
    (payload : List ℕ) × Announced go_on no_memory [] speaker
      (set_chunk_size go_on no_memory [] 4096 speaker).1
      payload
    × ((dispatch go_on no_memory [] payload 0 (control_msg msg_set_chunk_size payload) client).0
        ≡ got tt)
    × ((dispatch go_on no_memory [] payload 0
          (control_msg msg_set_chunk_size payload)
          client).1.peer_chunk_size
        ≡ (set_chunk_size go_on no_memory [] 4096 speaker).1.self_chunk_size)
dispatch-set_chunk_size_example =
    dispatch-set_chunk_size go_on go_on no_memory no_memory [] [] 4096 speaker client told_size
      client_len client_buffer

service-InOrder_example : InOrder (view (service go_on no_memory [] 4 (λ n. world) client).1)
service-InOrder_example =
    service-InOrder go_on no_memory [] 4 (λ n. world) client (conn_create-InOrder [] [] true)
