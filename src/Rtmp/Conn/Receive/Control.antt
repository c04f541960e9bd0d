-- ===== src/Rtmp/Conn/Receive/Control.antt =====
-- src/rtmp/rtmp_chunk_conn.c: the buffer of control messages and the announced chunk size.
use lib_open_rtmp.Base.{
  ℕ, ◌+◌, ◌≤◌, ◌<◌, ◌^◌, ◌≡◌, ◌&&◌, List, arith, inl, inr, Bool-cases, ◌==◌, length, slice, le→leb,
  ne→not_==, take_of_le, blit, blit_front, refl, sym, ap, ◌∙◌, drop, le→not_ltb, ◌++◌, length-slice,
}
use lib_open_rtmp.Util.Memutil.{ntoh_read_ud, ntoh_write_ud}
use lib_open_rtmp.Rtmp.Conn.Send.{
  clamp_chunk_size, set_chunk_size, send_control, msg_set_chunk_size, control_chunk_stream,
  control_msg_stream,
}
use lib_open_rtmp.Rtmp.Conn.Send.Limits.{clamped}
use lib_open_rtmp.Rtmp.Session.{Result, got, failed, next}
use lib_open_rtmp.Rtmp.Cache.{Alloc}
use lib_open_rtmp.Rtmp.Message.{Message}
use lib_open_rtmp.Rtmp.Conn.{Conn, Callback}
use lib_open_rtmp.Rtmp.Conn.Receive.{
  recv_cmd, recv_control, dispatch, end_control, clamp_control, buffer_control, control_number,
  recv_set_chunk_size,
}

-- What fits the buffer after what it holds.
clamp_control-fits :
    (callback : Callback) (alloc : Alloc) (fresh : List ℕ) (c : Conn) (available : ℕ)
    → c.control_message_len ≤ 16
    → available < 2 ^ 62
    → (clamp_control callback alloc fresh c available + c.control_message_len ≤ 16)
      × (clamp_control callback alloc fresh c available ≤ available)
unfolding clamp_control
clamp_control-fits callback alloc fresh c available h small = ground arith

number_read : (v : ℕ) (rest : List ℕ) → v < 2 ^ 32 → ntoh_read_ud (ntoh_write_ud v ++ rest) ≡ v
unfolding ntoh_read_ud ntoh_write_ud
number_read v rest h = omega arith

number_length : (v : ℕ) → length (ntoh_write_ud v) ≡ 4
unfolding ntoh_write_ud
number_length v = refl

module _ (callback : Callback) (alloc : Alloc) (fresh : List ℕ) where
  -- rtmp_chunk_conn_service_recv_cmd never fills its buffer past 16 bytes: whatever part of a control
  -- message comes, of any type, the bytes that are copied fit behind those that are there, and the
  -- length afterwards is at most 16 again.
  pub recv_cmd-bounds :
      (bytes : List ℕ) (remaining message_type : ℕ) (c : Conn)
      → c.control_message_len ≤ 16
      → length bytes < 2 ^ 62
      → (c.control_message_len + clamp_control callback alloc fresh c (length bytes) ≤ 16)
        × ((recv_cmd callback alloc fresh bytes remaining message_type c).1.control_message_len
            ≤ 16)
  unfolding recv_cmd buffer_control end_control
  recv_cmd-bounds bytes remaining message_type c h small =
      let n : ℕ = clamp_control callback alloc fresh c (length bytes) in
      let (room, part) = clamp_control-fits callback alloc fresh c (length bytes) h small in
      let copied : length (slice bytes 0 n) ≡ n = length-slice bytes 0 n (omega arith) in
      (
        omega arith,
        elim (Bool-cases ((length bytes == remaining) && (remaining == 0))) [
          | inl e ↦ rw e h
          | inr e ↦ rw e (elim (Bool-cases (remaining == 0)) [
            | inl f ↦ rw f (omega arith)
            | inr f ↦ rw f (elim (Bool-cases (n == 0)) [
              | inl g ↦ rw g (omega (arith, copied))
              | inr g ↦ rw g (omega (arith, copied))
            ])
          ])
        ],
      )

  -- A number between 1 and 10000 in a full control message becomes the peer's chunk size.
  recv_set_chunk_size_lem :
      (size : ℕ) (rest : List ℕ) (c : Conn)
      → c.control_message_buffer ≡ ntoh_write_ud (clamp_chunk_size size) ++ rest
      → 4 ≤ c.control_message_len
      → recv_set_chunk_size callback alloc fresh c
        ≡ (got tt, record c { peer_chunk_size = clamp_chunk_size size })
  unfolding recv_set_chunk_size control_number
  recv_set_chunk_size_lem size rest c e h = rw (
    le→leb h,
    e,
    number_read (clamp_chunk_size size) rest (omega (arith, clamped size)),
    le→not_ltb (clamped size).0,
  )

  clamp_control_whole :
      (n : ℕ) (d : Conn)
      → d.control_message_len ≡ 0
      → n < 16
      → clamp_control callback alloc fresh d n ≡ n
  unfolding clamp_control
  clamp_control_whole n d empty small = ground arith

  -- A control message that comes in one piece, when the buffer is empty, is handled at once.
  recv_cmd_whole :
      (payload : List ℕ) (message_type : ℕ) (d : Conn)
      → d.control_message_len ≡ 0
      → 0 < length payload
      → length payload < 16
      → recv_cmd callback alloc fresh payload 0 message_type d
        ≡ end_control callback alloc fresh message_type (record d {
          control_message_buffer = blit d.control_message_buffer 0 payload;
          control_message_len = length payload;
        })
  unfolding recv_cmd buffer_control
  recv_cmd_whole payload message_type d empty some_bytes small =
      rw
        (
          ne→not_== {a = length payload} {b = 0} (omega arith),
          clamp_control_whole (length payload) d empty small,
          take_of_le (length payload) payload (omega arith),
          empty,
        )
        (ap
          (λ (k : ℕ). end_control callback alloc fresh message_type (record d {
            control_message_buffer = blit d.control_message_buffer 0 payload;
            control_message_len = k;
          }))
          (omega arith))

  -- What a peer has after the message of rtmp_chunk_conn_set_chunk_size.
  abbrev told : ℕ → Conn → Conn
  told size d = record d {
    control_message_buffer =
        blit d.control_message_buffer 0 (ntoh_write_ud (clamp_chunk_size size));
    control_message_len = 0;
    peer_chunk_size = clamp_chunk_size size;
  }

  recv_cmd-told :
      (size : ℕ) (d : Conn)
      → d.control_message_len ≡ 0
      → 4 ≤ length d.control_message_buffer
      → recv_cmd callback alloc fresh (ntoh_write_ud (clamp_chunk_size size)) 0 msg_set_chunk_size d
        ≡ (got tt, told size d)
  unfolding end_control recv_control
  recv_cmd-told size d empty room =
      let payload = ntoh_write_ud (clamp_chunk_size size) in
      let four = number_length (clamp_chunk_size size) in
      recv_cmd_whole payload msg_set_chunk_size d empty (omega (arith, four)) (omega (arith, four))
      ∙ rw
          (recv_set_chunk_size_lem size (drop (length payload) d.control_message_buffer)
            (record d {
              control_message_buffer = blit d.control_message_buffer 0 payload;
              control_message_len = length payload;
            })
            (blit_front d.control_message_buffer payload (omega (arith, four)))
            (omega (arith, four)))
          refl

-- A chunk size that was announced: the message went out, and nothing but the own chunk size was
-- changed after it.
pub record Announced (callback : Callback) (alloc : Alloc) (fresh : List ℕ) (c after : Conn)
    (payload : List ℕ) : Type 0 where
  pub sent : (send_control callback alloc fresh msg_set_chunk_size payload c).0 ≡ got tt
  pub resized :
      after ≡ record ((send_control callback alloc fresh msg_set_chunk_size payload c).1) {
        self_chunk_size = after.self_chunk_size;
      }

announced :
    (n : ℕ) (x : Result (Unit {0}) × Conn)
    → (next (λ _ d. (got tt, record d { self_chunk_size = n })) x).0 ≡ got tt
    → (x.0 ≡ got tt)
      × ((next (λ _ d. (got tt, record d { self_chunk_size = n })) x).1
          ≡ record x.1 { self_chunk_size = n })
announced n (got u, d) e = (refl, refl)
announced n (failed err, d) e = absurd (ground (arith, e))

-- The message that `send_control` sends the payload in.
abbrev pub control_msg : ℕ → List ℕ → Message
control_msg message_type payload = record {
  chunk_stream_id = control_chunk_stream;
  timestamp = 0;
  message_length = length payload;
  message_stream_id = control_msg_stream;
  message_type = message_type;
}

-- When rtmp_chunk_conn_set_chunk_size succeeds, whatever size is asked for, there is a payload that
-- it sent in a message of type 1 on the control stream, and after which it only set its own chunk
-- size; a peer with an empty control buffer that receives this message in one piece handles it
-- without an error, and its size for the chunks of this side is then the one that this side uses.
pub dispatch-set_chunk_size :
    (callback callback' : Callback) (alloc alloc' : Alloc) (fresh fresh' : List ℕ) (size : ℕ)
    (c d : Conn)
    → (set_chunk_size callback alloc fresh size c).0 ≡ got tt
    → d.control_message_len ≡ 0
    → 4 ≤ length d.control_message_buffer
    → (payload : List ℕ) × Announced callback alloc fresh c
        (set_chunk_size callback alloc fresh size c).1
        payload
      × ((dispatch callback' alloc' fresh' payload 0 (control_msg msg_set_chunk_size payload) d).0
          ≡ got tt)
      × ((dispatch callback' alloc' fresh' payload 0
            (control_msg msg_set_chunk_size payload)
            d).1.peer_chunk_size
          ≡ (set_chunk_size callback alloc fresh size c).1.self_chunk_size)
unfolding set_chunk_size dispatch
dispatch-set_chunk_size callback callback' alloc alloc' fresh fresh' size c d ok empty room =
    let n = clamp_chunk_size size in
    let payload = ntoh_write_ud n in
    let (sent, after) =
      announced n (send_control callback alloc fresh msg_set_chunk_size payload c) ok in
    let received = recv_cmd-told callback' alloc' fresh' size d empty room in
    (
      payload,
      record {
        sent = sent;
        resized =
            after
            ∙ sym (
                ap
                  (λ (k : Conn).
                    record ((send_control callback alloc fresh msg_set_chunk_size payload c).1) {
                      self_chunk_size = k.self_chunk_size;
                    })
                  after);
      },
      ap (λ r. r.0) received,
      ap (λ r. r.1.peer_chunk_size) received ∙ sym (ap (λ (k : Conn). k.self_chunk_size) after),
    )
