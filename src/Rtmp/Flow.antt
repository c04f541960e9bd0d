-- ===== src/Rtmp/Flow.antt =====
-- src/rtmp/rtmp_chunk_flow.c: the bytes of the handshake and of chunk headers.
pub mod Wire
pub mod Basic
pub mod Send
pub mod Receive
pub mod Link
pub mod Header
pub mod Delivery
pub mod Agreement
pub mod Shake
use lib_open_rtmp.Base.{
  ℕ, ◌+◌, ◌-◌, ◌*◌, ◌%◌, ◌^◌, Bool, true, false, ◌&&◌, ◌||◌, Option, none, some, List, [], ◌∷◌,
  ◌++◌, bit_and, bit_or, u8, u32, add64, ◌<<<◌, ◌>>>◌, ltb, leb, ◌==◌, if◌then◌else◌, length,
  get_or,
}
use lib_open_rtmp.Util.Memutil.{
  ntoh_read_ud, ntoh_write_ud, htol_write_ud, ltoh_read_ud, ntoh_write_ud3, ntoh_read_ud3,
  timestamp_get_delta, to_time,
}
use lib_open_rtmp.Util.Ringbuffer.{Ring, copy_read, copy_write}
use lib_open_rtmp.Rtmp.Errors.{Err, again, invalid, inadequate_chunk}
use lib_open_rtmp.Rtmp.Session.{Result, got, failed, M, pure, fail, next, ◌>>=◌, ◌>>◌}
use lib_open_rtmp.Rtmp.Message.{Message, Entry}
use lib_open_rtmp.Rtmp.Cache.{Cache, Ref, Alloc, load, store, cache_get, cache_find}

-- `if( ringbuffer_copy_write( out, bytes, n ) < n ) return RTMP_ERR_AGAIN;`
unfoldable pub write_all : List ℕ → M Ring (Unit {0})
write_all bytes out =
    let (n, out') = copy_write out bytes in
    (if ltb n (length bytes) then failed again else got tt, out')

-- `if( ringbuffer_copy_read( in, buffer, n ) < n ) return RTMP_ERR_AGAIN;`
unfoldable pub read_all : ℕ → M Ring (List ℕ)
read_all n input =
    let (m, bytes, input') = copy_read input n in
    (if ltb m n then failed again else got bytes, input')

unfoldable pub emit_shake_0 : M Ring (Unit {0})
emit_shake_0 = write_all (3 ∷ [])

unfoldable pub emit_shake_1 : ℕ → List ℕ → M Ring (Unit {0})
emit_shake_1 timestamp nonce = do
  write_all (ntoh_write_ud timestamp)
  write_all (0 ∷ 0 ∷ 0 ∷ 0 ∷ [])
  write_all nonce

unfoldable pub emit_shake_2 : ℕ → ℕ → List ℕ → M Ring (Unit {0})
emit_shake_2 timestamp1 timestamp2 nonce = do
  write_all (ntoh_write_ud timestamp1)
  write_all (ntoh_write_ud timestamp2)
  write_all nonce

unfoldable pub read_shake_0 : M Ring (Unit {0})
read_shake_0 = do version ← read_all 1; if get_or version 0 0 == 3 then pure tt else fail invalid

-- The timestamp and the nonce that were received.
unfoldable pub read_shake_1 : ℕ → M Ring (ℕ × List ℕ)
read_shake_1 len = do
  timestamp_in ← read_all 4
  zero_in ← read_all 4
  nonce ← read_all len
  pure (ntoh_read_ud timestamp_in, nonce)

unfoldable pub read_shake_2 : ℕ → M Ring (ℕ × ℕ × List ℕ)
read_shake_2 len = do
  timestamp1_in ← read_all 4
  timestamp2_in ← read_all 4
  nonce ← read_all len
  pure (ntoh_read_ud timestamp1_in, ntoh_read_ud timestamp2_in, nonce)

unfoldable pub emit_hdr_basic : ℕ → ℕ → M Ring (Unit {0})
emit_hdr_basic format id =
    let first = bit_and format 3 <<< 6 in
    if ltb id 2
    then fail invalid
    else if ltb id 64
    then write_all (bit_or first (bit_and id 63) ∷ [])
    else if ltb id (256 + 64)
    then write_all (first ∷ u8 (id - 64) ∷ [])
    else if ltb id (65535 + 64)
    then write_all (bit_or first 1 ∷ u8 ((id - 64) >>> 8) ∷ u8 (id - 64) ∷ [])
    else fail invalid

-- The format and the chunk stream id.
unfoldable pub read_hdr_basic : M Ring (ℕ × ℕ)
read_hdr_basic = do
  buffer ← read_all 1
  let first = get_or buffer 0 0
  let format = bit_and (first >>> 6) 3
  let low = bit_and first 63
  if ltb 1 low
      then pure (format, low)
      else if low == 0
      then (do more ← read_all 1; pure (format, get_or more 0 0 + 64))
      else (do
        more ← read_all 2
        pure (format, bit_or (get_or more 0 0 <<< 8) (get_or more 1 0) + 64))

-- Both directions work on a ring and a header cache.
abbrev pub Link : Type 0
Link = Ring × Cache

-- A step on the ring alone.
abbrev pub on_ring : {A : Type 0} → M Ring A → M Link A
on_ring m (r, c) = let (x, r') = m r in (x, (r', c))

-- A pointer from the cache, or RTMP_ERR_INADEQUATE_CHUNK for `nullptr`.
unfoldable pub entry_for : Alloc → ℕ → M Link Ref
entry_for alloc id (r, c) =
    let (found, c') = cache_get alloc c id in
    (elim found [ none ↦ failed inadequate_chunk | some ref ↦ got ref ], (r, c'))

-- `rtmp_cache_find` for stream id 0; the id that the message then has comes with it.
unfoldable pub entry_to_emit : Alloc → Message → M Link (Ref × Message)
entry_to_emit alloc message (r, c) =
    if message.chunk_stream_id == 0
    then (let (ref, c') = cache_find c in
        (
          got (ref, record message { chunk_stream_id = (load c' ref).msg.chunk_stream_id }),
          (r, c'),
        ))
    else next (λ ref. pure (ref, message)) (entry_for alloc message.chunk_stream_id (r, c))

-- The timestamp to use: a zero one repeats the previous one on a known stream.
unfoldable pub effective_time : Entry → Message → ℕ
effective_time previous message =
    if previous.initialized && message.timestamp == 0
    then previous.msg.timestamp
    else message.timestamp

unfoldable pub effective_delta : Entry → Message → ℕ
effective_delta previous message =
    if previous.initialized && message.timestamp == 0
    then 0
    else timestamp_get_delta previous.msg.timestamp message.timestamp

-- How much of the header the peer knows already.
unfoldable pub header_format : Entry → Message → ℕ
unfolding effective_delta
header_format previous message =
    if previous.initialized && previous.msg.message_stream_id == message.message_stream_id
    then (if previous.msg.message_type == message.message_type
          && previous.msg.message_length == message.message_length
        then (if previous.time_delta == to_time (effective_delta previous message) then 3 else 2)
        else 1)
    else 0

-- The number in the timestamp field.
unfoldable pub wire_time : Entry → Message → ℕ
unfolding effective_time
wire_time previous message =
    if ltb 0 (header_format previous message)
    then to_time (timestamp_get_delta previous.msg.timestamp (effective_time previous message))
    else effective_time previous message

-- The bytes after the basic header.
unfoldable pub header_fields : ℕ → ℕ → Message → List ℕ
header_fields fmt timestamp message =
    (if leb fmt 2
      then ntoh_write_ud3 (if leb 0xFFFFFF timestamp then 0xFFFFFF else timestamp)
      else [])
    ++ (if leb fmt 1
        then ntoh_write_ud3 message.message_length ++ message.message_type ∷ []
        else [])
    ++ (if leb fmt 0 then htol_write_ud message.message_stream_id else [])
    ++ (if leb 0xFFFFFF timestamp then ntoh_write_ud timestamp else [])

-- What the cache holds of a message that is being sent.
unfoldable pub emitted_entry : Entry → Message → Entry
unfolding effective_delta
emitted_entry previous message = record previous {
  msg = message;
  time_delta = to_time (effective_delta previous message);
  initialized = true;
}

-- The message as it is after the call: its chunk stream id may have been filled in.
unfoldable pub emit_hdr : Alloc → Message → M Link Message
emit_hdr alloc given = do
  (ref, message) ← entry_to_emit alloc given
  previous ← (λ s. (got (load s.1 ref), s))
  (λ s. (got tt, (s.0, store s.1 ref (emitted_entry previous message))))
  on_ring (emit_hdr_basic (header_format previous message) message.chunk_stream_id)
  on_ring (
      write_all
        (header_fields (header_format previous message) (wire_time previous message) message))
  pure message

-- A store through `message`, which points into the cache.
abbrev pub modify : Ref → (Message → Message) → M Link (Unit {0})
modify ref f (r, c) = (got tt, (r, store c ref (record (load c ref) { msg = f (load c ref).msg })))

-- The 24-bit time field, which format 3 has not.
unfoldable pub read_time : ℕ → M Link ℕ
read_time fmt =
    if leb fmt 2 then (do buffer ← on_ring (read_all 3); pure (ntoh_read_ud3 buffer)) else pure 0

-- Length and type, which formats 0 and 1 have.
unfoldable pub read_length : Ref → ℕ → M Link (Unit {0})
read_length ref fmt =
    if leb fmt 1
    then (do
      buffer ← on_ring (read_all 4)
      modify ref (λ m. record m {
        message_length = ntoh_read_ud3 buffer;
        message_type = get_or buffer 3 0;
      }))
    else pure tt

-- The message stream id, which format 0 has.
unfoldable pub read_stream : Ref → ℕ → M Link (Unit {0})
read_stream ref fmt =
    if leb fmt 0
    then (do
      buffer ← on_ring (read_all 4)
      modify ref (λ m. record m { message_stream_id = ltoh_read_ud buffer }))
    else pure tt

-- The extended timestamp.
unfoldable pub read_extended : ℕ → ℕ → ℕ → M Link ℕ
read_extended fmt old_time new_time =
    if (fmt == 3 && old_time == 0xFFFFFF) || new_time == 0xFFFFFF
    then (do buffer ← on_ring (read_all 4); pure (ntoh_read_ud buffer))
    else pure new_time

-- The pointer to the message that was read.
unfoldable pub read_hdr : Alloc → M Link Ref
read_hdr alloc = do
  (fmt, id) ← on_ring read_hdr_basic
  ref ← entry_for alloc id
  old_time ← (λ s. (got (u32 (load s.1 ref).msg.timestamp), s))
  modify ref (λ m. record m { chunk_stream_id = u32 id })
  new_time ← read_time fmt
  read_length ref fmt
  read_stream ref fmt
  time ← read_extended fmt old_time new_time
  modify ref (λ m. record m { timestamp = if fmt == 0 then time else add64 m.timestamp time })
  pure ref
