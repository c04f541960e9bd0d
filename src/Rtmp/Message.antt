-- ===== src/Rtmp/Message.antt =====
-- The chunk message header and its cached form, with the layout of the structs in memory (LP64:
-- 48 bytes, the padding zero).
use lib_open_rtmp.Base.{ℕ, Bool, true, false, List, [], ◌∷◌, ◌++◌, slice, ◌==◌, not}
use lib_open_rtmp.Util.Memutil.{host_bytes, host_value}

-- `rtmp_chunk_stream_message_t`
pub record Message : Type 0 where
  pub chunk_stream_id : ℕ
  pub timestamp : ℕ
  pub message_length : ℕ
  pub message_stream_id : ℕ
  pub message_type : ℕ

-- `struct rtmp_chunk_stream_message_internal`
pub record Entry : Type 0 where
  pub msg : Message
  pub time_delta : ℕ
  pub processed : ℕ
  pub initialized : Bool

-- All bytes zero but the chunk stream id.
abbrev pub blank : ℕ → Entry
blank id = record {
  msg = record {
    chunk_stream_id = id;
    timestamp = 0;
    message_length = 0;
    message_stream_id = 0;
    message_type = 0;
  };
  time_delta = 0;
  processed = 0;
  initialized = false;
}

abbrev pub entry_size : ℕ
entry_size = 48

unfoldable pub flag_byte : Bool → ℕ
flag_byte true = 1
flag_byte false = 0

unfoldable pub entry_bytes : Entry → List ℕ
unfolding host_bytes flag_byte
entry_bytes e =
    host_bytes 4 e.msg.chunk_stream_id
    ++ 0 ∷ 0 ∷ 0 ∷ 0 ∷ host_bytes 8 e.msg.timestamp
    ++ host_bytes 8 e.msg.message_length
    ++ host_bytes 4 e.msg.message_stream_id
    ++ e.msg.message_type ∷ 0 ∷ 0 ∷ 0 ∷ host_bytes 8 e.time_delta
    ++ host_bytes 4 e.processed
    ++ flag_byte e.initialized ∷ 0 ∷ 0 ∷ 0 ∷ []

unfoldable pub entry_of_bytes : List ℕ → Entry
unfolding host_value
entry_of_bytes bs = record {
  msg = record {
    chunk_stream_id = host_value (slice bs 0 4);
    timestamp = host_value (slice bs 8 8);
    message_length = host_value (slice bs 16 8);
    message_stream_id = host_value (slice bs 24 4);
    message_type = host_value (slice bs 28 1);
  };
  time_delta = host_value (slice bs 32 8);
  processed = host_value (slice bs 40 4);
  initialized = not (host_value (slice bs 44 1) == 0);
}
