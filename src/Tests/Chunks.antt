-- ===== src/Tests/Chunks.antt =====
-- src/rtmp/rtmp_chunk_flow.c and rtmp_chunk_cache.c on concrete messages.
use lib_open_rtmp.Base.{ℕ, ◌≤◌, ◌≡◌, refl, false, List, [], ◌∷◌, ◌++◌, none, arith, length}
use lib_open_rtmp.Util.Memutil.{ntoh_write_ud}
use lib_open_rtmp.Util.Ringbuffer.{Ring}
use lib_open_rtmp.Rtmp.Message.{Message}
use lib_open_rtmp.Rtmp.Cache.{static, Alloc, load, blanks, cache_create, cache_reset}
use lib_open_rtmp.Rtmp.Cache.Static.{cache_create-IsSound}
use lib_open_rtmp.Rtmp.Flow.{
  emit_hdr_basic, read_hdr_basic, emit_shake_1, read_shake_1, emit_shake_2, read_shake_2,
  header_format,
}
use lib_open_rtmp.Rtmp.Flow.Wire.{Ready, Emits, Parses}
use lib_open_rtmp.Rtmp.Flow.Basic.{read_hdr_basic-emit_hdr_basic}
use lib_open_rtmp.Rtmp.Flow.Shake.{read_shake_1-emit_shake_1, read_shake_2-emit_shake_2}
use lib_open_rtmp.Rtmp.Flow.Delivery.{Delivery, read_hdr-emit_hdr, read_hdr-emit_hdr-cache_reset}
use lib_open_rtmp.Rtmp.Flow.Agreement.{Carries, Synced}

-- A ring that holds one byte, 4.
abbrev version_ring : Ring
version_ring = record {
  mem = 4 ∷ 0 ∷ [];
  read_offset = 0;
  write_offset = 0;
  read_frozen = false;
  write_frozen = false;
  start = 0;
  len = 1;
  size = 2;
}

version_ring-Ready : Ready version_ring (4 ∷ [])
version_ring-Ready = record {
  valid = record {
    storage = refl;
    pos = omega arith;
    small = omega arith;
    start_in = omega arith;
    fits = omega arith;
    read_in = omega arith;
    read_idle = λ e. refl;
    write_idle = λ e. refl;
  };
  idle = refl;
  bytes = refl;
}

abbrev three_nonce : List ℕ
three_nonce = 5 ∷ 6 ∷ 7 ∷ []

read_shake_1-emit_shake_1_example :
    let bs = ntoh_write_ud 1000 ++ 0 ∷ 0 ∷ 0 ∷ 0 ∷ three_nonce in
    Emits (emit_shake_1 1000 three_nonce) bs tt
    × ((rest : List ℕ)
        → Parses (read_shake_1 (length three_nonce)) (bs ++ rest) (1000, three_nonce) rest)
read_shake_1-emit_shake_1_example =
    read_shake_1-emit_shake_1 1000 three_nonce (omega arith) (omega arith)

read_shake_2-emit_shake_2_example :
    let bs = ntoh_write_ud 1000 ++ (ntoh_write_ud 2000 ++ three_nonce) in
    Emits (emit_shake_2 1000 2000 three_nonce) bs tt
    × ((rest : List ℕ)
        → Parses (read_shake_2 (length three_nonce)) (bs ++ rest) (1000, 2000, three_nonce) rest)
read_shake_2-emit_shake_2_example =
    read_shake_2-emit_shake_2 1000 three_nonce (omega arith) (omega arith) 2000 (omega arith)

read_hdr_basic-emit_hdr_basic_example :
    (bs : List ℕ) × (length bs ≤ 3)
    × Emits (emit_hdr_basic 2 1000) bs tt
    × ((rest : List ℕ) → Parses read_hdr_basic (bs ++ rest) (2, 1000) rest)
read_hdr_basic-emit_hdr_basic_example =
    read_hdr_basic-emit_hdr_basic 2 1000 (omega arith) (omega arith) (omega arith)

abbrev pub no_memory : Alloc
no_memory n = none

abbrev pub audio : Message
audio = record {
  chunk_stream_id = 4;
  timestamp = 0x01000000;
  message_length = 300;
  message_stream_id = 1;
  message_type = 8;
}

audio_first : Carries (load cache_create (static 4)) audio
unfolding load cache_create blanks header_format
audio_first = record {
  length_fits = omega arith;
  stream_fits = omega arith;
  time_fits = omega arith;
  old_fits = omega arith;
  zero_time = λ e z. absurd (ground (arith, e));
  repeated = λ e. absurd (omega (arith, e));
}

nothing_sent : Synced (load cache_create (static 4)) (load cache_create (static 4)).msg
unfolding load cache_create blanks
nothing_sent = λ e. absurd (ground (arith, e))

read_hdr-emit_hdr_example : Delivery no_memory no_memory audio cache_create cache_create
read_hdr-emit_hdr_example =
    read_hdr-emit_hdr no_memory no_memory audio cache_create cache_create (omega arith)
      (omega arith) cache_create-IsSound cache_create-IsSound audio_first nothing_sent

read_hdr-emit_hdr-cache_reset_example :
    (header_format (load (cache_reset cache_create) (static audio.chunk_stream_id)) audio ≡ 0)
    × Delivery no_memory no_memory audio (cache_reset cache_create) cache_create
read_hdr-emit_hdr-cache_reset_example =
    read_hdr-emit_hdr-cache_reset no_memory no_memory audio cache_create cache_create (omega arith)
      (omega arith) (omega arith) (omega arith) (omega arith) cache_create-IsSound
