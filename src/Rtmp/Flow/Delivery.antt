-- ===== src/Rtmp/Flow/Delivery.antt =====
-- src/rtmp/rtmp_chunk_flow.c: a header from `rtmp_chunk_emit_hdr` to `rtmp_chunk_read_hdr`.
use lib_open_rtmp.Base.{
  ℕ, ◌%◌, ◌^◌, ◌≤◌, ◌<◌, ◌≡◌, ◌≢◌, refl, sym, ap, ◌∙◌, subst, List, [], ◌++◌, arith, leb,
  if◌then◌else◌, u32,
}
use lib_open_rtmp.Util.Memutil.{
  ntoh_write_ud, htol_write_ud, ntoh_write_ud3, timestamp_get_delta, to_time,
}
use lib_open_rtmp.Rtmp.Message.{Message, Entry, blank}
use lib_open_rtmp.Rtmp.Cache.{Cache, static, Alloc, load, cache_reset}
use lib_open_rtmp.Rtmp.Cache.Static.{
  IsSound, store-IsSound, load-store_self, load-cache_reset, cache_reset-IsSound,
}
use lib_open_rtmp.Rtmp.Flow.{
  emit_hdr, read_hdr, read_hdr_basic, header_format, header_fields, wire_time, emitted_entry,
}
use lib_open_rtmp.Rtmp.Flow.Basic.{basic_bytes, read_basic}
use lib_open_rtmp.Rtmp.Flow.Send.{
  header_format-lt, previous, form, header_bytes, cache_after, emit_hdr-Sends,
}
use lib_open_rtmp.Rtmp.Flow.Link.{Sends, Receives, Receives-on_ring, changed}
use lib_open_rtmp.Rtmp.Flow.Receive.{capped, length_bytes}
use lib_open_rtmp.Rtmp.Flow.Header.{received, wire1, read_hdr-Receives, changed-IsSound}
use lib_open_rtmp.Rtmp.Flow.Agreement.{
  Synced, Carries, knows_stream, knows_length, Agrees, received-Agrees, next_time, time_received,
  no_delta, reassoc,
}

-- The caches after a header has been sent and received.
pub record Delivery (alloc alloc' : Alloc) (m : Message) (c d : Cache) : Type 0 where
  pub bytes : List ℕ
  pub writer : Cache
  pub reader : Cache
  pub sent : Sends (emit_hdr alloc m) bytes c m writer
  pub read :
      (rest : List ℕ)
      → Receives (read_hdr alloc') (bytes ++ rest) d (static m.chunk_stream_id) rest reader
  pub agrees : Agrees (load reader (static m.chunk_stream_id)).msg m
  pub synced :
      Synced (load writer (static m.chunk_stream_id)) (load reader (static m.chunk_stream_id)).msg
  pub writer_sound : IsSound writer
  pub reader_sound : IsSound reader

module _ (alloc alloc' : Alloc) (m : Message) (c d : Cache) (lo : 2 ≤ m.chunk_stream_id)
    (hi : m.chunk_stream_id < 10) (sound_c : IsSound c) (sound_d : IsSound d)
    (carries : Carries (load c (static m.chunk_stream_id)) m)
    (sync : Synced
      (load c (static m.chunk_stream_id))
      (load d (static m.chunk_stream_id)).msg) where
  abbrev e : Entry
  e = previous alloc m c lo hi

  abbrev fmt : ℕ
  fmt = header_format e m

  abbrev after : Message → Message
  after =
      received fmt m.chunk_stream_id m.message_length m.message_type m.message_stream_id
        (wire_time e m)

  abbrev d' : Cache
  d' = changed d (static m.chunk_stream_id) after

  -- A header of format 3 carries no time, and the reader looks for none.
  last :
      fmt ≡ 3
      → (wire_time e m ≡ 0) × (u32 (load d (static m.chunk_stream_id)).msg.timestamp ≢ 0xFFFFFF)
  last three =
      let known = knows_stream e m (omega (arith, three)) in
      let (same_time, small) = carries.repeated three in
      (
        next_time e m carries (omega (arith, three))
            ∙ ap (λ t. to_time (timestamp_get_delta e.msg.timestamp t)) same_time
            ∙ no_delta e.msg.timestamp carries.old_fits,
        λ f. small (omega (arith, f, same_time, (sync known.0).3)),
      )

  abbrev wire : List ℕ → List ℕ
  wire rest =
      wire1 alloc' fmt m.chunk_stream_id m.message_length m.message_type m.message_stream_id
        (wire_time e m) rest d sound_d (header_format-lt e m) hi carries.length_fits
        carries.stream_fits last

  wire_lem :
      (rest : List ℕ)
      → header_bytes alloc m c lo hi ++ rest ≡ basic_bytes fmt (form alloc m c lo hi) ++ wire rest
  unfolding header_fields
  wire_lem rest =
      reassoc (basic_bytes fmt (form alloc m c lo hi))
        (if leb fmt 2 then ntoh_write_ud3 (capped (wire_time e m)) else [])
        (if leb fmt 1 then length_bytes m.message_length m.message_type else [])
        (if leb fmt 0 then htol_write_ud m.message_stream_id else [])
        (if leb 0xFFFFFF (wire_time e m) then ntoh_write_ud (wire_time e m) else []) rest

  header_read :
      (rest : List ℕ)
      → Receives
          (read_hdr alloc')
          (header_bytes alloc m c lo hi ++ rest)
          d
          (static m.chunk_stream_id)
          rest
          d'
  header_read rest =
      subst (λ bs. Receives (read_hdr alloc') bs d (static m.chunk_stream_id) rest d')
        (sym (wire_lem rest))
        (read_hdr-Receives alloc' fmt m.chunk_stream_id m.message_length m.message_type
          m.message_stream_id (wire_time e m) rest d sound_d (header_format-lt e m) hi
          carries.length_fits carries.stream_fits last
          (basic_bytes fmt (form alloc m c lo hi) ++ wire rest)
          (Receives-on_ring read_hdr_basic (basic_bytes fmt (form alloc m c lo hi) ++ wire rest)
            (fmt, m.chunk_stream_id) (wire rest) d
            (read_basic fmt m.chunk_stream_id (form alloc m c lo hi) (wire rest)
              (header_format-lt e m))))

  in_reader :
      (load d' (static m.chunk_stream_id)).msg ≡ after (load d (static m.chunk_stream_id)).msg
  in_reader =
      ap (λ t. t.msg)
        (load-store_self d m.chunk_stream_id
          (record (load d (static m.chunk_stream_id)) {
            msg = after (load d (static m.chunk_stream_id)).msg;
          })
          sound_d hi)

  in_writer : (load (cache_after alloc m c lo hi) (static m.chunk_stream_id)).msg ≡ m
  unfolding emitted_entry
  in_writer = ap (λ t. t.msg) (load-store_self c m.chunk_stream_id (emitted_entry e m) sound_c hi)

  all_agree : Agrees (load d' (static m.chunk_stream_id)).msg m
  all_agree =
      subst (λ p. Agrees p m) (sym in_reader)
        (received-Agrees fmt (wire_time e m) m (load d (static m.chunk_stream_id)).msg
          (header_format-lt e m) hi
          (λ h. let (known, stream) = knows_stream e m h in (sync known).0 ∙ stream)
          (λ h.
            let (known, stream) = knows_stream e m (omega arith) in
            let (type, len) = knows_length e m h in ((sync known).1 ∙ type, (sync known).2 ∙ len))
          (time_received e m (load d (static m.chunk_stream_id)).msg carries sync))

  -- For a chunk stream id from 2 to 9, when the reader's last message agrees with the writer's entry:
  -- the bytes that `rtmp_chunk_emit_hdr` writes when there is room, with a header of any of the four
  -- formats, are read by `rtmp_chunk_read_hdr`, whatever follows them, as the same stream ids, type
  -- and length and the same timestamp modulo 2 ^ 32, and then the two sides agree again. The length
  -- is below 2 ^ 24, a zero timestamp does not follow another one on a known stream, and a header
  -- of format 3 repeats the timestamp, which is not 0xFFFFFF modulo 2 ^ 32.
  pub read_hdr-emit_hdr : Delivery alloc alloc' m c d
  read_hdr-emit_hdr = record {
    bytes = header_bytes alloc m c lo hi;
    writer = cache_after alloc m c lo hi;
    reader = d';
    sent = emit_hdr-Sends alloc m c lo hi;
    read = header_read;
    agrees = all_agree;
    synced = λ _. (
      all_agree.1 ∙ sym (ap (λ t. t.message_stream_id) in_writer),
      all_agree.2 ∙ sym (ap (λ t. t.message_type) in_writer),
      all_agree.3 ∙ sym (ap (λ t. t.message_length) in_writer),
      all_agree.4 ∙ sym (ap (λ t. t.timestamp % 2 ^ 32) in_writer),
    );
    writer_sound = store-IsSound c m.chunk_stream_id (emitted_entry e m) sound_c;
    reader_sound = changed-IsSound d m.chunk_stream_id after sound_d;
  }

blank_format : (i : ℕ) (m : Message) → header_format (blank i) m ≡ 0
unfolding header_format
blank_format i m = refl

blank-Carries :
    (i : ℕ) (m : Message)
    → m.message_length < 2 ^ 24
    → m.message_stream_id < 2 ^ 32
    → m.timestamp < 2 ^ 64
    → Carries (blank i) m
blank-Carries i m fits stream time = record {
  length_fits = fits;
  stream_fits = stream;
  time_fits = time;
  old_fits = omega arith;
  zero_time = λ f. absurd (ground (arith, f));
  repeated = λ f. absurd (omega (arith, f, blank_format i m));
}

-- After rtmp_cache_reset of the writer's cache the header of the next message on a chunk stream from
-- 2 to 9 has format 0, and it is read, by any reader whose cache has its ten static entries, whatever
-- they hold, as the message that was sent, its timestamp modulo 2 ^ 32, and then the two sides agree. The length is below 2 ^ 24, the stream id
-- below 2 ^ 32 and the timestamp below 2 ^ 64.
pub read_hdr-emit_hdr-cache_reset :
    (alloc alloc' : Alloc) (m : Message) (c d : Cache)
    → 2 ≤ m.chunk_stream_id
    → m.chunk_stream_id < 10
    → m.message_length < 2 ^ 24
    → m.message_stream_id < 2 ^ 32
    → m.timestamp < 2 ^ 64
    → IsSound d
    → (header_format (load (cache_reset c) (static m.chunk_stream_id)) m ≡ 0)
      × Delivery alloc alloc' m (cache_reset c) d
read_hdr-emit_hdr-cache_reset alloc alloc' m c d lo hi fits stream time sound =
    let e = load-cache_reset c m.chunk_stream_id hi in
    (
      ap (λ t. header_format t m) e ∙ blank_format m.chunk_stream_id m,
      read_hdr-emit_hdr alloc alloc' m (cache_reset c) d lo hi (cache_reset-IsSound c) sound
          (subst (λ t. Carries t m) (sym e) (blank-Carries m.chunk_stream_id m fits stream time))
          (subst (λ t. Synced t (load d (static m.chunk_stream_id)).msg) (sym e)
            (λ f. absurd (ground (arith, f)))),
    )
