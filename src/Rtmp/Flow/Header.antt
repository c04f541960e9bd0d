-- ===== src/Rtmp/Flow/Header.antt =====
-- `rtmp_chunk_read_hdr` on the header that `rtmp_chunk_emit_hdr` wrote.
use lib_open_rtmp.Base.{
  ℕ, ◌%◌, ◌^◌, ◌<◌, ◌≡◌, ◌≢◌, refl, ap, ◌∙◌, List, [], ◌++◌, leb, ◌==◌, if◌then◌else◌, u32, add64,
}
use lib_open_rtmp.Util.Memutil.{ntoh_write_ud, htol_write_ud, ntoh_write_ud3}
use lib_open_rtmp.Rtmp.Session.{got, M, pure, ◌>>=◌, ◌>>◌}
use lib_open_rtmp.Rtmp.Message.{Message}
use lib_open_rtmp.Rtmp.Cache.{Cache, Ref, static, Alloc, load}
use lib_open_rtmp.Rtmp.Cache.Static.{IsSound, cache_get_static, store-IsSound}
use lib_open_rtmp.Rtmp.Flow.{
  Link, on_ring, modify, read_hdr_basic, read_time, read_length, read_stream, read_extended,
  read_hdr, entry_for,
}
use lib_open_rtmp.Rtmp.Flow.Link.{
  Receives, Receives-bind, Receives-pure, Receives-silent, changed, changed-changed,
}
use lib_open_rtmp.Rtmp.Flow.Receive.{
  capped, length_bytes, with_length, with_stream, read_time_lem, read_length_lem, read_stream_lem,
  read_extended_lem, modify-Receives,
}

-- The message that the reader has after a header with these fields.
abbrev pub with_id : ℕ → Message → Message
with_id id m = record m { chunk_stream_id = u32 id }

abbrev pub with_time : ℕ → ℕ → Message → Message
with_time fmt time m = record m { timestamp = if fmt == 0 then time else add64 m.timestamp time }

abbrev pub received : ℕ → ℕ → ℕ → ℕ → ℕ → ℕ → Message → Message
received fmt id len type stream w m =
    with_time fmt (w % 2 ^ 32) (with_stream fmt stream (with_length fmt len type (with_id id m)))

pub changed-IsSound :
    (c : Cache) (i : ℕ) (f : Message → Message) → IsSound c → IsSound (changed c (static i) f)
changed-IsSound c i f s =
    store-IsSound c i (record (load c (static i)) { msg = f (load c (static i)).msg }) s

-- What `rtmp_chunk_read_hdr` does after the basic header.
module _ (alloc : Alloc) (fmt i len type stream w : ℕ) (rest : List ℕ) (d : Cache)
    (sound : IsSound d) (h : fmt < 4) (hi : i < 10) (len_fits : len < 2 ^ 24)
    (stream_fits : stream < 2 ^ 32)
    (last : fmt ≡ 3 → (w ≡ 0) × (u32 (load d (static i)).msg.timestamp ≢ 0xFFFFFF)) where
  abbrev pub ref : Ref
  ref = static i

  abbrev old : ℕ
  old = u32 (load d ref).msg.timestamp

  abbrev new_time : ℕ
  new_time = if leb fmt 2 then capped w else 0

  abbrev c1 : Cache
  c1 = changed d ref (with_id i)

  abbrev c2 : Cache
  c2 = changed c1 ref (with_length fmt len type)

  abbrev c3 : Cache
  c3 = changed c2 ref (with_stream fmt stream)

  abbrev c4 : Cache
  c4 = changed c3 ref (with_time fmt (w % 2 ^ 32))

  abbrev pub wire4 : List ℕ
  wire4 = (if leb 0xFFFFFF w then ntoh_write_ud w else []) ++ rest

  abbrev pub wire3 : List ℕ
  wire3 = (if leb fmt 0 then htol_write_ud stream else []) ++ wire4

  abbrev pub wire2 : List ℕ
  wire2 = (if leb fmt 1 then length_bytes len type else []) ++ wire3

  abbrev pub wire1 : List ℕ
  wire1 = (if leb fmt 2 then ntoh_write_ud3 (capped w) else []) ++ wire2

  abbrev finish : ℕ → M Link Ref
  finish time = modify ref (with_time fmt time) >> pure ref

  abbrev fields : ℕ → M Link Ref
  fields o = do
    t ← read_time fmt
    read_length ref fmt
    read_stream ref fmt
    read_extended fmt o t >>= finish

  fields_received : Receives (fields old) wire1 c1 ref rest c4
  fields_received =
      Receives-bind (read_time fmt) _ wire1 c1 new_time wire2 c1 ref rest c4
        (read_time_lem fmt w wire2 c1)
        (Receives-bind (read_length ref fmt) _ wire2 c1 tt wire3 c2 ref rest c4
          (read_length_lem fmt len type i wire3 c1 len_fits)
          (Receives-bind (read_stream ref fmt) _ wire3 c2 tt wire4 c3 ref rest c4
            (read_stream_lem fmt stream i wire4 c2 stream_fits)
            (Receives-bind (read_extended fmt old new_time) finish wire4 c3 (w % 2 ^ 32) rest c3 ref
              rest c4 (read_extended_lem fmt old w rest c3 last h)
              (Receives-bind (modify ref (with_time fmt (w % 2 ^ 32))) (λ _. pure ref) rest c3 tt
                rest c4 ref rest c4
                (modify-Receives ref (with_time fmt (w % 2 ^ 32)) _ rest c3 refl)
                (Receives-pure ref rest c4)))))

  -- The four stores are one.
  stores : c4 ≡ changed d ref (received fmt i len type stream w)
  stores =
      changed-changed c2 i (with_stream fmt stream) (with_time fmt (w % 2 ^ 32))
        (changed-IsSound c1 i (with_length fmt len type) (changed-IsSound d i (with_id i) sound)) hi
      ∙ changed-changed c1 i (with_length fmt len type)
          (λ m. with_time fmt (w % 2 ^ 32) (with_stream fmt stream m))
          (changed-IsSound d i (with_id i) sound) hi
      ∙ changed-changed d i (with_id i)
          (λ m. with_time fmt (w % 2 ^ 32) (with_stream fmt stream (with_length fmt len type m)))
          sound hi

  entry_received : Receives (entry_for alloc i) wire1 d ref wire1 d
  unfolding entry_for
  entry_received =
      Receives-silent (entry_for alloc i) wire1 d ref d
        (λ r. rw (cache_get_static alloc d i hi) refl)

  hdr_received :
      (bs : List ℕ)
      → Receives (on_ring read_hdr_basic) bs d (fmt, i) wire1 d
      → Receives (read_hdr alloc) bs d ref rest c4
  unfolding read_hdr
  hdr_received bs basic =
      Receives-bind (on_ring read_hdr_basic) _ bs d (fmt, i) wire1 d ref rest c4 basic
        (Receives-bind (entry_for alloc i) _ wire1 d ref wire1 d ref rest c4 entry_received (
          Receives-bind (λ s. (got (u32 (load s.1 ref).msg.timestamp), s))
            (λ o. modify ref (with_id i) >> fields o) wire1 d old wire1 d ref rest c4
            (Receives-silent (λ s. (got (u32 (load s.1 ref).msg.timestamp), s)) wire1 d old d
              (λ r. refl))
            (Receives-bind (modify ref (with_id i)) (λ _. fields old) wire1 d tt wire1 c1 ref rest
              c4 (modify-Receives ref (with_id i) _ wire1 d refl) fields_received)))

  pub read_hdr-Receives :
      (bs : List ℕ)
      → Receives (on_ring read_hdr_basic) bs d (fmt, i) wire1 d
      → Receives (read_hdr alloc) bs d ref rest (changed d ref (received fmt i len type stream w))
  read_hdr-Receives bs basic r ready =
      let (s, run, s_ready) = hdr_received bs basic r ready in
      (s, run ∙ ap (λ c. (got ref, (s, c))) stores, s_ready)
