-- ===== src/Rtmp/Flow/Send.antt =====
-- What `rtmp_chunk_emit_hdr` writes for a message on one of the first ten chunk streams.
use lib_open_rtmp.Base.{ℕ, ◌≤◌, ◌<◌, ◌≡◌, refl, List, [], ◌++◌, arith, append-nil, ne→not_==}
use lib_open_rtmp.Util.Ringbuffer.{Ring}
use lib_open_rtmp.Rtmp.Session.{got, pure, ◌>>◌}
use lib_open_rtmp.Rtmp.Message.{Message, Entry}
use lib_open_rtmp.Rtmp.Cache.{Cache, static, Alloc, load, store}
use lib_open_rtmp.Rtmp.Cache.Static.{cache_get_static}
use lib_open_rtmp.Rtmp.Flow.{
  on_ring, write_all, emit_hdr_basic, emit_hdr, entry_to_emit, entry_for, emitted_entry,
  header_format, header_fields, wire_time,
}
use lib_open_rtmp.Rtmp.Flow.Wire.{write_all-Emits}
use lib_open_rtmp.Rtmp.Flow.Basic.{Form, form_of, basic_bytes, emit_basic}
use lib_open_rtmp.Rtmp.Flow.Link.{Sends, Sends-bind, Sends-on_ring, Sends-silent}

pub header_format-lt : (e : Entry) (m : Message) → header_format e m < 4
unfolding header_format
header_format-lt e m = ground arith

module _ (alloc : Alloc) (m : Message) (c : Cache) (lo : 2 ≤ m.chunk_stream_id)
    (hi : m.chunk_stream_id < 10) where
  abbrev pub previous : Entry
  previous = load c (static m.chunk_stream_id)

  abbrev pub form : Form m.chunk_stream_id
  form = form_of m.chunk_stream_id lo (omega arith)

  -- The bytes of the whole header.
  abbrev pub header_bytes : List ℕ
  header_bytes =
      basic_bytes (header_format previous m) form
      ++ header_fields (header_format previous m) (wire_time previous m) m

  abbrev pub cache_after : Cache
  cache_after = store c (static m.chunk_stream_id) (emitted_entry previous m)

  entry_found :
      (r : Ring) → entry_to_emit alloc m (r, c) ≡ (got (static m.chunk_stream_id, m), (r, c))
  unfolding entry_to_emit entry_for
  entry_found r =
      rw
        (
          ne→not_== {a = m.chunk_stream_id} {b = 0} (omega arith),
          cache_get_static alloc c m.chunk_stream_id hi,
        )
        refl

  basic_sent :
      Sends
        (on_ring (emit_hdr_basic (header_format previous m) m.chunk_stream_id))
        (basic_bytes (header_format previous m) form)
        cache_after
        tt
        cache_after
  basic_sent =
      Sends-on_ring (emit_hdr_basic (header_format previous m) m.chunk_stream_id)
        (basic_bytes (header_format previous m) form) tt cache_after
        (rw
          (emit_basic (header_format previous m) m.chunk_stream_id form
            (header_format-lt previous m))
          (write_all-Emits (basic_bytes (header_format previous m) form)))

  abbrev fields : List ℕ
  fields = header_fields (header_format previous m) (wire_time previous m) m

  fields_sent : Sends (on_ring (write_all fields) >> pure m) fields cache_after m cache_after
  fields_sent = rw append-nil at (
      Sends-bind (on_ring (write_all fields)) (λ _. pure m) fields cache_after tt cache_after [] m
        cache_after
        (Sends-on_ring (write_all fields) fields tt cache_after (write_all-Emits fields))
        (Sends-silent (pure m) cache_after m cache_after (λ r. refl)))

  pub emit_hdr-Sends : Sends (emit_hdr alloc m) header_bytes c m cache_after
  unfolding emit_hdr
  emit_hdr-Sends =
      Sends-bind (entry_to_emit alloc m) _ [] c (static m.chunk_stream_id, m) c header_bytes m
        cache_after
        (Sends-silent (entry_to_emit alloc m) c (static m.chunk_stream_id, m) c entry_found)
        (Sends-bind (on_ring (emit_hdr_basic (header_format previous m) m.chunk_stream_id))
          (λ _. on_ring (write_all fields) >> pure m) (basic_bytes (header_format previous m) form)
          cache_after tt cache_after fields m cache_after basic_sent fields_sent)
