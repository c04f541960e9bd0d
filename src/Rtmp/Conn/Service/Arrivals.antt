-- ===== src/Rtmp/Conn/Service/Arrivals.antt =====
-- src/rtmp/rtmp_chunk_conn.c: what receiving does to the state of the handshake.
use lib_open_rtmp.Base.{
  ℕ, ◌≡◌, refl, ◌∙◌, ◌&&◌, List, Option, none, some, ltb, leb, ◌==◌, inl, inr, Bool-cases, length,
}
use lib_open_rtmp.Util.Ringbuffer.{get_read_buf}
use lib_open_rtmp.Rtmp.Session.{Result, got, failed}
use lib_open_rtmp.Rtmp.Message.{Message}
use lib_open_rtmp.Rtmp.Cache.{Alloc, Ref, load}
use lib_open_rtmp.Rtmp.Flow.{read_hdr}
use lib_open_rtmp.Rtmp.Conn.{Conn, Callback, call, failure, or_fail}
use lib_open_rtmp.Rtmp.Conn.Shake.Step.{view, connects}
use lib_open_rtmp.Rtmp.Conn.Receive.{
  recv_set_chunk_size, entry_in, abort_found, abort_entries, abort_stream, recv_abort,
  use_bandwidth, recv_set_peer_bwidth, recv_ack, recv_win_ack_size, recv_control, end_control,
  clamp_control, buffer_control, recv_cmd, dispatch, recv_issue, recv_partial, begin_message,
  recv_chunk, recv_message, recv,
}
use lib_open_rtmp.Rtmp.Conn.Send.{acknowledge}
use lib_open_rtmp.Rtmp.Conn.Service.Quiet.{
  Quiet, Quiet-bind, Quiet-branch, Quiet-if, chunk_call-Quiet, or_fail-Quiet,
  set_window_ack_size-Quiet,
}

module _ (callback : Callback) (alloc : Alloc) (fresh : List ℕ) where
  recv_set_chunk_size-Quiet : Quiet (recv_set_chunk_size callback alloc fresh)
  unfolding recv_set_chunk_size view
  recv_set_chunk_size-Quiet c = Quiet-branch (leb 4 c.control_message_len) _ _ (view c) refl refl

  recv_ack-Quiet : Quiet (recv_ack callback alloc fresh)
  unfolding recv_ack view
  recv_ack-Quiet c = Quiet-branch (leb 4 c.control_message_len) _ _ (view c) refl refl

  recv_win_ack_size-Quiet : Quiet (recv_win_ack_size callback alloc fresh)
  unfolding recv_win_ack_size acknowledge view
  recv_win_ack_size-Quiet c = Quiet-branch (leb 4 c.control_message_len) _ _ (view c) refl refl

  use_bandwidth-Quiet : (b : Option (ℕ × ℕ)) → Quiet (use_bandwidth callback alloc fresh b)
  unfolding use_bandwidth view
  use_bandwidth-Quiet none c = refl
  use_bandwidth-Quiet (some (limit, new)) c =
      Quiet-branch (new == c.self_window_size) _ _ (view c) refl (
        set_window_ack_size-Quiet callback alloc fresh new
          (record c { peer_bandwidth_type = limit }))

  recv_set_peer_bwidth-Quiet : Quiet (recv_set_peer_bwidth callback alloc fresh)
  unfolding recv_set_peer_bwidth
  recv_set_peer_bwidth-Quiet c =
      Quiet-branch (leb 5 c.control_message_len) _ _ (view c) (use_bandwidth-Quiet _ c) refl

  entry_in-Quiet : (id : ℕ) → Quiet (entry_in callback alloc fresh id)
  unfolding entry_in view
  entry_in-Quiet id c = refl

  abort_found-Quiet : (id : ℕ) (x y : Result Ref) → Quiet (abort_found callback alloc fresh id x y)
  unfolding abort_found abort_entries call view connects
  abort_found-Quiet id (got cached) (got agmsg) c = refl
  abort_found-Quiet id (got cached) (failed e) c = refl
  abort_found-Quiet id (failed e) y c = refl

  abort_stream-Quiet : (id : ℕ) → Quiet (abort_stream callback alloc fresh id)
  unfolding abort_stream
  abort_stream-Quiet id c =
      abort_found-Quiet id _ _ _
      ∙ entry_in-Quiet 0 (entry_in callback alloc fresh id c).1
      ∙ entry_in-Quiet id c

  recv_abort-Quiet : Quiet (recv_abort callback alloc fresh)
  unfolding recv_abort
  recv_abort-Quiet c =
      Quiet-branch (leb 4 c.control_message_len) _ _ (view c) (abort_stream-Quiet _ c) refl

  recv_control-Quiet : (type : ℕ) → Quiet (recv_control callback alloc fresh type)
  unfolding recv_control
  recv_control-Quiet type = Quiet-if (type == 1) _ _ recv_set_chunk_size-Quiet (
      Quiet-if (type == 2) _ _ recv_abort-Quiet (
        Quiet-if (type == 6) _ _ recv_set_peer_bwidth-Quiet (
          Quiet-if (type == 3) _ _ recv_ack-Quiet
            (Quiet-if (type == 5) _ _ recv_win_ack_size-Quiet (λ c. refl)))))

  end_control-Quiet : (type : ℕ) → Quiet (end_control callback alloc fresh type)
  unfolding end_control view
  end_control-Quiet type c = recv_control-Quiet type c

  buffer_control-Quiet :
      (c : Conn) (bytes : List ℕ) → view (buffer_control callback alloc fresh c bytes) ≡ view c
  unfolding buffer_control view
  buffer_control-Quiet c bytes = refl

  recv_cmd-Quiet :
      (bytes : List ℕ) (left type : ℕ) → Quiet (recv_cmd callback alloc fresh bytes left type)
  unfolding recv_cmd
  recv_cmd-Quiet bytes left type c =
      Quiet-branch ((length bytes == left) && (left == 0)) _ _ (view c) refl (
        Quiet-branch (left == 0) _ _ (view c) (end_control-Quiet type _ ∙ buffer_control-Quiet c _)
          (Quiet-branch (clamp_control callback alloc fresh c (length bytes) == 0) _ _ (view c)
            (buffer_control-Quiet c _) (buffer_control-Quiet c _)))

  dispatch-Quiet :
      (bytes : List ℕ) (left : ℕ) (m : Message) → Quiet (dispatch callback alloc fresh bytes left m)
  unfolding dispatch
  dispatch-Quiet bytes left m =
      Quiet-if ((m.chunk_stream_id == 2) && (m.message_stream_id == 0)) _ _
        (recv_cmd-Quiet bytes left m.message_type) (chunk_call-Quiet callback bytes left m)

  recv_issue-Quiet :
      (previous : Ref) (available : ℕ) → Quiet (recv_issue callback alloc fresh previous available)
  unfolding recv_issue view
  recv_issue-Quiet previous available c = dispatch-Quiet _ _ _ _

  recv_partial-Quiet : Quiet (recv_partial callback alloc fresh)
  unfolding recv_partial view
  recv_partial-Quiet =
      Quiet-bind (λ s. entry_in callback alloc fresh s.partial_msg s) _
        (λ c. entry_in-Quiet c.partial_msg c)
        (λ previous c.
          Quiet-branch (ltb (get_read_buf c.input).1 c.partial_chunk) _ _ (view c)
            (recv_issue-Quiet previous _ _) (recv_issue-Quiet previous _ _))

  begin_message-Quiet :
      (previous : Ref) (c : Conn) → view (begin_message callback alloc fresh previous c).1 ≡ view c
  unfolding begin_message view
  begin_message-Quiet previous c =
      elim (Bool-cases ((load c.stream_cache_in previous).processed == 0)) [
        | inl e ↦ rw e refl
        | inr e ↦ rw e refl
      ]

  recv_chunk-Quiet : (previous : Ref) → Quiet (recv_chunk callback alloc fresh previous)
  unfolding recv_chunk view
  recv_chunk-Quiet previous c =
      Quiet-branch
        (ltb (get_read_buf (begin_message callback alloc fresh previous c).1.input).1
          (begin_message callback alloc fresh previous c).0)
        _ _ (view c) (recv_issue-Quiet previous _ _ ∙ begin_message-Quiet previous c)
        (recv_issue-Quiet previous _ _ ∙ begin_message-Quiet previous c)

  recv_message-Quiet : Quiet (recv_message callback alloc fresh)
  unfolding recv_message view
  recv_message-Quiet =
      Quiet-bind
        (or_fail callback failure (λ s.
          let (x, link) = read_hdr alloc (s.input, s.stream_cache_in) in
          (x, record s { input = link.0; stream_cache_in = link.1 })))
        _ (or_fail-Quiet callback _ (λ c. refl))
        (λ msg.
          Quiet-bind
            (λ s. entry_in callback alloc fresh (load s.stream_cache_in msg).msg.chunk_stream_id s)
            (recv_chunk callback alloc fresh) (λ c. entry_in-Quiet _ c) recv_chunk-Quiet)

  pub recv-Quiet : Quiet (recv callback alloc fresh)
  unfolding recv
  recv-Quiet c =
      Quiet-branch (ltb 0 c.partial_chunk) _ _ (view c) (recv_partial-Quiet c)
        (recv_message-Quiet c)
