-- ===== src/Rtmp/Stream/Commands.antt =====
-- src/rtmp/rtmp_stream.c: the AMF messages that a stream sends, and calls with their callbacks.
use lib_open_rtmp.Base.{
  ℕ, suc, ◌^◌, Bool, Option, none, some, List, [], ◌∷◌, ◌++◌, u32, ltb, ◌==◌, if◌then◌else◌,
}
use lib_open_rtmp.Amf.Builder.{
  Amf, Pushed, pushed, refused, crashed, and_then, caller, amf_create, amf_push_string,
  amf_push_integer,
}
use lib_open_rtmp.Amf.Access.{int_of_double}
use lib_open_rtmp.Amf.Simple.{Arg, amf_push_simple_list}
use lib_open_rtmp.Rtmp.Errors.{Err, ok, oom}
use lib_open_rtmp.Rtmp.Cache.{Alloc}
use lib_open_rtmp.Rtmp.Conn.{Callback}
use lib_open_rtmp.Rtmp.Conn.Send.{or_zero}
use lib_open_rtmp.Rtmp.Stream.{Stream}
use lib_open_rtmp.Rtmp.Stream.Send.{
  StreamSent, amferr, prepare_amf, send_on_conn, msg_amf0_dat, msg_amf0_so, msg_amf0_cmd,
}

module _ (callback : Callback) (alloc : Alloc) (fresh : List ℕ) (block : ℕ → Option (List ℕ)) where
  -- `none` where the scratch block is null and a part of it is sent, which C leaves undefined.
  unfoldable pub send_prepared :
      ℕ → ℕ → ℕ → ℕ → Option ℕ → Option (List ℕ) → Stream → Option StreamSent
  send_prepared type chunk_id msg_id timestamp written none s = none
  send_prepared type chunk_id msg_id timestamp written (some bytes) s =
      some (send_on_conn callback alloc fresh type chunk_id msg_id timestamp bytes written s)

  -- A message that was sent in part goes on with the scratch block as it is.
  unfoldable pub send_amf : ℕ → ℕ → ℕ → ℕ → Amf → Option ℕ → Stream → Option StreamSent
  unfolding prepare_amf send_prepared
  send_amf type chunk_id msg_id timestamp amf written s =
      if or_zero written == 0
      then prepared (prepare_amf block amf s)
      else send_prepared type chunk_id msg_id timestamp written s.scratch s
    where
      prepared : Err × Stream → Option StreamSent
      prepared (ok, t) = send_prepared type chunk_id msg_id timestamp written t.scratch t
      prepared (e, t) = some (e, 0, t)

  unfoldable pub send_cmd2 : ℕ → ℕ → ℕ → Amf → Option ℕ → Stream → Option StreamSent
  unfolding send_amf
  send_cmd2 chunk_id msg_id timestamp amf written s =
      send_amf msg_amf0_cmd chunk_id msg_id timestamp amf written s

  unfoldable pub send_so2 : ℕ → ℕ → ℕ → Amf → Option ℕ → Stream → Option StreamSent
  unfolding send_amf
  send_so2 chunk_id msg_id timestamp amf written s =
      send_amf msg_amf0_so chunk_id msg_id timestamp amf written s

  unfoldable pub send_dat2 : ℕ → ℕ → ℕ → Amf → Option ℕ → Stream → Option StreamSent
  unfolding send_amf
  send_dat2 chunk_id msg_id timestamp amf written s =
      send_amf msg_amf0_dat chunk_id msg_id timestamp amf written s

  unfoldable pub send_cmd : ℕ → Amf → Option ℕ → Stream → Option StreamSent
  unfolding send_cmd2
  send_cmd timestamp amf written s = send_cmd2 s.chunk_id s.message_id timestamp amf written s

  unfoldable pub send_so : ℕ → Amf → Option ℕ → Stream → Option StreamSent
  unfolding send_so2
  send_so timestamp amf written s = send_so2 s.chunk_id s.message_id timestamp amf written s

  unfoldable pub send_dat : ℕ → Amf → Option ℕ → Stream → Option StreamSent
  unfolding send_dat2
  send_dat timestamp amf written s = send_dat2 s.chunk_id s.message_id timestamp amf written s

  abbrev pub without_count : Option StreamSent → Option (Err × Stream)
  without_count none = none
  without_count (some (ret, written, s)) = some (ret, s)

  -- The command of an object that was built, or its error. `none` is undefined.
  unfoldable pub issue_built : ℕ → ℕ → Option Pushed → Stream → Option (Err × Stream)
  unfolding send_amf amferr
  issue_built chunk_id msg_id (some (pushed amf)) s =
      without_count (send_amf msg_amf0_cmd chunk_id msg_id 0 amf none s)
  issue_built chunk_id msg_id (some (refused e amf)) s = some (amferr e, s)
  issue_built chunk_id msg_id (some crashed) s = none
  issue_built chunk_id msg_id none s = none

module _ (callback : Callback) (alloc : Alloc) (fresh : List ℕ) (block : ℕ → Option (List ℕ))
    (malloc : ℕ → Bool) where
  abbrev pub with_list : List Arg → Pushed → Option Pushed
  unfolding amf_push_simple_list
  with_list list (pushed amf) = amf_push_simple_list malloc list amf
  with_list list other = some other

  -- A command: its name, its number as an `int`, and the arguments.
  unfoldable pub issue_va : ℕ → ℕ → List ℕ → ℕ → List Arg → Stream → Option (Err × Stream)
  unfolding amf_create amf_push_string amf_push_integer issue_built
  issue_va chunk_id msg_id name id list s =
      if malloc 1
      then issue_built callback alloc fresh block chunk_id msg_id
          (with_list list
            (and_then (amf_push_string malloc (caller name) amf_create) (amf_push_integer id)))
          s
      else some (oom, s)

  -- The number is a `double`; `none` where it does not fit an `int`.
  unfoldable pub respond2 : ℕ → ℕ → List ℕ → ℕ → List Arg → Stream → Option (Err × Stream)
  unfolding int_of_double issue_va
  respond2 chunk_id msg_id name id list s = elim (int_of_double id) [
    | none ↦ none
    | some n ↦ issue_va chunk_id msg_id name n list s
  ]

  unfoldable pub respond : List ℕ → ℕ → List Arg → Stream → Option (Err × Stream)
  unfolding respond2
  respond name id list s = respond2 3 0 name id list s

  abbrev pub next_seq_num : Stream → Stream
  next_seq_num s = record s { seq_num = u32 (suc s.seq_num) }

  -- The callback, when there is one, waits for the number of the call; `room` says whether there
  -- is memory for it. A number that does not fit an `int` is undefined.
  unfoldable pub issue_next : ℕ → ℕ → List ℕ → List Arg → Stream → Option (Err × Stream)
  unfolding issue_va
  issue_next chunk_id msg_id name list s =
      if ltb s.seq_num (2 ^ 31)
      then issue_va chunk_id msg_id name s.seq_num list (next_seq_num s)
      else none

  unfoldable pub call2_va :
      (room : Bool) (now : ℕ)
      → ℕ
      → ℕ
      → List ℕ
      → Option ℕ
      → ℕ
      → List Arg
      → Stream
      → Option (Err × Stream)
  unfolding issue_next
  call2_va room now chunk_id msg_id name none user list s = issue_next chunk_id msg_id name list s
  call2_va room now chunk_id msg_id name (some proc) user list s =
      if room
      then issue_next chunk_id msg_id name list (record s {
        call_callback =
            s.call_callback
            ++ (record { seq_num = s.seq_num; issued = now; callback = proc; user = user }) ∷ [];
      })
      else some (oom, s)

  unfoldable pub stream_call :
      (room : Bool) (now : ℕ) → List ℕ → Option ℕ → ℕ → List Arg → Stream → Option (Err × Stream)
  unfolding call2_va
  stream_call room now name proc user list s = call2_va room now 3 0 name proc user list s
