-- ===== src/Rtmp/Conn/Service.antt =====
-- src/rtmp/rtmp_chunk_conn.c: the loop of rtmp_chunk_conn_service.
pub mod Quiet
pub mod Arrivals
pub mod Order
use lib_open_rtmp.Base.{
  ℕ, zero, suc, Bool, true, false, not, ◌&&◌, ◌||◌, List, Option, none, some, if◌then◌else◌, ltb,
  ◌==◌, add64,
}
use lib_open_rtmp.Util.Ringbuffer.{
  count, freeze_read, unfreeze_read, freeze_write, unfreeze_write, clear,
}
use lib_open_rtmp.Rtmp.Errors.{pause, is_fatal, code}
use lib_open_rtmp.Rtmp.Session.{Result, got, failed, M, pure}
use lib_open_rtmp.Rtmp.Cache.{Alloc, cache_reset}
use lib_open_rtmp.Rtmp.Conn.{Conn, Callback, call, event, filled, emptied, shaking_done}
use lib_open_rtmp.Rtmp.Conn.Shake.{World, service_shake}
use lib_open_rtmp.Rtmp.Conn.Receive.{recv}

-- The result of a round, the bytes it committed, and the connection.
abbrev pub Round : Type 0
Round = Result (Unit {0}) × ℕ × Conn

abbrev pub committed_ok : Result (Unit {0}) → Bool
committed_ok (got _) = true
committed_ok (failed _) = false

-- `if( ret == RTMP_ERR_PAUSE ) conn->paused = true;`
unfoldable pub note_pause : Round → Round
note_pause (got _, n, conn) = (got tt, n, conn)
note_pause (failed e, n, conn) =
    (failed e, n, if code e == code pause then record conn { paused = true } else conn)

-- A committed change is told; what the callback answers is then the result.
unfoldable pub tell : Callback → Bool → Result (Unit {0}) × Conn → ℕ → Round
unfolding call
tell callback input (ret, conn) n =
    if committed_ok ret && ltb 0 n
    then (let (ret', told) = call callback (event (if input then emptied else filled)) conn in
        (ret', n, told))
    else (ret, n, conn)

-- Unfreezes the input: what was committed, and the connection.
unfoldable pub thaw_input : Result (Unit {0}) → Conn → ℕ × Conn
unfolding unfreeze_read
thaw_input ret conn =
    let (n, thawed) = unfreeze_read conn.input (committed_ok ret) in
    (n, record conn { input = thawed; bytes_in = add64 conn.bytes_in n })

-- Unfreezes the output; a failed round also forgets the headers that were sent.
unfoldable pub thaw_output : Result (Unit {0}) → Conn → ℕ × Conn
unfolding unfreeze_write cache_reset
thaw_output ret conn =
    let (n, thawed) = unfreeze_write conn.output (committed_ok ret) in
    (
      n,
      record conn {
        output = thawed;
        bytes_out = add64 conn.bytes_out n;
        stream_cache_out =
            if committed_ok ret then conn.stream_cache_out else cache_reset conn.stream_cache_out;
      },
    )

-- What follows the unfreezing: the event and the pause.
unfoldable pub settle : Callback → Bool → Result (Unit {0}) → ℕ × Conn → Round
unfolding note_pause tell
settle callback input ret (n, conn) = note_pause (tell callback input (ret, conn) n)

module _ (callback : Callback) (alloc : Alloc) (fresh : List ℕ) where
  -- What a round does between freezing and unfreezing.
  unfoldable pub act : World → Bool → M Conn (Unit {0})
  act w input conn =
      if not (shaking_done conn.status)
      then service_shake callback w input (not input) conn
      else if input
      then recv callback alloc fresh conn
      else pure tt conn

  unfoldable pub input_round : World → Conn → Round
  unfolding freeze_read thaw_input settle
  input_round w conn =
      let (ret, acted) = act w true (record conn { input = freeze_read conn.input }) in
      settle callback true ret (thaw_input ret acted)

  unfoldable pub output_round : World → Conn → Round
  unfolding freeze_write thaw_output settle
  output_round w conn =
      let (ret, acted) = act w false (record conn { output = freeze_write conn.output }) in
      settle callback false ret (thaw_output ret acted)

  -- `none` when there is nothing to serve.
  unfoldable pub round : World → Conn → Option Round
  round w conn =
      if ltb 0 (count conn.input)
      then some (input_round w conn)
      else if ltb 0 (count conn.output) || not (shaking_done conn.status)
      then some (output_round w conn)
      else none

  -- A fatal error clears the input.
  unfoldable pub end_service : Result (Unit {0}) → Conn → Result (Unit {0}) × Conn
  unfolding clear
  end_service (got _) conn = (got tt, conn)
  end_service (failed e) conn =
      (failed e, if is_fatal e then record conn { input = clear conn.input } else conn)

  -- Goes on with `rest` when the round committed something and did not fail.
  unfoldable pub again_or_end : M Conn (Unit {0}) → Option Round → M Conn (Unit {0})
  again_or_end rest none conn = (got tt, conn)
  again_or_end rest (some (ret, n, after)) conn =
      if committed_ok ret && ltb 0 n then rest after else end_service ret after

  -- The loop, on fuel; `worlds` has what the system answers in each round.
  unfoldable pub service_loop : ℕ → (ℕ → World) → M Conn (Unit {0})
  unfolding again_or_end
  service_loop zero worlds conn = (got tt, conn)
  service_loop (suc fuel) worlds conn =
      again_or_end (service_loop fuel worlds) (round (worlds fuel) conn) conn

  unfoldable pub service : ℕ → (ℕ → World) → M Conn (Unit {0})
  unfolding service_loop
  service fuel worlds conn =
      if conn.paused then (failed pause, conn) else service_loop fuel worlds conn
