-- ===== src/Rtmp/Stream/Dispatch.antt =====
-- src/rtmp/rtmp_stream.c: the callbacks that an arriving message is passed to.
use lib_open_rtmp.Base.{
  ℕ, zero, suc, Bool, true, false, ◌&&◌, ◌||◌, Option, none, some, List, [], ◌∷◌, add64, ltb, leb,
  ◌==◌, if◌then◌else◌, length, drop, get_elem?,
}
use lib_open_rtmp.Util.Memutil.{ntoh_read_s, ntoh_read_ud}
use lib_open_rtmp.Amf.{sign_extend}
use lib_open_rtmp.Amf.Kind
use lib_open_rtmp.Amf.Value.{AmfValue, amf_value_is_like}
use lib_open_rtmp.Amf.Builder.{Amf, amf_create}
use lib_open_rtmp.Amf.Access.{amf_get_item, amf_value_get_string, amf_value_get_integer}
use lib_open_rtmp.Amf.Read.{read_done, read_error, read_undefined, out_of_fuel, amf_read}
use lib_open_rtmp.Rtmp.Errors.{Err}
use lib_open_rtmp.Rtmp.Message.{Message}
use lib_open_rtmp.Rtmp.Conn.{CbStatus, cb_continue, cb_error, cb_abort}
use lib_open_rtmp.Rtmp.Assembler.{is_continue}
use lib_open_rtmp.Rtmp.Stream.{
  MsgCb, AmfCb, CallCb, LogCb, Args, StreamCall, msg_call, amf_call, usr_call, event_call, log_call,
  Stream, any,
}

-- What the callbacks answer, from the history of their calls.
abbrev pub Answers : Type 0
Answers = List StreamCall → CbStatus

unfoldable pub invoke : Answers → StreamCall → Stream → CbStatus × Stream
invoke answers c s = let calls = c ∷ s.calls in (answers calls, record s { calls = calls })

-- The loop over the callbacks of one kind: those that are for the message, until one of them
-- answers something else than `cb_continue`.
unfoldable pub call_each :
    {Cb : Type 0} (answers : Answers) (applies : Cb → Bool) (to_call : Cb → StreamCall)
    (cbs : List Cb) (s : Stream)
    → CbStatus × Stream
unfolding invoke
call_each answers applies to_call [] s = (cb_continue, s)
call_each answers applies to_call (cb ∷ cbs) s =
    let (ret, after) = if applies cb then invoke answers (to_call cb) s else (cb_continue, s) in
    let rest = call_each answers applies to_call cbs after in
    if is_continue ret then rest else (ret, after)

abbrev pub is_for : ℕ → MsgCb → Bool
is_for type cb = cb.type == any || cb.type == type

unfoldable pub call_msg : Answers → Args → List ℕ → ℕ → Stream → CbStatus × Stream
unfolding call_each
call_msg answers args bytes remaining s =
    call_each answers (is_for args.message)
      (λ cb. msg_call cb.callback args bytes remaining cb.user) s.msg_callback s

unfoldable pub call_usr : Answers → Args → ℕ → ℕ → ℕ → Stream → CbStatus × Stream
unfolding call_each
call_usr answers args event param1 param2 s =
    call_each answers (is_for event) (λ cb. usr_call cb.callback args param1 param2 cb.user)
      s.usr_callback s

unfoldable pub event_proc : Answers → ℕ → Stream → CbStatus × Stream
unfolding call_each
event_proc answers event s =
    call_each answers (is_for event) (λ cb. event_call cb.callback event cb.user) s.event_callback s

unfoldable pub log_proc : Answers → Err → List LogCb → Stream → Stream
unfolding invoke
log_proc answers err [] s = s
log_proc answers err (cb ∷ cbs) s =
    log_proc answers err cbs (invoke answers (log_call cb.callback err cb.user) s).1

-- `strncmp( a, b, n ) == 0`, where the lists go on with the final 0.
unfoldable pub strncmp_equal : ℕ → List ℕ → List ℕ → Bool
strncmp_equal zero xs ys = true
strncmp_equal (suc n) [] [] = true
strncmp_equal (suc n) [] (y ∷ ys) = y == 0
strncmp_equal (suc n) (x ∷ xs) [] = x == 0
strncmp_equal (suc n) (x ∷ xs) (y ∷ ys) = x == y && (x == 0 || strncmp_equal n xs ys)

-- The name of a command: the first item, when it is like a string.
unfoldable pub command_name : Amf → Option (List ℕ)
unfolding amf_get_item amf_value_is_like amf_value_get_string
command_name amf = elim (amf_get_item amf 0) [ none ↦ none | some item ↦ name_of item ]
  where
    name_of : AmfValue → Option (List ℕ)
    name_of item = if amf_value_is_like item Kind.string then amf_value_get_string item else none

abbrev pub call_timeout : ℕ
call_timeout = 10000

unfoldable pub erase_call : ℕ → List CallCb → List CallCb
erase_call i [] = []
erase_call zero (c ∷ cs) = cs
erase_call (suc i) (c ∷ cs) = c ∷ erase_call i cs

-- What a round of the loop over the results comes to.
pub data Visit : Type 0 where
  stops : CbStatus → Stream → Visit
  goes_on : ℕ → Stream → Visit

-- After an entry is taken out, the index is set back only if the loop goes on.
unfoldable pub after_erase : ℕ → Stream → Visit
after_erase i s = if ltb (suc i) (length s.call_callback) then goes_on i s else stops cb_continue s

-- An entry that was called is taken out while its time has not run out.
unfoldable pub after_call : (now i : ℕ) (cb : CallCb) → CbStatus × Stream → Visit
unfolding after_erase erase_call
after_call now i cb (cb_continue, s) =
    if ltb now (add64 cb.issued call_timeout)
    then after_erase i (record s { call_callback = erase_call i s.call_callback })
    else goes_on (suc i) s
after_call now i cb (ret, s) = stops ret s

unfoldable pub visit :
    (answers : Answers) (now seq_num : ℕ) (args : Args) (amf : Amf) (i : ℕ) (s : Stream)
    → Option CallCb
    → Visit
unfolding after_call invoke
visit answers now seq_num args amf i s none = stops cb_continue s
visit answers now seq_num args amf i s (some cb) =
    if cb.seq_num == seq_num
    then after_call now i cb (invoke answers (amf_call cb.callback args amf cb.user) s)
    else goes_on (suc i) s

-- The loop over the callbacks for results of calls, a round for each entry at most.
unfoldable pub call_results :
    (answers : Answers) (now seq_num : ℕ) (args : Args) (amf : Amf) (fuel i : ℕ) (s : Stream)
    → CbStatus × Stream
unfolding visit
call_results answers now seq_num args amf zero i s = (cb_continue, s)
call_results answers now seq_num args amf (suc fuel) i s =
    elim (visit answers now seq_num args amf i s (get_elem? s.call_callback i)) [
      | stops ret t ↦ (ret, t)
      | goes_on j t ↦ call_results answers now seq_num args amf fuel j t
    ]

-- The second item of a command, when it is like an integer, selects the results that wait for it;
-- `none` where the number does not fit an `int`, which C leaves undefined.
unfoldable pub results_of :
    (answers : Answers) (now : ℕ) (args : Args) (amf : Amf)
    → Option AmfValue
    → Stream
    → Option (CbStatus × Stream)
unfolding amf_value_is_like amf_value_get_integer call_results
results_of answers now args amf none s = some (cb_continue, s)
results_of answers now args amf (some item) s =
    if amf_value_is_like item Kind.integer
    then elim (amf_value_get_integer item) [
      | none ↦ none
      | some seq_num ↦ some (call_results answers now seq_num args amf (length s.call_callback) 0 s)
    ]
    else some (cb_continue, s)

-- Whether a command of that name is for the callback: only the length of the command's name is
-- compared. `none` is a comparison with a null pointer.
unfoldable pub named_for : (name expected : Option (List ℕ)) → Option Bool
unfolding strncmp_equal
named_for name none = some true
named_for (some name) (some expected) = some (strncmp_equal (length name) expected name)
named_for none (some expected) = none

abbrev pub is_hit : Option Bool → Bool
is_hit none = false
is_hit (some h) = h

abbrev pub is_amf_for : ℕ → AmfCb → Bool
is_amf_for type cb = cb.type == any || cb.type == type

-- The loop over the callbacks for commands. `none` where a command without a name meets a callback
-- with one, which C leaves undefined.
unfoldable pub call_named :
    (answers : Answers) (args : Args) (amf : Amf) (name : Option (List ℕ)) (cbs : List AmfCb)
    (s : Stream)
    → Option (CbStatus × Stream)
unfolding named_for invoke
call_named answers args amf name [] s = some (cb_continue, s)
call_named answers args amf name (cb ∷ cbs) s =
    let hit : Option Bool =
      if is_amf_for args.message cb then named_for name cb.name else some false in
    let (ret, after) =
      if is_hit hit
      then invoke answers (amf_call cb.callback args amf cb.user) s
      else (cb_continue, s) in
    let rest = call_named answers args amf name cbs after in
    elim hit [ none ↦ none | some h ↦ if is_continue ret then rest else some (ret, after) ]

-- `rtmp_stream_call_amf`
unfoldable pub call_amf :
    (answers : Answers) (now : ℕ) → Args → Amf → Stream → Option (CbStatus × Stream)
unfolding command_name results_of amf_get_item call_named
call_amf answers now args amf s = elim (results_of answers now args amf (amf_get_item amf 1) s) [
  | none ↦ none
  | some (ret, t) ↦
      if is_continue ret
      then call_named answers args amf (command_name amf) t.amf_callback t
      else some (ret, t)
]

abbrev pub msg_user_ctl : ℕ
msg_user_ctl = 4

-- The messages of AMF data: of AMF3 from 15 to 17, of AMF0 from 18 to 20.
abbrev pub is_amf_message : ℕ → Bool
is_amf_message type = leb 15 type && leb type 20

-- A user control message.
unfoldable pub usr_proc : Answers → Args → List ℕ → Stream → CbStatus × Stream
unfolding ntoh_read_s ntoh_read_ud call_usr
usr_proc answers args contents s =
    if leb 2 (length contents)
    then call_usr answers args (sign_extend 32 (ntoh_read_s contents))
        (if leb 6 (length contents) then ntoh_read_ud (drop 2 contents) else 0)
        (if leb 10 (length contents) then ntoh_read_ud (drop 6 contents) else 0) s
    else (cb_abort, s)

module _ (malloc : ℕ → Bool) (answers : Answers) (now junk : ℕ) where
  -- A message of AMF data, of either version, is read as AMF0. `none` is a reading that does not
  -- end or that C leaves undefined.
  unfoldable pub amf_proc : Args → List ℕ → Stream → Option (CbStatus × Stream)
  unfolding amf_create amf_read call_amf
  amf_proc args contents s =
      if malloc 1
      then elim (amf_read malloc (suc (length contents)) junk amf_create contents) [
        | read_done n amf ↦ call_amf answers now args amf s
        | read_error result n amf ↦ some (cb_error, s)
        | read_undefined ↦ none
        | out_of_fuel ↦ none
      ]
      else some (cb_error, s)

  -- By the type of the message, after the callbacks for messages have been called.
  unfoldable pub by_type :
      (args : Args) (contents : List ℕ) (remaining : ℕ) → Stream → Option (CbStatus × Stream)
  unfolding amf_proc usr_proc
  by_type args contents remaining s =
      if is_amf_message args.message
      then if remaining == 0 then amf_proc args contents s else some (cb_abort, s)
      else if args.message == msg_user_ctl
      then some (if remaining == 0 then usr_proc answers args contents s else (cb_abort, s))
      else some (cb_continue, s)

  unfoldable pub chunk_proc :
      (contents : List ℕ) (remaining : ℕ) (msg : Message) (s : Stream) → Option (CbStatus × Stream)
  unfolding call_msg by_type
  chunk_proc contents remaining msg s =
      let args : Args = record {
        message = msg.message_type;
        message_stream = msg.message_stream_id;
        timestamp = msg.timestamp;
      } in
      let (ret, after) = call_msg answers args contents remaining s in
      if is_continue ret then by_type args contents remaining after else some (ret, after)
