-- ===== src/Rtmp/Stream.antt =====
-- src/rtmp/rtmp_stream.c: a connection with callbacks by the type of message.
pub mod Dispatch
pub mod Delivery
pub mod Send
pub mod Commands
use lib_open_rtmp.Base.{
  ℕ, suc, Bool, true, false, Option, none, some, List, [], ◌∷◌, ◌++◌, if◌then◌else◌, length,
}
use lib_open_rtmp.Amf.Builder.{Amf}
use lib_open_rtmp.Rtmp.Errors.{Err, ok, invalid, oom}
use lib_open_rtmp.Rtmp.Conn.{Conn, conn_create, CbStatus}
use lib_open_rtmp.Rtmp.Assembler.{Assembler, assembler_create}

-- A message type, a user control event or a connection event that is left open.
abbrev pub any : ℕ
any = 0xFFFFFF

-- A callback with the type it is for; function pointers and user data are numbers.
pub record MsgCb : Type 0 where
  pub type : ℕ
  pub callback : ℕ
  pub user : ℕ

-- `rtmp_amf_cb_t`: the name is null for every command.
pub record AmfCb : Type 0 where
  pub name : Option (List ℕ)
  pub type : ℕ
  pub callback : ℕ
  pub user : ℕ

-- `rtmp_call_cb_t`
pub record CallCb : Type 0 where
  pub seq_num : ℕ
  pub issued : ℕ
  pub callback : ℕ
  pub user : ℕ

pub record LogCb : Type 0 where
  pub callback : ℕ
  pub user : ℕ

-- `struct rtmp_stream_args`, less the stream.
pub record Args : Type 0 where
  pub message : ℕ
  pub message_stream : ℕ
  pub timestamp : ℕ

-- A call of a callback: the function, its arguments, and the user data. The line, the file and the
-- text of a log entry are left out.
pub data StreamCall : Type 0 where
  msg_call : ℕ → Args → List ℕ → ℕ → ℕ → StreamCall
  amf_call : ℕ → Args → Amf → ℕ → StreamCall
  usr_call : ℕ → Args → ℕ → ℕ → ℕ → StreamCall
  event_call : ℕ → ℕ → ℕ → StreamCall
  log_call : ℕ → Err → ℕ → StreamCall

-- `struct rtmp_stream`; `calls` is the history of calls of the callbacks, latest first. The scratch
-- block is `none` where it is null although its length is not 0.
pub record Stream : Type 0 where
  pub connection : Conn
  pub assembler : Assembler
  pub chunk_id : ℕ
  pub message_id : ℕ
  pub scratch : Option (List ℕ)
  pub seq_num : ℕ
  pub amf_callback : List AmfCb
  pub msg_callback : List MsgCb
  pub usr_callback : List MsgCb
  pub event_callback : List MsgCb
  pub log_callback : List LogCb
  pub call_callback : List CallCb
  pub calls : List StreamCall

abbrev pub max_chunk_cache : ℕ
max_chunk_cache = 0xFFFF

unfoldable pub stream_create : List ℕ → List ℕ → Bool → Stream
unfolding conn_create assembler_create
stream_create block_in block_out client = record {
  connection = conn_create block_in block_out client;
  assembler = assembler_create max_chunk_cache;
  chunk_id = 0;
  message_id = 0;
  scratch = some [];
  seq_num = 1;
  amf_callback = [];
  msg_callback = [];
  usr_callback = [];
  event_callback = [];
  log_callback = [];
  call_callback = [];
  calls = [];
}

-- What VEC_PUSH and `malloc` answer: whether there is memory.
pub record Memory : Type 0 where
  pub for_entry : Bool
  pub for_name : Bool

-- Without memory for the name the entry has been added, for every command.
unfoldable pub reg_amf :
    (memory : Memory) (type : ℕ) (name : Option (List ℕ)) (proc : Option ℕ) (user : ℕ) (s : Stream)
    → Err × Stream
reg_amf memory type name none user s = (invalid, s)
reg_amf memory type name (some proc) user s = if memory.for_entry then named name else (oom, s)
  where
    entry : Option (List ℕ) → Stream
    entry n = record s {
      amf_callback =
          s.amf_callback ++ (record { name = n; type = type; callback = proc; user = user }) ∷ [];
    }

    named : Option (List ℕ) → Err × Stream
    named none = (ok, entry none)
    named (some n) = if memory.for_name then (ok, entry (some n)) else (oom, entry none)

abbrev typed_entry : ℕ → ℕ → ℕ → MsgCb
typed_entry type proc user = record { type = type; callback = proc; user = user }

unfoldable pub reg_msg :
    (room : Bool) (type : ℕ) (proc : Option ℕ) (user : ℕ) (s : Stream) → Err × Stream
reg_msg room type none user s = (invalid, s)
reg_msg room type (some proc) user s =
    if room
    then (ok, record s { msg_callback = s.msg_callback ++ typed_entry type proc user ∷ [] })
    else (oom, s)

unfoldable pub reg_usr :
    (room : Bool) (type : ℕ) (proc : Option ℕ) (user : ℕ) (s : Stream) → Err × Stream
reg_usr room type none user s = (invalid, s)
reg_usr room type (some proc) user s =
    if room
    then (ok, record s { usr_callback = s.usr_callback ++ typed_entry type proc user ∷ [] })
    else (oom, s)

unfoldable pub reg_event :
    (room : Bool) (type : ℕ) (proc : Option ℕ) (user : ℕ) (s : Stream) → Err × Stream
reg_event room type none user s = (invalid, s)
reg_event room type (some proc) user s =
    if room
    then (ok, record s { event_callback = s.event_callback ++ typed_entry type proc user ∷ [] })
    else (oom, s)

unfoldable pub reg_log : (room : Bool) (proc : Option ℕ) (user : ℕ) (s : Stream) → Err × Stream
reg_log room none user s = (invalid, s)
reg_log room (some proc) user s =
    if room
    then (
      ok,
      record s { log_callback = s.log_callback ++ (record { callback = proc; user = user }) ∷ [] },
    )
    else (oom, s)

unfoldable pub set_chunk_stream : ℕ → Stream → Stream
set_chunk_stream chunk_id s = record s { chunk_id = chunk_id }

unfoldable pub set_msg_stream : ℕ → Stream → Stream
set_msg_stream msg_id s = record s { message_id = msg_id }
