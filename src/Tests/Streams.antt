-- ===== src/Tests/Streams.antt =====
-- src/rtmp/rtmp_stream.c, rtmp_chunk_assembler.c and rtmp_app.c on concrete messages.
use lib_open_rtmp.Base.{
  ℕ, ◌+◌, ◌≤◌, ◌≡◌, refl, true, Bool, none, some, Option, List, [], ◌∷◌, arith, length,
}
use lib_open_rtmp.Amf.Builder.{Amf}
use lib_open_rtmp.Amf.Write.Items.{format_items}
use lib_open_rtmp.Amf.Kind
use lib_open_rtmp.Amf.Value.{AmfValue, v_string, v_integer, v_double, v_empty}
use lib_open_rtmp.Rtmp.Message.{Message}
use lib_open_rtmp.Rtmp.Conn.{Call, CbStatus, cb_continue, cb_abort}
use lib_open_rtmp.Rtmp.Assembler.{Assembler, find_buffer, unused, assembler_cb}
use lib_open_rtmp.Rtmp.Assembler.Bounds.{assembler_cb_bounds}
use lib_open_rtmp.Util.Ringbuffer.{clear}
use lib_open_rtmp.Rtmp.Assembler.Whole.{holding}
use lib_open_rtmp.Rtmp.Assembler.Pieces.{joined, arrive, Delivered, AllFilled, total}
use lib_open_rtmp.Rtmp.Assembler.Begin.{Begins, appended, recycled}
use lib_open_rtmp.Rtmp.Assembler.Fresh.{assembler_cb-Delivered}
use lib_open_rtmp.Rtmp.App.{app_list_register}
use lib_open_rtmp.Rtmp.App.Names.{Registered, enough_memory, app_list_register-Registered}
use lib_open_rtmp.Rtmp.Stream.{Args, MsgCb, Stream, StreamCall, msg_call, stream_create}
use lib_open_rtmp.Rtmp.Stream.Dispatch.{Answers, call_each, is_for}
use lib_open_rtmp.Rtmp.Stream.Delivery.{due, Serves, call_each-Serves}
use lib_open_rtmp.Tests.Amf.{command}

abbrev video : Message
video = record {
  chunk_stream_id = 6;
  timestamp = 0;
  message_length = 3;
  message_stream_id = 1;
  message_type = 9;
}

abbrev assembler : Assembler
assembler = record { max_size = 4; buffers = []; calls = [] }

abbrev consents : List Call → CbStatus
consents calls = cb_continue

none_found : find_buffer [] 0 0 6 1 ≡ unused 0
unfolding find_buffer
none_found = refl

filled : AllFilled ((1 ∷ 2 ∷ []) ∷ [])
unfolding AllFilled
filled = (omega arith, tt)

all_fits : total ((1 ∷ 2 ∷ []) ∷ []) + 1 ≤ 4
unfolding total
all_fits = omega arith

assembler_cb-Delivered_example :
    Delivered consents video
      (some (0 ∷ 0 ∷ 0 ∷ 0 ∷ []))
      (1 ∷ 2 ∷ 3 ∷ [])
      []
      (arrive consents video (some (0 ∷ 0 ∷ 0 ∷ 0 ∷ [])) ((1 ∷ 2 ∷ []) ∷ []) (3 ∷ []) assembler)
unfolding joined
assembler_cb-Delivered_example =
    assembler_cb-Delivered consents video (some (0 ∷ 0 ∷ 0 ∷ 0 ∷ [])) assembler 4
      ((1 ∷ 2 ∷ []) ∷ []) (3 ∷ [])
      (appended (0 ∷ 0 ∷ 0 ∷ 0 ∷ []) refl none_found (omega arith) refl refl) (omega arith) filled
      (omega arith) all_fits

-- Behind the buffer of another message a free one is taken.
abbrev busy : Assembler
busy = record assembler {
  buffers =
      (record { chunk_id = 4; msg_id = 1; buffer = holding [] (0 ∷ 0 ∷ 0 ∷ 0 ∷ []) 4 })
      ∷ (record { chunk_id = 0; msg_id = 1; buffer = holding (7 ∷ []) (0 ∷ 0 ∷ 0 ∷ []) 4 })
      ∷ [];
}

free_one : Begins none video busy 4
unfolding find_buffer clear
free_one =
    recycled 0 (record { chunk_id = 0; msg_id = 1; buffer = holding (7 ∷ []) (0 ∷ 0 ∷ 0 ∷ []) 4 })
      (7 ∷ 0 ∷ 0 ∷ 0 ∷ []) refl refl refl refl

assembler_cb_bounds_example :
    length (assembler_cb consents video none (1 ∷ []) 0 assembler).1.buffers ≤ 21
assembler_cb_bounds_example =
    assembler_cb_bounds consents video none (1 ∷ []) 0 assembler (omega arith)

abbrev live : List ℕ
live = 108 ∷ 105 ∷ 118 ∷ 101 ∷ []

app_list_register-Registered_example : Registered [] live (app_list_register enough_memory [] live)
app_list_register-Registered_example = app_list_register-Registered [] live

abbrev stream : Stream
stream = stream_create [] [] true

abbrev callbacks : List MsgCb
callbacks =
    (record { type = 9; callback = 1; user = 10 })
    ∷ (record { type = 8; callback = 2; user = 20 })
    ∷ (record { type = 0xFFFFFF; callback = 3; user = 30 })
    ∷ []

abbrev to_call : MsgCb → StreamCall
to_call cb =
    msg_call cb.callback (record { message = 9; message_stream = 1; timestamp = 0 }) (7 ∷ []) 0
      cb.user

abbrev refuses : Answers
refuses calls = cb_abort

call_each-Serves_example :
    Serves refuses to_call
      (due (is_for 9) callbacks)
      stream
      (call_each refuses (is_for 9) to_call callbacks stream)
call_each-Serves_example = call_each-Serves refuses (is_for 9) to_call callbacks stream

abbrev args : Args
args = record { message = 20; message_stream = 0; timestamp = 0 }

abbrev always : ℕ → Bool
always n = true

-- A command as the library issues it: its name, its number, and null.
abbrev issued_items : List AmfValue
issued_items = v_string (112 ∷ 108 ∷ 97 ∷ 121 ∷ []) ∷ v_integer 4 ∷ v_empty Kind.null ∷ []

abbrev issued : Amf
issued = record command { items = issued_items }

-- 4 as a double.
abbrev received_items : List AmfValue
received_items =
    v_string (112 ∷ 108 ∷ 97 ∷ 121 ∷ []) ∷ v_double 0x4010000000000000 ∷ v_empty Kind.null ∷ []

abbrev given_block : ℕ → Option (List ℕ)
given_block n = some (format_items received_items)
