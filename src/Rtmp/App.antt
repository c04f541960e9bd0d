-- ===== src/Rtmp/App.antt =====
-- src/rtmp/rtmp_app.c: the applications of a server, by name, and the calls of their callbacks.
pub mod Names
use lib_open_rtmp.Base.{
  ℕ, zero, suc, Bool, true, false, ◌&&◌, Option, none, some, List, [], ◌∷◌, ◌++◌, ◌==◌,
  if◌then◌else◌, length,
}
use lib_open_rtmp.Amf.Builder.{Amf}
use lib_open_rtmp.Rtmp.Conn.{CbStatus, cb_continue}

-- A function pointer, as a number, and its user data; `none` is a callback that is not set.
abbrev pub Hook : Type 0
Hook = Option (ℕ × ℕ)

-- `struct rtmp_app`
pub record App : Type 0 where
  pub name : List ℕ
  pub on_connect : Hook
  pub on_disconnect : Hook
  pub on_release : Hook
  pub on_fcpublish : Hook
  pub on_publish : Hook
  pub on_metadata : Hook
  pub on_video : Hook
  pub on_audio : Hook

abbrev pub new_app : List ℕ → App
new_app name = record {
  name = name;
  on_connect = none;
  on_disconnect = none;
  on_release = none;
  on_fcpublish = none;
  on_publish = none;
  on_metadata = none;
  on_video = none;
  on_audio = none;
}

-- `struct rtmp_app_list`; a pointer to an application is its index.
abbrev pub AppList : Type 0
AppList = List App

unfoldable pub app_list_create : AppList
app_list_create = []

-- `strcmp( a, b ) == 0` for strings without their final 0.
unfoldable pub same_string : List ℕ → List ℕ → Bool
same_string [] [] = true
same_string (x ∷ xs) (y ∷ ys) = x == y && same_string xs ys
same_string _ _ = false

abbrev pub shift : Option ℕ → Option ℕ
shift none = none
shift (some i) = some (suc i)

unfoldable pub app_list_get : AppList → List ℕ → Option ℕ
unfolding same_string
app_list_get [] appname = none
app_list_get (app ∷ apps) appname =
    let rest = app_list_get apps appname in
    if same_string appname app.name then some 0 else shift rest

-- What `calloc`, `str_dup` and VEC_PUSH answer: whether there is memory.
pub record Memory : Type 0 where
  pub for_app : Bool
  pub for_name : Bool
  pub for_list : Bool

-- When the list cannot grow the source frees the application before it reads its name to free it;
-- here the call just fails.
unfoldable pub app_list_register : Memory → AppList → List ℕ → Option ℕ × AppList
unfolding app_list_get
app_list_register memory apps appname = elim (app_list_get apps appname) [
  | some i ↦ (some i, apps)
  | none ↦
      if memory.for_app && (memory.for_name && memory.for_list)
      then (some (length apps), apps ++ new_app appname ∷ [])
      else (none, apps)
]

unfoldable pub app_set_connect : App → Hook → App
app_set_connect app hook = record app { on_connect = hook }

unfoldable pub app_set_disconnect : App → Hook → App
app_set_disconnect app hook = record app { on_disconnect = hook }

unfoldable pub app_set_release : App → Hook → App
app_set_release app hook = record app { on_release = hook }

unfoldable pub app_set_publish : App → Hook → App
app_set_publish app hook = record app { on_publish = hook }

unfoldable pub app_set_fcpublish : App → Hook → App
app_set_fcpublish app hook = record app { on_fcpublish = hook }

unfoldable pub app_set_metadata : App → Hook → App
app_set_metadata app hook = record app { on_metadata = hook }

unfoldable pub app_set_video : App → Hook → App
app_set_video app hook = record app { on_video = hook }

unfoldable pub app_set_audio : App → Hook → App
app_set_audio app hook = record app { on_audio = hook }

-- What a callback is called with, besides the stream and the application.
pub data AppCall : Type 0 where
  with_amf : Amf → AppCall
  with_names : List ℕ → List ℕ → AppCall
  with_name : List ℕ → AppCall
  with_av : ℕ → ℕ → List ℕ → Bool → AppCall

-- What the callbacks answer, from the function, its arguments and its user data.
abbrev pub Answers : Type 0
Answers = ℕ → AppCall → ℕ → CbStatus

abbrev pub invoke : Answers → Hook → AppCall → CbStatus
invoke answers none c = cb_continue
invoke answers (some (proc, user)) c = answers proc c user

unfoldable pub app_connect : Answers → App → Amf → CbStatus
app_connect answers app value = invoke answers app.on_connect (with_amf value)

unfoldable pub app_disconnect : Answers → App → Amf → CbStatus
app_disconnect answers app value = invoke answers app.on_disconnect (with_amf value)

unfoldable pub app_release : Answers → App → Amf → CbStatus
app_release answers app value = invoke answers app.on_release (with_amf value)

unfoldable pub app_publish : Answers → App → List ℕ → List ℕ → CbStatus
app_publish answers app name type = invoke answers app.on_publish (with_names name type)

unfoldable pub app_fcpublish : Answers → App → List ℕ → CbStatus
app_fcpublish answers app name = invoke answers app.on_fcpublish (with_name name)

unfoldable pub app_metadata : Answers → App → Amf → CbStatus
app_metadata answers app value = invoke answers app.on_metadata (with_amf value)

unfoldable pub app_video : Answers → App → ℕ → ℕ → List ℕ → Bool → CbStatus
app_video answers app streamid timestamp av_data final_part =
    invoke answers app.on_video (with_av streamid timestamp av_data final_part)

unfoldable pub app_audio : Answers → App → ℕ → ℕ → List ℕ → Bool → CbStatus
app_audio answers app streamid timestamp av_data final_part =
    invoke answers app.on_audio (with_av streamid timestamp av_data final_part)
