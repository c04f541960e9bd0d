-- ===== src/Rtmp/Stream/Delivery.antt =====
-- src/rtmp/rtmp_stream.c: what a stream sends, and how a stream that receives it calls its
-- callbacks.
use lib_open_rtmp.Base.{
  ℕ, ◌+◌, ◌^◌, ◌<◌, ◌≡◌, refl, ap, ap₂, ◌∙◌, inl, inr, Bool, true, false, List, [], ◌∷◌, ◌++◌,
  arith, if◌then◌else◌, Bool-cases, lt→ltb, ◌%◌, ◌*◌, ◌/◌,
}
use lib_open_rtmp.Util.Memutil.{
  ntoh_read_s, ntoh_read_ud, ntoh_write_s, ntoh_write_ud, ntoh_memcpy, host_bytes,
}
use lib_open_rtmp.Amf.{sign_extend}
use lib_open_rtmp.Amf.Builder.{Amf}
use lib_open_rtmp.Rtmp.Conn.{CbStatus, cb_continue}
use lib_open_rtmp.Rtmp.Assembler.{is_continue}
use lib_open_rtmp.Rtmp.Stream.{Args, StreamCall, Stream}
use lib_open_rtmp.Rtmp.Stream.Dispatch.{Answers, invoke, call_each, call_usr, usr_proc}

-- The callbacks that a message is for, in the order of their registration.
unfoldable pub due : {Cb : Type 0} → (Cb → Bool) → List Cb → List Cb
due applies [] = []
due applies (cb ∷ cbs) = if applies cb then cb ∷ due applies cbs else due applies cbs

-- A call of one more callback, on the history.
abbrev made : StreamCall → Stream → Stream
made c s = record s { calls = c ∷ s.calls }

-- The callbacks of a list are called from the first on, while they answer to continue; what the
-- last call answered is the result.
pub data Serves {Cb : Type 0} (answers : Answers) (to_call : Cb → StreamCall)
    : List Cb → Stream → CbStatus × Stream → Type 0 where
  all_served : {s : Stream} → Serves answers to_call [] s (cb_continue, s)
  served :
      {cb : Cb} {cbs : List Cb} {s : Stream} {end : CbStatus × Stream}
      → is_continue (answers (to_call cb ∷ s.calls)) ≡ true
      → Serves answers to_call cbs (made (to_call cb) s) end
      → Serves answers to_call (cb ∷ cbs) s end
  stopped :
      {cb : Cb} {cbs : List Cb} {s : Stream}
      → is_continue (answers (to_call cb ∷ s.calls)) ≡ false
      → Serves answers to_call (cb ∷ cbs) s (answers (to_call cb ∷ s.calls), made (to_call cb) s)

-- The callbacks that a message is for are called in the order of their registration, each once and
-- with its own user data, until one of them answers something else than to continue, which is the
-- result; the others are not called.
pub call_each-Serves :
    {Cb : Type 0} (answers : Answers) (applies : Cb → Bool) (to_call : Cb → StreamCall)
    (cbs : List Cb) (s : Stream)
    → Serves answers to_call (due applies cbs) s (call_each answers applies to_call cbs s)
unfolding call_each due invoke
call_each-Serves answers applies to_call [] s = all_served
call_each-Serves answers applies to_call (cb ∷ cbs) s = elim (Bool-cases (applies cb)) [
  | inl e ↦ rw e (elim (Bool-cases (is_continue (answers (to_call cb ∷ s.calls)))) [
    | inl c ↦ rw c (served c (call_each-Serves answers applies to_call cbs (made (to_call cb) s)))
    | inr c ↦ rw c (stopped c)
  ])
  | inr e ↦ rw e (call_each-Serves answers applies to_call cbs s)
]

event_back :
    (event : ℕ)
    → event < 2 ^ 15
    → sign_extend 32 (event % 256 + 256 * (event / 256 % 256 + 0)) ≡ event
event_back event h =
    ap (sign_extend 32) {x = event % 256 + 256 * (event / 256 % 256 + 0)} {y = event} (omega arith)
    ∙ rw (lt→ltb h) refl

word_back :
    (v : ℕ)
    → v < 2 ^ 32
    → v % 256
        + 256
          * (v / 256 % 256 + 256 * (v / 256 / 256 % 256 + 256 * (v / 256 / 256 / 256 % 256 + 0)))
      ≡ v
word_back v h = omega arith

-- A user control message with two parameters reaches the callbacks for its event with both of
-- them, as the sender gave them.
pub usr_proc_parameters :
    (answers : Answers) (args : Args) (event param1 param2 : ℕ) (s : Stream)
    → event < 2 ^ 15
    → param1 < 2 ^ 32
    → param2 < 2 ^ 32
    → usr_proc answers args (ntoh_write_s event ++ ntoh_write_ud param1 ++ ntoh_write_ud param2) s
      ≡ call_usr answers args event param1 param2 s
unfolding usr_proc ntoh_write_s ntoh_write_ud ntoh_read_s ntoh_read_ud ntoh_memcpy host_bytes
usr_proc_parameters answers args event param1 param2 s h h1 h2 =
    ap₂ (λ (e : ℕ) ((p, q) : ℕ × ℕ). call_usr answers args e p q s) (event_back event h)
      (ap₂ (λ (p q : ℕ). (p, q)) (word_back param1 h1) (word_back param2 h2))

abbrev usr_payload : (event param1 : ℕ) → List ℕ
usr_payload event param1 = ntoh_write_s event ++ ntoh_write_ud param1

-- The same for an event with one parameter: the second is 0.
pub usr_proc_parameter :
    (answers : Answers) (args : Args) (event param1 : ℕ) (s : Stream)
    → event < 2 ^ 15
    → param1 < 2 ^ 32
    → usr_proc answers args (usr_payload event param1) s ≡ call_usr answers args event param1 0 s
unfolding usr_proc ntoh_write_s ntoh_write_ud ntoh_read_s ntoh_read_ud ntoh_memcpy host_bytes
usr_proc_parameter answers args event param1 s h h1 =
    ap₂ (λ (e p : ℕ). call_usr answers args e p 0 s) (event_back event h) (word_back param1 h1)
