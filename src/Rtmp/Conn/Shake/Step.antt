-- ===== src/Rtmp/Conn/Shake/Step.antt =====
-- src/rtmp/rtmp_chunk_conn.c: steps of the handshake, by what holds before and after them.
use lib_open_rtmp.Base.{
  ℕ, ◌+◌, ◌≡◌, Bool, true, false, List, [], ◌∷◌, if◌then◌else◌, ◌==◌, none, some, inl, inr,
  Bool-cases,
}
use lib_open_rtmp.Util.Memutil.{Nonce}
use lib_open_rtmp.Util.Ringbuffer.{Ring}
use lib_open_rtmp.Rtmp.Errors.{again, code}
use lib_open_rtmp.Rtmp.Session.{Result, got, failed, M, next, ◌>>=◌}
use lib_open_rtmp.Rtmp.Conn.{
  Conn, Status, Callback, Call, event, chunk, call, connect_success, connect_fail, failure, filled,
  emptied, shaking_done, on_input, on_output, update, or_fail, report,
}

-- How often RTMP_EVENT_CONNECT_SUCCESS was raised.
unfoldable pub connects : List Call → ℕ
connects [] = 0
connects (event connect_success ∷ cs) = 1 + connects cs
connects (event connect_fail ∷ cs) = connects cs
connects (event failure ∷ cs) = connects cs
connects (event filled ∷ cs) = connects cs
connects (event emptied ∷ cs) = connects cs
connects (chunk _ _ _ ∷ cs) = connects cs

unfoldable pub has_nonce : Nonce → Bool
has_nonce none = false
has_nonce (some _) = true

-- What the handshake is about in a connection.
pub record View : Type 0 where
  pub status : Status
  pub connected : ℕ
  pub has_c : Bool
  pub has_s : Bool

unfoldable pub view : Conn → View
unfolding connects has_nonce
view c = record {
  status = c.status;
  connected = connects c.calls;
  has_c = has_nonce c.nonce_c;
  has_s = has_nonce c.nonce_s;
}

-- `s0` comes after `c0`, `s1` after `s0`, `c1` after `c0`, and `c2` and `s2` after `c1` and `s1`. The success of the
-- connection is told once, when all six have passed; a nonce stays from its message to then.
pub record InOrder (v : View) : Type 0 where
  pub s0_after : v.status.s0 ≡ true → v.status.c0 ≡ true
  pub c1_after : v.status.c1 ≡ true → v.status.c0 ≡ true
  pub s1_after : v.status.s1 ≡ true → v.status.s0 ≡ true
  pub c2_after : v.status.c2 ≡ true → (v.status.c1 ≡ true) × (v.status.s1 ≡ true)
  pub s2_after : v.status.s2 ≡ true → (v.status.c1 ≡ true) × (v.status.s1 ≡ true)
  pub told : v.connected ≡ (if shaking_done v.status then 1 else 0)
  pub nonce_c : shaking_done v.status ≡ false → v.status.c1 ≡ true → v.has_c ≡ true
  pub nonce_s : shaking_done v.status ≡ false → v.status.s1 ≡ true → v.has_s ≡ true

-- A step from states with `P` returns in one with `Q`, or fails in one with `F`.
abbrev pub Outcome : {A : Type 0} → (View → Type 0) → (View → Type 0) → Result A × Conn → Type 0
Outcome F Q (got a, c) = Q (view c)
Outcome F Q (failed e, c) = F (view c)

abbrev pub Step :
    {A : Type 0} → (View → Type 0) → (View → Type 0) → (View → Type 0) → M Conn A → Type 0
Step P F Q m = (c : Conn) → P (view c) → Outcome F Q (m c)

module _ (P F Q R : View → Type 0) where
  pub after :
      {A B : Type 0} (x : Result A × Conn) (f : A → M Conn B)
      → Outcome F Q x
      → ((a : A) → Step Q F R (f a))
      → Outcome F R (next f x)
  after (got a, c) f o q = q a c o
  after (failed e, c) f o q = o

  pub Step-bind :
      {A B : Type 0} (m : M Conn A) (f : A → M Conn B)
      → Step P F Q m
      → ((a : A) → Step Q F R (f a))
      → Step P F R (m >>= f)
  Step-bind m f p q c h = after (m c) f (p c h) q

  pub Step-update :
      (f : Conn → Conn) → ((c : Conn) → P (view c) → Q (view (f c))) → Step P F Q (update f)
  Step-update f p c h = p c h

-- A failure is reported by an event that does not count.
pub reported :
    {A : Type 0} (callback : Callback) (F Q : View → Type 0) (x : Result A × Conn)
    → Outcome F Q x
    → Outcome F Q (report callback connect_fail x)
unfolding report call view connects
reported callback F Q (got a, c) o = o
reported callback F Q (failed e, c) o = elim (Bool-cases (code e == code again)) [
  | inl z ↦ rw z o
  | inr z ↦ rw z o
]

pub on_output-Outcome :
    {A : Type 0} (P : View → Type 0) (c : Conn) (x : Result A × Ring)
    → P (view c)
    → Outcome P P (x.0, record c { output = x.1 })
unfolding view
on_output-Outcome P c (got a, r) h = h
on_output-Outcome P c (failed e, r) h = h

pub on_input-Outcome :
    {A : Type 0} (P : View → Type 0) (c : Conn) (x : Result A × Ring)
    → P (view c)
    → Outcome P P (x.0, record c { input = x.1 })
unfolding view
on_input-Outcome P c (got a, r) h = h
on_input-Outcome P c (failed e, r) h = h

pub weaken :
    {A : Type 0} (F F' Q : View → Type 0) (x : Result A × Conn)
    → ((v : View) → F v → F' v)
    → Outcome F Q x
    → Outcome F' Q x
weaken F F' Q (got a, c) w o = o
weaken F F' Q (failed e, c) w o = w (view c) o

module _ (callback : Callback) (P : View → Type 0) (order : (v : View) → P v → InOrder v) where
  pub output-Step :
      {A : Type 0} (m : Conn → M Ring A)
      → Step P InOrder P (or_fail callback connect_fail (λ c. on_output (m c) c))
  output-Step m c h =
      weaken P InOrder P _ order
        (reported callback P P (on_output (m c) c) (on_output-Outcome P c (m c c.output) h))

  pub input-Step :
      {A : Type 0} (m : M Ring A) → Step P InOrder P (or_fail callback connect_fail (on_input m))
  input-Step m c h =
      weaken P InOrder P _ order
        (reported callback P P (on_input m c) (on_input-Outcome P c (m c.input) h))
