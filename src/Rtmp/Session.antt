-- ===== src/Rtmp/Session.antt =====
-- Code that reads a stream and updates the header cache: a state with failure. A step that fails
-- keeps what it had changed, as the C code does.
use lib_open_rtmp.Rtmp.Errors.{Err}

pub data Result (A : Type 0) : Type 0 where
  got : A → Result A
  failed : Err → Result A

abbrev pub M : Type 0 → Type 0 → Type 0
M S A = S → Result A × S

abbrev pub pure : {S A : Type 0} → A → M S A
pure a s = (got a, s)

abbrev pub fail : {S A : Type 0} → Err → M S A
fail e s = (failed e, s)

-- The rest runs in the state that the first step left, unless that returned an error.
abbrev pub next : {S A B : Type 0} → (A → M S B) → Result A × S → Result B × S
next f (got a, s) = f a s
next f (failed e, s) = (failed e, s)

infixl 5 ◌>>=◌ ◌>>◌
abbrev pub ◌>>=◌ : {S A B : Type 0} → M S A → (A → M S B) → M S B
◌>>=◌ m f s = next f (m s)

abbrev pub ◌>>◌ : {S B : Type 0} → M S (Unit {0}) → M S B → M S B
m >> k = m >>= λ _. k
