-- ===== src/Amf.antt =====
-- include/openrtmp/amf/amf_constants.h: the result of an AMF0 call.
pub mod Marker
pub mod Kind
pub mod Value
pub mod Builder
pub mod Access
pub mod Write
pub mod Read
pub mod Simple
pub mod Format
pub mod Shorthand
pub mod Encode
pub mod Decode
use lib_open_rtmp.Base.{ℕ, ◌-◌, ◌^◌, u32, ltb, if◌then◌else◌, ◌+◌}

pub data AmfErr : Type 0 where
  invalid_data incomplete need_name oom bad_alloc : AmfErr

-- The `int` of an error as its 32-bit pattern: they count up from -10.
abbrev pub amf_code : AmfErr → ℕ
amf_code invalid_data = 2 ^ 32 - 10
amf_code incomplete = 2 ^ 32 - 9
amf_code need_name = 2 ^ 32 - 8
amf_code oom = 2 ^ 32 - 7
amf_code bad_alloc = 2 ^ 32 - 6

-- What a call comes to: it returns an error, it completes, or it reads past the end of the data,
-- where C leaves the behaviour undefined.
pub data Outcome (A : Type 0) : Type 0 where
  complete : A → Outcome A
  fails : AmfErr → Outcome A
  beyond : Outcome A

infixl 10 ◌>>=◌
abbrev pub ◌>>=◌ : {A B : Type 0} → Outcome A → (A → Outcome B) → Outcome B
complete x >>= f = f x
fails e >>= f = fails e
beyond >>= f = beyond

-- `(amf_err_t)(n)`: the size of an item, as an `int`.
abbrev pub amf_size : ℕ → ℕ
amf_size n = u32 n

-- The conversion of a 16-bit signed integer to one of `width` bits repeats the sign.
abbrev pub sign_extend : ℕ → ℕ → ℕ
sign_extend width v = if ltb v (2 ^ 15) then v else v + (2 ^ width - 2 ^ 16)
