-- ===== src/Rtmp/Errors.antt =====
-- `rtmp_err_t` of include/openrtmp/rtmp/rtmp_constants.h, whose order carries the severity.
use lib_open_rtmp.Base.{ℕ, Bool, leb}

pub data Err : Type 0 where
  ok connection_closed divergence_meter_error error not_ready invalid bad_write bad_read : Err
  pause again dns_fail poll_fail fatal connection_fail oom inadequate_chunk abort : Err

abbrev pub code : Err → ℕ
code ok = 0
code connection_closed = 1
code divergence_meter_error = 2
code error = 3
code not_ready = 4
code invalid = 5
code bad_write = 6
code bad_read = 7
code pause = 8
code again = 9
code dns_fail = 10
code poll_fail = 11
code fatal = 12
code connection_fail = 13
code oom = 14
code inadequate_chunk = 15
code abort = 16

-- `err >= RTMP_ERR_ERROR`
abbrev pub is_error : Err → Bool
is_error e = leb (code error) (code e)

-- `err >= RTMP_ERR_FATAL`
abbrev pub is_fatal : Err → Bool
is_fatal e = leb (code fatal) (code e)
