-- ===== src/Tests/Answers.antt =====
-- The last handshake message of a peer, with a nonce of 1528 equal bytes.
use native.Mathlib.Nat.{mod-eq_of_lt}
use lib_open_rtmp.Base.{
  ℕ, ◌+◌, ◌^◌, ◌≤◌, ◌<◌, ◌≡◌, ◌≢◌, refl, ap, ◌∙◌, ◌⊎◌, true, false, List, [], ◌∷◌, ◌++◌, some,
  arith, length, get_or, replicate, length-replicate, length-append, span, span_ext, span-get_or,
}
use lib_open_rtmp.Util.Memutil.{ntoh_write_ud}
use lib_open_rtmp.Util.Ringbuffer.{Ring}
use lib_open_rtmp.Util.Ringbuffer.Inv.{byte_at}
use lib_open_rtmp.Rtmp.Errors.{invalid}
use lib_open_rtmp.Rtmp.Session.{got, failed}
use lib_open_rtmp.Rtmp.Flow.Wire.{Ready}
use lib_open_rtmp.Rtmp.Conn.{Conn}
use lib_open_rtmp.Rtmp.Conn.Shake.{World, read_s2, read_c2, nonce_bytes}
use lib_open_rtmp.Rtmp.Conn.Shake.Answer.{read_s2-answer, read_c2-answer, read_s2_late}
use lib_open_rtmp.Tests.Conns.{go_on, client}

-- A ring that is full of the bytes.
abbrev filled_ring : List ℕ → Ring
filled_ring bs = record {
  mem = bs;
  read_offset = 0;
  write_offset = 0;
  read_frozen = false;
  write_frozen = false;
  start = 0;
  len = length bs;
  size = length bs;
}

filled_ring-Ready : (bs : List ℕ) → 0 < length bs → length bs ≤ 2 ^ 62 → Ready (filled_ring bs) bs
filled_ring-Ready bs p h = record {
  valid = record {
    storage = refl;
    pos = p;
    small = h;
    start_in = p;
    fits = omega arith;
    read_in = omega arith;
    read_idle = λ e. refl;
    write_idle = λ e. refl;
  };
  idle = refl;
  bytes =
      ap (λ (k : ℕ). span (byte_at (filled_ring bs)) 0 k) (omega arith)
      ∙ span_ext (byte_at (filled_ring bs)) (λ i. get_or bs i 0) 0 0 (length bs)
          (λ i l.
            ap (λ (k : ℕ). get_or bs k 0) (mod-eq_of_lt {n = 0 + i} {m = length bs} (omega arith)))
      ∙ span-get_or bs 0;
}

abbrev sent_time : ℕ
sent_time = 1000

abbrev nonce_byte : ℕ
nonce_byte = 7

abbrev long_nonce : List ℕ
long_nonce = replicate 1528 nonce_byte

-- The times 1000 and 2000 and the nonce, and two bytes more.
abbrev answer_bytes : List ℕ
answer_bytes = (ntoh_write_ud 1000 ++ (ntoh_write_ud 2000 ++ long_nonce)) ++ 8 ∷ 9 ∷ []

answer_length : length answer_bytes ≡ 1538
unfolding ntoh_write_ud
answer_length =
    ap (λ (n : ℕ). 8 + n)
      (length-append long_nonce (8 ∷ 9 ∷ [])
        ∙ ap (λ (n : ℕ). n + 2) (length-replicate 1528 nonce_byte))
    ∙ omega arith

answer-Ready : Ready (filled_ring answer_bytes) answer_bytes
answer-Ready =
    filled_ring-Ready answer_bytes (omega (arith, answer_length)) (omega (arith, answer_length))

-- The connection that sent this time and this nonce itself.
abbrev asking : ℕ → Conn
asking time = record client {
  input = filled_ring answer_bytes;
  self_time = time;
  nonce_c = some long_nonce;
  nonce_s = some long_nonce;
}

abbrev with_block : World
with_block = record { now = 5; block = some []; random = [] }

read_s2-answer_example :
    (sent_time ≡ sent_time
      → long_nonce ≡ nonce_bytes (some long_nonce)
      → ((read_s2 go_on with_block (asking 1000)).0 ≡ got tt)
        × ((read_s2 go_on with_block (asking 1000)).1.status
            ≡ record ((asking 1000).status) { s2 = true }))
    × ((sent_time ≢ sent_time) ⊎ (long_nonce ≢ nonce_bytes (some long_nonce))
        → ((read_s2 go_on with_block (asking 1000)).0 ≡ failed invalid)
          × ((read_s2 go_on with_block (asking 1000)).1.status ≡ (asking 1000).status))
read_s2-answer_example =
    read_s2-answer go_on 5 [] [] (asking 1000) 1000 2000 long_nonce (8 ∷ 9 ∷ []) (omega arith)
      (omega arith) (length-replicate 1528 nonce_byte) answer-Ready

read_c2-answer_example :
    (sent_time ≡ sent_time
      → long_nonce ≡ nonce_bytes (some long_nonce)
      → ((read_c2 go_on with_block (asking 1000)).0 ≡ got tt)
        × ((read_c2 go_on with_block (asking 1000)).1.status
            ≡ record ((asking 1000).status) { c2 = true }))
    × ((sent_time ≢ sent_time) ⊎ (long_nonce ≢ nonce_bytes (some long_nonce))
        → ((read_c2 go_on with_block (asking 1000)).0 ≡ failed invalid)
          × ((read_c2 go_on with_block (asking 1000)).1.status ≡ (asking 1000).status))
read_c2-answer_example =
    read_c2-answer go_on 5 [] [] (asking 1000) 1000 2000 long_nonce (8 ∷ 9 ∷ []) (omega arith)
      (omega arith) (length-replicate 1528 nonce_byte) answer-Ready

-- The client's own message had the time 2 ^ 32 + 1000, of which the answer repeats the low 32 bits.
read_s2_late_example :
    ((read_s2 go_on with_block (asking 4294968296)).0 ≡ failed invalid)
    × ((read_s2 go_on with_block (asking 4294968296)).1.status ≡ (asking 4294968296).status)
read_s2_late_example =
    read_s2_late go_on 5 [] [] (asking 4294968296) 1000 2000 long_nonce (8 ∷ 9 ∷ []) (omega arith)
      (omega arith) (length-replicate 1528 nonce_byte) answer-Ready (omega arith)
