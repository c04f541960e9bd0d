-- ===== src/Util/Memutil.antt =====
-- src/util/memutil.c: byte order, timestamps, unit prefixes and nonces, on a little-endian machine
-- with a 64-bit `size_t`. Memory is a list of bytes.
pub mod Laws
use lib_open_rtmp.Base.{
  ℕ, zero, suc, ◌+◌, ◌-◌, ◌*◌, ◌/◌, ◌%◌, ◌^◌, Bool, true, false, Option, none, some, List, [], ◌∷◌,
  bit_and, bit_or, u8, u32, u64, sub64, ◌<<<◌, ◌>>>◌, ltb, leb, if◌then◌else◌, get_or, get_elem?,
}

-- The bytes of an integer variable as the machine stores them, and back.
unfoldable pub host_bytes : ℕ → ℕ → List ℕ
host_bytes zero v = []
host_bytes (suc n) v = (v % 256) ∷ host_bytes n (v / 256)

unfoldable pub host_value : List ℕ → ℕ
host_value [] = 0
host_value (b ∷ bs) = b + 256 * host_value bs

-- `while( len --> 0 ){ *(output++) = input[len]; }`
unfoldable pub ntoh_memcpy : List ℕ → ℕ → List ℕ
ntoh_memcpy src zero = []
ntoh_memcpy src (suc len) = get_or src len 0 ∷ ntoh_memcpy src len

unfoldable pub ntoh_read_us : List ℕ → ℕ
unfolding ntoh_memcpy host_value
ntoh_read_us src = host_value (ntoh_memcpy src 2)

unfoldable pub ntoh_read_ud : List ℕ → ℕ
unfolding ntoh_memcpy host_value
ntoh_read_ud src = host_value (ntoh_memcpy src 4)

-- A `short` and an `int` as their 16-bit and 32-bit patterns.
unfoldable pub ntoh_read_s : List ℕ → ℕ
unfolding ntoh_memcpy host_value
ntoh_read_s src = host_value (ntoh_memcpy src 2)

unfoldable pub ntoh_read_d : List ℕ → ℕ
unfolding ntoh_memcpy host_value
ntoh_read_d src = host_value (ntoh_memcpy src 4)

unfoldable pub ntoh_write_s : ℕ → List ℕ
unfolding ntoh_memcpy host_bytes
ntoh_write_s value = ntoh_memcpy (host_bytes 2 value) 2

unfoldable pub ntoh_write_d : ℕ → List ℕ
unfolding ntoh_memcpy host_bytes
ntoh_write_d value = ntoh_memcpy (host_bytes 4 value) 4

unfoldable pub ntoh_write_us : ℕ → List ℕ
unfolding ntoh_memcpy host_bytes
ntoh_write_us value = ntoh_memcpy (host_bytes 2 value) 2

unfoldable pub ntoh_write_ud : ℕ → List ℕ
unfolding ntoh_memcpy host_bytes
ntoh_write_ud value = ntoh_memcpy (host_bytes 4 value) 4

unfoldable pub htol_write_ud : ℕ → List ℕ
unfolding host_bytes
htol_write_ud value = host_bytes 4 value

unfoldable pub ltoh_read_ud : List ℕ → ℕ
unfolding host_value
ltoh_read_ud src =
    host_value (get_or src 0 0 ∷ get_or src 1 0 ∷ get_or src 2 0 ∷ get_or src 3 0 ∷ [])

unfoldable pub ntoh_write_ud3 : ℕ → List ℕ
ntoh_write_ud3 value =
    bit_and (value >>> 16) 255 ∷ bit_and (value >>> 8) 255 ∷ bit_and value 255 ∷ []

unfoldable pub ntoh_read_ud3 : List ℕ → ℕ
ntoh_read_ud3 src =
    bit_or (u32 (bit_or (u32 (get_or src 0 0 <<< 8)) (get_or src 1 0) <<< 8)) (get_or src 2 0)

-- The `int32_t` as its 32-bit pattern.
unfoldable pub timestamp_get_delta : ℕ → ℕ → ℕ
timestamp_get_delta stamp1 stamp2 = u32 (sub64 stamp2 stamp1)

-- The conversion of an `int32_t` to the 64-bit `rtmp_time_t` repeats the sign bit.
unfoldable pub to_time : ℕ → ℕ
to_time delta = if ltb delta (2 ^ 31) then delta else delta + (2 ^ 64 - 2 ^ 32)

-- A prefix is its power of ten, counted from `si_yocto`, which is -24.
unfoldable pub pow10_table : List ℕ
pow10_table =
    1 ∷ 10 ∷ 100 ∷ 1000 ∷ 10000 ∷ 100000 ∷ 1000000 ∷ 10000000 ∷ 100000000 ∷ 1000000000 ∷ 10000000000
    ∷ 100000000000 ∷ 1000000000000 ∷ 10000000000000 ∷ 100000000000000 ∷ 1000000000000000
    ∷ 10000000000000000 ∷ 100000000000000000 ∷ 1000000000000000000 ∷ 10000000000000000000 ∷ []

unfoldable pub clamp_change : ℕ → ℕ
clamp_change change = if ltb 20 change then 20 else change

unfoldable pub scale : (ℕ → ℕ → ℕ) → ℕ → Option ℕ → Option ℕ
scale op number none = none
scale op number (some power) = some (op number power)

-- `none` is a read past the end of the table.
unfoldable pub si_convert_ull : ℕ → ℕ → ℕ → Option ℕ
unfolding pow10_table clamp_change scale
si_convert_ull number from to =
    if ltb from to
    then scale (λ n p. n / p) number (get_elem? pow10_table (clamp_change (to - from)))
    else scale (λ n p. u64 (n * p)) number (get_elem? pow10_table (clamp_change (from - to)))

-- A nonce is a pointer to its bytes, `none` for `nullptr`.
abbrev pub Nonce : Type 0
Nonce = Option (List ℕ)

-- `block` is what `malloc` gives: `none` when there is no memory. False reports RTMP_ERR_OOM.
unfoldable pub nonce_alloc : Nonce → Bool × Nonce
nonce_alloc none = (false, none)
nonce_alloc (some block) = (true, some block)

unfoldable pub nonce_del : Nonce → Nonce
nonce_del old = none

-- The loop that fills the nonce with `rand() % 256`; the random numbers are given.
unfoldable pub fill_random : List ℕ → List ℕ
fill_random [] = []
fill_random (r ∷ rs) = (r % 256) ∷ fill_random rs

unfoldable pub nonce_gen : Nonce → List ℕ → Bool × Nonce
unfolding fill_random
nonce_gen none rands = (false, none)
nonce_gen (some block) rands = (true, some (fill_random rands))
