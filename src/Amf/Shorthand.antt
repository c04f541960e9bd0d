-- ===== src/Amf/Shorthand.antt =====
-- include/openrtmp/amf/amf_shorthand.h: the macros that describe an AMF0 item as a marker and up to
-- three fields, and encode or decode it. A `double` is its 64-bit IEEE 754 pattern, as
-- util/ieee754_double.c has it where RTMP_ASSUME_IEEE_DOUBLES is defined.
use lib_open_rtmp.Base.{
  ℕ, ◌+◌, min, not, ◌&&◌, Option, none, some, List, [], ◌∷◌, u8, add64, ltb, ◌==◌, if◌then◌else◌,
  length, get_or, take, drop, blit, slice,
}
use lib_open_rtmp.Util.Memutil.{
  host_bytes, host_value, ntoh_memcpy, ntoh_read_s, ntoh_write_s, ntoh_read_ud, ntoh_write_ud,
  ntoh_read_ud3, ntoh_write_ud3,
}
use lib_open_rtmp.Amf.{
  invalid_data, incomplete, Outcome, complete, fails, beyond, ◌>>=◌, amf_size, sign_extend,
}
use lib_open_rtmp.Amf.Marker

unfoldable pub read_double_ieee : List ℕ → ℕ
unfolding host_value
read_double_ieee bs = host_value (take 8 bs)

unfoldable pub write_double_ieee : ℕ → List ℕ
unfolding host_bytes
write_double_ieee value = host_bytes 8 value

-- The fields that an item is decoded into. A 16-bit integer is stored in a variable of so many
-- bits; a string has the length that was read last, and is copied into a buffer of so many bytes.
pub data Field : Type 0 where
  undefined null boolean integer integer24 double unsupported : Field
  integer16 : ℕ → Field
  string : ℕ → Field

-- The fields that an item is encoded from, with their values. A string has its length and the
-- length of its buffer.
pub data Item : Type 0 where
  put_undefined put_null put_unsupported : Item
  put_boolean : ℕ → Item
  put_integer : ℕ → Item
  put_integer16 : ℕ → Item
  put_integer24 : ℕ → Item
  put_double : ℕ → Item
  put_string : ℕ → ℕ → List ℕ → Item

-- `AMF_SIZE_OF`, which leaves the string out.
unfoldable pub amf_size_of : Field → ℕ
amf_size_of undefined = 0
amf_size_of null = 0
amf_size_of boolean = 1
amf_size_of integer = 4
amf_size_of (integer16 width) = 2
amf_size_of integer24 = 3
amf_size_of double = 8
amf_size_of unsupported = 0
amf_size_of (string room) = 0

-- `AMF_SIZE_OF2`, which counts it.
unfoldable pub amf_size_of2 : Item → ℕ
amf_size_of2 put_undefined = 0
amf_size_of2 put_null = 0
amf_size_of2 put_unsupported = 0
amf_size_of2 (put_boolean v) = 1
amf_size_of2 (put_integer v) = 4
amf_size_of2 (put_integer16 v) = 2
amf_size_of2 (put_integer24 v) = 3
amf_size_of2 (put_double v) = 8
amf_size_of2 (put_string len room bs) = len

unfoldable pub amf_sizes : List Field → ℕ
unfolding amf_size_of
amf_sizes [] = 0
amf_sizes (f ∷ fs) = amf_size_of f + amf_sizes fs

unfoldable pub amf_sizes2 : List Item → ℕ
unfolding amf_size_of2
amf_sizes2 [] = 0
amf_sizes2 (i ∷ is) = amf_size_of2 i + amf_sizes2 is

-- The bytes that a field stores.
unfoldable pub amf_bytes : Item → List ℕ
unfolding ntoh_write_ud ntoh_write_s ntoh_write_ud3 ntoh_memcpy write_double_ieee host_bytes
amf_bytes put_undefined = []
amf_bytes put_null = []
amf_bytes put_unsupported = []
amf_bytes (put_boolean v) = u8 v ∷ []
amf_bytes (put_integer v) = ntoh_write_ud v
amf_bytes (put_integer16 v) = ntoh_write_s v
amf_bytes (put_integer24 v) = ntoh_write_ud3 v
amf_bytes (put_double v) = ntoh_memcpy (write_double_ieee v) 8
amf_bytes (put_string len room bs) = take (min room len) bs

-- `AMF_WRITE`: each field at the offset that the one before it left.
unfoldable pub amf_write : List ℕ → ℕ → List Item → List ℕ
unfolding amf_bytes amf_size_of2
amf_write mem offset [] = mem
amf_write mem offset (i ∷ is) =
    amf_write (blit mem offset (amf_bytes i)) (offset + amf_size_of2 i) is

-- `bool AMF_M_OFFSET`
abbrev pub marker_size : ℕ → ℕ
marker_size type = if type == Marker.absent then 0 else 1

-- `AMF0_DESCRIBE_ENCODE`: without a buffer only the size is returned.
unfoldable pub describe_encode : Option (List ℕ) → ℕ → List Item → Outcome (ℕ × Option (List ℕ))
unfolding amf_sizes2 amf_write
describe_encode none type items = complete (amf_size (amf_sizes2 items + marker_size type), none)
describe_encode (some mem) type items =
    let len = amf_sizes2 items + marker_size type in
    if ltb (length mem) len
    then fails incomplete
    else (let marked = if ltb 0 (marker_size type) then blit mem 0 (type ∷ []) else mem in
        complete (amf_size len, some (amf_write marked (marker_size type) items)))

-- What a field stores through its pointer.
pub data Value : Type 0 where
  number : ℕ → Value
  bytes : List ℕ → Value

-- The position behind the marker, the size of the item so far, and the values stored, the last
-- first.
pub record Cursor : Type 0 where
  pub offset : ℕ
  pub len : ℕ
  pub stored : List Value

-- The variable that holds the length of the string.
abbrev pub last_length : List Value → ℕ
last_length (number n ∷ vs) = n
last_length _ = 0

abbrev pub keep_value : Cursor → ℕ → Value → Cursor
keep_value c size v = record c { offset = c.offset + size; stored = v ∷ c.stored }

unfoldable pub read_string : List ℕ → ℕ → ℕ → Cursor → Outcome Cursor
read_string items total room c =
    let n = last_length c.stored in
    if ltb total (add64 c.len n)
    then fails incomplete
    else if ltb (length items) (c.offset + min n room)
    then beyond
    else complete (record {
      offset = add64 c.offset n;
      len = add64 c.len n;
      stored = bytes (slice items c.offset (min n room)) ∷ c.stored;
    })

-- `AMF_READ_1`: the item behind its marker, and the size of all the data.
unfoldable pub read_field : List ℕ → ℕ → Field → Cursor → Outcome Cursor
unfolding ntoh_read_s ntoh_read_ud ntoh_read_ud3 ntoh_memcpy host_value read_double_ieee read_string
    amf_size_of
read_field items total undefined c = complete c
read_field items total null c = complete c
read_field items total unsupported c = complete c
read_field items total boolean c = complete (keep_value c 1 (number (get_or items c.offset 0)))
read_field items total integer c =
    complete (keep_value c 4 (number (ntoh_read_ud (drop c.offset items))))
read_field items total (integer16 width) c =
    complete (keep_value c 2 (number (sign_extend width (ntoh_read_s (drop c.offset items)))))
read_field items total integer24 c =
    complete (keep_value c 3 (number (ntoh_read_ud3 (drop c.offset items))))
read_field items total double c =
    complete (keep_value c 8 (number (read_double_ieee (ntoh_memcpy (drop c.offset items) 8))))
read_field items total (string room) c = read_string items total room c

unfoldable pub amf_read : List ℕ → ℕ → List Field → Cursor → Outcome Cursor
unfolding read_field
amf_read items total [] c = complete c
amf_read items total (f ∷ fs) c = read_field items total f c >>= amf_read items total fs

-- `AMF0_DESCRIBE_DECODE_I`: the size of the item and the values it stores.
unfoldable pub describe_decode_i : List ℕ → ℕ → List Field → Outcome Cursor
unfolding amf_sizes amf_read
describe_decode_i mem type fields =
    let len = amf_sizes fields + marker_size type in
    if ltb (length mem) len
    then fails incomplete
    else if not (type == Marker.absent) && not (get_or mem 0 0 == type)
    then fails invalid_data
    else amf_read (drop (marker_size type) mem) (length mem) fields
        (record { offset = 0; len = len; stored = [] })

unfoldable pub describe_decode : List ℕ → ℕ → List Field → Outcome (ℕ × List Value)
unfolding describe_decode_i
describe_decode mem type fields =
    describe_decode_i mem type fields >>= λ c. complete (amf_size c.len, c.stored)

-- `AMF0_DESCRIBE_DECODE_PEEK`: the values are stored, but nothing is consumed.
unfoldable pub describe_decode_peek : List ℕ → ℕ → List Field → Outcome (ℕ × List Value)
unfolding describe_decode_i
describe_decode_peek mem type fields =
    describe_decode_i mem type fields >>= λ c. complete (amf_size 0, c.stored)
