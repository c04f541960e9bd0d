-- ===== src/Rtmp/Cache.antt =====
-- src/rtmp/rtmp_chunk_cache.c: the last header of each chunk stream. The first ten streams have a
-- static entry each; the others share a dynamic array, which is kept as the bytes of its block.
pub mod Static
use lib_open_rtmp.Base.{
  ℕ, zero, suc, ◌+◌, ◌-◌, ◌*◌, ◌%◌, ◌^◌, Bool, true, false, ◌&&◌, Option, none, some, List, [], ◌∷◌,
  ◌++◌, ltb, leb, ◌==◌, if◌then◌else◌, get_or, set, slice, blit, u32,
}
use lib_open_rtmp.Util.Memutil.{host_bytes, host_value, timestamp_get_delta, to_time}
use lib_open_rtmp.Util.Ringbuffer.{realloc, memmove}
use lib_open_rtmp.Util.Algorithm.{search_bin}
use lib_open_rtmp.Rtmp.Message.{Message, Entry, blank, entry_size, entry_bytes, entry_of_bytes}

-- `struct rtmp_chunk_stream_cache`
pub record Cache : Type 0 where
  pub static_cache : List Entry
  pub dynamic_cache : List ℕ
  pub dynamic_cache_size : ℕ

abbrev pub static_cache_size : ℕ
static_cache_size = 10

abbrev pub stream_cache_max : ℕ
stream_cache_max = 100

-- A pointer to an entry.
pub data Ref : Type 0 where
  static dynamic : ℕ → Ref

unfoldable pub load : Cache → Ref → Entry
load c (static i) = get_or c.static_cache i (blank i)
load c (dynamic i) = entry_of_bytes (slice c.dynamic_cache (entry_size * i) entry_size)

unfoldable pub store : Cache → Ref → Entry → Cache
store c (static i) e = record c { static_cache = set c.static_cache i e }
store c (dynamic i) e = record c {
  dynamic_cache = blit c.dynamic_cache (entry_size * i) (entry_bytes e);
}

-- The loops that number the static entries, from `i` on.
unfoldable pub blanks : ℕ → ℕ → List Entry
blanks i zero = []
blanks i (suc n) = blank i ∷ blanks (i + 1) n

unfoldable pub cache_create : Cache
unfolding blanks
cache_create = record {
  static_cache = blanks 0 static_cache_size;
  dynamic_cache = [];
  dynamic_cache_size = 0;
}

-- The second loop of `rtmp_cache_reset`, from `i` on: clear the entry, and keep its id.
unfoldable pub reset_dynamic : Cache → ℕ → ℕ → Cache
reset_dynamic c i zero = c
reset_dynamic c i (suc n) =
    reset_dynamic (store c (dynamic i) (blank (load c (dynamic i)).msg.chunk_stream_id)) (i + 1) n

unfoldable pub cache_reset : Cache → Cache
unfolding blanks reset_dynamic
cache_reset c =
    reset_dynamic (record c { static_cache = blanks 0 static_cache_size }) 0 c.dynamic_cache_size

-- `*(const size_t*)a < ((const rtmp_chunk_stream_message_internal_t*)b)->msg.chunk_stream_id`,
-- on the bytes at `a` and at `b`.
unfoldable pub message_less_than : List ℕ → List ℕ → Bool
message_less_than a b = ltb (host_value (slice a 0 8)) (host_value (slice b 0 4))

-- What `realloc` adds to the block when the array gets that many entries; `none` is no memory.
abbrev pub Alloc : Type 0
Alloc = ℕ → Option (List ℕ)

-- The rest of `rtmp_cache_insert` once the block is enlarged. The third argument of the source's
-- `memmove` is the number of entries, taken as a number of bytes.
unfoldable pub insert_at : Cache → ℕ → ℕ → List ℕ → Cache
insert_at c index chunk_id fresh =
    let remainder = c.dynamic_cache_size - index in
    let size = c.dynamic_cache_size + 1 in
    let block = realloc c.dynamic_cache fresh (entry_size * size) in
    let moved = memmove block (entry_size * (index + 1)) (entry_size * index) remainder in
    store
      (record c {
        dynamic_cache = if ltb 0 remainder then moved else block;
        dynamic_cache_size = size;
      })
      (dynamic index) (blank (u32 chunk_id))

-- The enlarged block, or `nullptr` when there is no memory; the count has grown either way.
unfoldable pub insert_with : Option (List ℕ) → Cache → ℕ → ℕ → Option Ref × Cache
insert_with none c index chunk_id =
    (none, record c { dynamic_cache_size = c.dynamic_cache_size + 1 })
insert_with (some fresh) c index chunk_id = (some (dynamic index), insert_at c index chunk_id fresh)

-- `alg_search_bin` for the id in the dynamic array.
unfoldable pub find_index : Cache → ℕ → ℕ
find_index c chunk_id =
    search_bin message_less_than (host_bytes 8 chunk_id) c.dynamic_cache entry_size
      c.dynamic_cache_size

module _ (alloc : Alloc) where
  unfoldable pub cache_insert : Cache → ℕ → ℕ → Option Ref × Cache
  cache_insert c index chunk_id =
      if leb stream_cache_max c.dynamic_cache_size
      then (none, c)
      else insert_with (alloc (c.dynamic_cache_size + 1)) c index chunk_id

  unfoldable pub cache_get : Cache → ℕ → Option Ref × Cache
  cache_get c chunk_id =
      if ltb chunk_id static_cache_size
      then (some (static chunk_id), c)
      else (let idx = find_index c chunk_id in
          if idx == c.dynamic_cache_size
          then cache_insert c idx chunk_id
          else if (load c (dynamic idx)).msg.chunk_stream_id == chunk_id
          then (some (dynamic idx), c)
          else cache_insert c idx chunk_id)

-- How much of a header the entry already knows: 0 to 3.
unfoldable pub cache_match : Entry → ℕ → ℕ → ℕ → ℕ → ℕ
cache_match cached stream_id msg_size msg_type timestamp =
    if cached.initialized && cached.msg.message_stream_id == stream_id
    then (if cached.msg.message_length == msg_size && cached.msg.message_type == msg_type
        then (if cached.time_delta == to_time (timestamp_get_delta cached.msg.timestamp timestamp)
            then 3
            else 2)
        else 1)
    else 0

-- `rtmp_cache_find` returns before its search: always the entry of stream 4, cleared.
unfoldable pub cache_find : Cache → Ref × Cache
cache_find c = (static 4, store c (static 4) (blank 4))
