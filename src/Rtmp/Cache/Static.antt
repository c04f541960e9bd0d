-- ===== src/Rtmp/Cache/Static.antt =====
-- The entries of the first ten chunk streams.
use lib_open_rtmp.Base.{
  ℕ, zero, suc, ◌+◌, ◌<◌, ◌≡◌, ◌≢◌, refl, ap, ◌∙◌, some, List, [], ◌∷◌, arith, length, get_or, set,
  length-set, lt→ltb,
}
use lib_open_rtmp.Rtmp.Message.{Entry, blank}
use lib_open_rtmp.Rtmp.Cache.{
  Cache, static, dynamic, Alloc, load, store, blanks, cache_create, cache_get, cache_reset,
  reset_dynamic,
}

-- The static array has its ten entries.
abbrev pub IsSound : Cache → Type 0
IsSound c = length c.static_cache ≡ 10

module _ {ℓ} {A : Type ℓ} where
  get_or-set_self : (xs : List A) (i : ℕ) (v d : A) → i < length xs → get_or (set xs i v) i d ≡ v
  get_or-set_self [] i v d h = absurd (omega arith)
  get_or-set_self (x ∷ xs) zero v d h = refl
  get_or-set_self (x ∷ xs) (suc i) v d h = get_or-set_self xs i v d (omega arith)

  set-set : (xs : List A) (i : ℕ) (v w : A) → set (set xs i v) i w ≡ set xs i w
  set-set [] i v w = refl
  set-set (x ∷ xs) zero v w = refl
  set-set (x ∷ xs) (suc i) v w = ap (λ t. x ∷ t) (set-set xs i v w)

  get_or-set_ne :
      (xs : List A) (i j : ℕ) (v d : A) → i ≢ j → get_or (set xs i v) j d ≡ get_or xs j d
  get_or-set_ne [] i j v d h = refl
  get_or-set_ne (x ∷ xs) zero zero v d h = absurd (h refl)
  get_or-set_ne (x ∷ xs) zero (suc j) v d h = refl
  get_or-set_ne (x ∷ xs) (suc i) zero v d h = refl
  get_or-set_ne (x ∷ xs) (suc i) (suc j) v d h = get_or-set_ne xs i j v d (λ e. h (ap suc e))

  set-get_or : (xs : List A) (i : ℕ) (d : A) → set xs i (get_or xs i d) ≡ xs
  set-get_or [] i d = refl
  set-get_or (x ∷ xs) zero d = refl
  set-get_or (x ∷ xs) (suc i) d = ap (λ t. x ∷ t) (set-get_or xs i d)

pub load-store_self :
    (c : Cache) (i : ℕ) (e : Entry)
    → IsSound c
    → i < 10
    → load (store c (static i) e) (static i) ≡ e
unfolding load store
load-store_self c i e s h = get_or-set_self c.static_cache i e (blank i) (omega arith)

pub load-store_ne :
    (c : Cache) (i j : ℕ) (e : Entry)
    → i ≢ j
    → load (store c (static i) e) (static j) ≡ load c (static j)
unfolding load store
load-store_ne c i j e h = get_or-set_ne c.static_cache i j e (blank j) h

pub store-store :
    (c : Cache) (i : ℕ) (e f : Entry)
    → store (store c (static i) e) (static i) f ≡ store c (static i) f
unfolding store
store-store c i e f = ap (λ xs. record c { static_cache = xs }) (set-set c.static_cache i e f)

-- Storing back what is there changes nothing.
pub store-load : (c : Cache) (i : ℕ) → store c (static i) (load c (static i)) ≡ c
unfolding store load
store-load c i = ap (λ xs. record c { static_cache = xs }) (set-get_or c.static_cache i (blank i))

pub store-IsSound : (c : Cache) (i : ℕ) (e : Entry) → IsSound c → IsSound (store c (static i) e)
unfolding store
store-IsSound c i e s = length-set c.static_cache i e ∙ s

-- An id below ten has its static entry, and looking it up changes nothing.
pub cache_get_static :
    (alloc : Alloc) (c : Cache) (id : ℕ) → id < 10 → cache_get alloc c id ≡ (some (static id), c)
unfolding cache_get
cache_get_static alloc c id h = rw (lt→ltb h) refl

pub cache_create-IsSound : IsSound cache_create
unfolding cache_create
cache_create-IsSound = refl

store_dynamic :
    (c : Cache) (i : ℕ) (e : Entry) → (store c (dynamic i) e).static_cache ≡ c.static_cache
unfolding store
store_dynamic c i e = refl

reset_dynamic-static : (c : Cache) (i n : ℕ) → (reset_dynamic c i n).static_cache ≡ c.static_cache
unfolding reset_dynamic
reset_dynamic-static c i zero = refl
reset_dynamic-static c i (suc n) =
    reset_dynamic-static (store c (dynamic i) (blank (load c (dynamic i)).msg.chunk_stream_id))
      (i + 1) n
    ∙ store_dynamic c i (blank (load c (dynamic i)).msg.chunk_stream_id)

get_or-blanks : (k i n : ℕ) (d : Entry) → i < n → get_or (blanks k n) i d ≡ blank (k + i)
unfolding blanks
get_or-blanks k i zero d h = absurd (omega arith)
get_or-blanks k zero (suc n) d h = ap blank (omega arith)
get_or-blanks k (suc i) (suc n) d h =
    get_or-blanks (k + 1) i n d (omega arith) ∙ ap blank (omega arith)

-- After rtmp_cache_reset each of the first ten chunk streams has a cleared entry with its own id.
pub load-cache_reset : (c : Cache) (i : ℕ) → i < 10 → load (cache_reset c) (static i) ≡ blank i
unfolding load cache_reset
load-cache_reset c i h =
    ap (λ xs. get_or xs i (blank i))
      (reset_dynamic-static (record c { static_cache = blanks 0 10 }) 0 c.dynamic_cache_size)
    ∙ get_or-blanks 0 i 10 (blank i) h
    ∙ ap blank (omega arith)

pub cache_reset-IsSound : (c : Cache) → IsSound (cache_reset c)
unfolding cache_reset blanks
cache_reset-IsSound c =
    ap length
      (reset_dynamic-static (record c { static_cache = blanks 0 10 }) 0 c.dynamic_cache_size)
