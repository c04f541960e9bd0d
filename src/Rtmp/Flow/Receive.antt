-- ===== src/Rtmp/Flow/Receive.antt =====
-- What `rtmp_chunk_read_hdr` makes of the fields of a header.
use lib_open_rtmp.Base.{
  ℕ, ◌%◌, ◌^◌, ◌<◌, ◌≡◌, ◌≢◌, refl, sym, ap, ap₂, ◌∙◌, ◌&&◌, ◌||◌, List, [], ◌∷◌, ◌++◌, inl, inr,
  append-nil, arith, length, leb, ◌==◌, if◌then◌else◌, not_leb→lt, Bool-cases, get_or,
}
use lib_open_rtmp.Util.Memutil.{ntoh_write_ud, htol_write_ud, ntoh_write_ud3, ntoh_read_ud3}
use lib_open_rtmp.Util.Memutil.Laws.{
  ntoh_read_ud-ntoh_write_ud, ntoh_write_ud_truncates, ltoh_read_ud-htol_write_ud,
  ntoh_read_ud3-ntoh_write_ud3, ntoh_write_ud3_lem,
}
use lib_open_rtmp.Rtmp.Session.{got, M, pure, ◌>>=◌}
use lib_open_rtmp.Rtmp.Message.{Message}
use lib_open_rtmp.Rtmp.Cache.{Cache, Ref, static}
use lib_open_rtmp.Rtmp.Flow.{
  Link, on_ring, modify, read_all, read_time, read_length, read_stream, read_extended,
}
use lib_open_rtmp.Rtmp.Flow.Wire.{read_all-Parses}
use lib_open_rtmp.Rtmp.Flow.Link.{
  Receives, Receives-bind, Receives-on_ring, Receives-pure, Receives-silent, changed, changed-id,
}

-- The number that stands in the 24-bit field for a time.
abbrev pub capped : ℕ → ℕ
capped w = if leb 0xFFFFFF w then 0xFFFFFF else w

capped-lt : (w : ℕ) → capped w < 2 ^ 24
capped-lt w = ground arith

-- A fixed block is read and decoded.
read_block :
    {A : Type 0} (bs mid : List ℕ) (c : Cache) (f : List ℕ → M Link A) (a : A) (c' : Cache) (n : ℕ)
    → length bs ≡ n
    → n < 2 ^ 64
    → Receives (f bs) mid c a mid c'
    → Receives (on_ring (read_all n) >>= f) (bs ++ mid) c a mid c'
read_block bs mid c f a c' n e h p =
    Receives-bind (on_ring (read_all n)) f (bs ++ mid) c bs mid c a mid c'
      (Receives-on_ring (read_all n) (bs ++ mid) bs mid c
        (rw e at (read_all-Parses bs mid (omega arith))))
      p

capped_read : (w : ℕ) → ntoh_read_ud3 (ntoh_write_ud3 (capped w)) ≡ capped w
capped_read w =
    ap ntoh_read_ud3 (sym (append-nil (ntoh_write_ud3 (capped w))))
    ∙ ntoh_read_ud3-ntoh_write_ud3 (capped w) [] (capped-lt w)

pub read_time_lem :
    (fmt w : ℕ) (mid : List ℕ) (c : Cache)
    → Receives
        (read_time fmt)
        ((if leb fmt 2 then ntoh_write_ud3 (capped w) else []) ++ mid)
        c
        (if leb fmt 2 then capped w else 0)
        mid
        c
unfolding read_time
read_time_lem fmt w mid c = elim (Bool-cases (leb fmt 2)) [
  | inl e ↦ rw e (
      read_block (ntoh_write_ud3 (capped w)) mid c _ (capped w) c 3
        (ap length (ntoh_write_ud3_lem (capped w))) (omega arith)
        (rw (capped_read w) (Receives-pure (capped w) mid c)))
  | inr e ↦ rw e (Receives-pure 0 mid c)
]

-- A store into the message, known to be the change `g`.
pub modify-Receives :
    (ref : Ref) (f g : Message → Message) (mid : List ℕ) (c : Cache)
    → f ≡ g
    → Receives (modify ref f) mid c tt mid (changed c ref g)
modify-Receives ref f g mid c e =
    Receives-silent (modify ref f) mid c tt (changed c ref g)
      (λ r. ap (λ h. (got tt, (r, changed c ref h))) e)

skip-Receives :
    (i : ℕ) (mid : List ℕ) (c : Cache)
    → Receives (pure tt) mid c tt mid (changed c (static i) (λ m. m))
skip-Receives i mid c =
    Receives-silent (pure tt) mid c tt (changed c (static i) (λ m. m))
      (λ r. ap (λ d. (got tt, (r, d))) (sym (changed-id c i)))

-- What the fields of formats 0 and 1 change.
abbrev pub with_length : ℕ → ℕ → ℕ → Message → Message
with_length fmt len type m =
    if leb fmt 1 then record m { message_length = len; message_type = type } else m

abbrev pub length_bytes : ℕ → ℕ → List ℕ
length_bytes len type = ntoh_write_ud3 len ++ type ∷ []

type_read : (len type : ℕ) → get_or (length_bytes len type) 3 0 ≡ type
type_read len type = ap (λ bs. get_or (bs ++ type ∷ []) 3 0) (ntoh_write_ud3_lem len)

pub read_length_lem :
    (fmt len type i : ℕ) (mid : List ℕ) (c : Cache)
    → len < 2 ^ 24
    → Receives
        (read_length (static i) fmt)
        ((if leb fmt 1 then length_bytes len type else []) ++ mid)
        c
        tt
        mid
        (changed c (static i) (with_length fmt len type))
unfolding read_length
read_length_lem fmt len type i mid c h = elim (Bool-cases (leb fmt 1)) [
  | inl e ↦ rw e (
      read_block (length_bytes len type) mid c _ tt
        (changed c (static i) (λ m. record m { message_length = len; message_type = type })) 4
        (ap (λ bs. length (bs ++ type ∷ [])) (ntoh_write_ud3_lem len)) (omega arith)
        (modify-Receives (static i) _ _ mid c (
          ap₂ {C = Message → Message}
            (λ (l t : ℕ) (m : Message). record m { message_length = l; message_type = t })
            (ntoh_read_ud3-ntoh_write_ud3 len (type ∷ []) h) (type_read len type))))
  | inr e ↦ rw e (skip-Receives i mid c)
]

length-htol : (v : ℕ) → length (htol_write_ud v) ≡ 4
unfolding htol_write_ud
length-htol v = refl

length-ntoh : (v : ℕ) → length (ntoh_write_ud v) ≡ 4
unfolding ntoh_write_ud
length-ntoh v = refl

-- What the field of format 0 changes.
abbrev pub with_stream : ℕ → ℕ → Message → Message
with_stream fmt id m = if leb fmt 0 then record m { message_stream_id = id } else m

pub read_stream_lem :
    (fmt id i : ℕ) (mid : List ℕ) (c : Cache)
    → id < 2 ^ 32
    → Receives
        (read_stream (static i) fmt)
        ((if leb fmt 0 then htol_write_ud id else []) ++ mid)
        c
        tt
        mid
        (changed c (static i) (with_stream fmt id))
unfolding read_stream
read_stream_lem fmt id i mid c h = elim (Bool-cases (leb fmt 0)) [
  | inl e ↦ rw e (
      read_block (htol_write_ud id) mid c _ tt
        (changed c (static i) (λ m. record m { message_stream_id = id })) 4 (length-htol id)
        (omega arith)
        (modify-Receives (static i) _ _ mid c (
          ap {B = Message → Message} (λ (v : ℕ) (m : Message). record m { message_stream_id = v })
            (ltoh_read_ud-htol_write_ud id h))))
  | inr e ↦ rw e (skip-Receives i mid c)
]

-- The reader's test for the extended field agrees with the writer's.
extended_test :
    (fmt old w : ℕ)
    → (fmt ≡ 3 → (w ≡ 0) × (old ≢ 0xFFFFFF))
    → fmt < 4
    → ((fmt == 3 && old == 0xFFFFFF) || (if leb fmt 2 then capped w else 0) == 0xFFFFFF)
      ≡ leb 0xFFFFFF w
extended_test fmt old w last h = ground arith

plain_time :
    (fmt old w : ℕ)
    → (fmt ≡ 3 → (w ≡ 0) × (old ≢ 0xFFFFFF))
    → fmt < 4
    → w < 0xFFFFFF
    → (if leb fmt 2 then w else 0) ≡ w % 2 ^ 32
plain_time fmt old w last h small = ground arith

-- The extended field is read when it was written, and gives the time modulo 2 ^ 32.
pub read_extended_lem :
    (fmt old w : ℕ) (mid : List ℕ) (c : Cache)
    → (fmt ≡ 3 → (w ≡ 0) × (old ≢ 0xFFFFFF))
    → fmt < 4
    → Receives
        (read_extended fmt old (if leb fmt 2 then capped w else 0))
        ((if leb 0xFFFFFF w then ntoh_write_ud w else []) ++ mid)
        c
        (w % 2 ^ 32)
        mid
        c
unfolding read_extended
read_extended_lem fmt old w mid c last h = elim (Bool-cases (leb 0xFFFFFF w)) [
  | inl e ↦
      rw (extended_test fmt old w last h, e)
        (read_block (ntoh_write_ud w) mid c _ (w % 2 ^ 32) c 4 (length-ntoh w) (omega arith) (
          rw (ntoh_write_ud_truncates w, ntoh_read_ud-ntoh_write_ud (w % 2 ^ 32) (omega arith))
            (Receives-pure (w % 2 ^ 32) mid c)))
  | inr e ↦
      rw (extended_test fmt old w last h, e)
        (Receives-silent (pure (if leb fmt 2 then w else 0)) mid c (w % 2 ^ 32) c
          (λ r. ap (λ (v : ℕ). (got v, (r, c))) (plain_time fmt old w last h (not_leb→lt e))))
]
