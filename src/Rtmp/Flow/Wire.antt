-- ===== src/Rtmp/Flow/Wire.antt =====
-- What a step writes to a ring or reads from one, as lists of bytes, and how steps compose.
use lib_open_rtmp.Base.{
  Bool, ℕ, ◌^◌, ◌≤◌, ◌<◌, min, ◌≡◌, refl, ap, ap₂, ◌∙◌, List, ◌++◌, arith, length, take, drop,
  le→not_ltb, lt→ltb, take_of_le, take-append, drop-append, length-append, if◌then◌else◌,
}
use lib_open_rtmp.Util.Ringbuffer.{Ring, copy_read, copy_write}
use lib_open_rtmp.Util.Ringbuffer.Inv.{IsValid, contents, readable, free_space, length-contents}
use lib_open_rtmp.Util.Ringbuffer.Write.{Appended, Appended-trans, copy_write_lem}
use lib_open_rtmp.Util.Ringbuffer.Read.{copy_read_lem}
use lib_open_rtmp.Rtmp.Errors.{again}
use lib_open_rtmp.Rtmp.Session.{got, failed, M, pure, next, ◌>>=◌}
use lib_open_rtmp.Rtmp.Flow.{write_all, read_all}

-- A ring with the bytes `bs` to read and no write under way.
pub record Ready (r : Ring) (bs : List ℕ) : Type 0 where
  pub valid : IsValid r
  pub idle : r.write_offset ≡ 0
  pub bytes : contents r ≡ bs

-- From a ring that holds `bs`, the step returns `a` and leaves `rest`.
abbrev pub Parses : {A : Type 0} → M Ring A → List ℕ → A → List ℕ → Type 0
Parses m bs a rest = (r : Ring) → Ready r bs → (r' : Ring) × (m r ≡ (got a, r')) × Ready r' rest

-- With room for `bs`, the step returns `a` and has appended `bs`.
abbrev pub Emits : {A : Type 0} → M Ring A → List ℕ → A → Type 0
Emits m bs a =
    (r : Ring)
    → IsValid r
    → length bs ≤ free_space r
    → (r' : Ring) × (m r ≡ (got a, r')) × Appended r bs r'

pub Parses-bind :
    {A B : Type 0} (m : M Ring A) (f : A → M Ring B) (bs : List ℕ) (a : A) (mid : List ℕ) (b : B)
    (rest : List ℕ)
    → Parses m bs a mid
    → Parses (f a) mid b rest
    → Parses (m >>= f) bs b rest
Parses-bind m f bs a mid b rest p q r ready =
    let (s, run, s_ready) = p r ready in
    let (t, run', t_ready) = q s s_ready in (t, ap (next f) run ∙ run', t_ready)

pub Emits-bind :
    {A B : Type 0} (m : M Ring A) (f : A → M Ring B) (xs : List ℕ) (a : A) (ys : List ℕ) (b : B)
    → Emits m xs a
    → Emits (f a) ys b
    → Emits (m >>= f) (xs ++ ys) b
Emits-bind m f xs a ys b p q r v h =
    let (s, run, s_app) = p r v (omega (arith, length-append xs ys)) in
    let (t, run', t_app) = q s s_app.valid (omega (arith, s_app.free, length-append xs ys)) in
    (t, ap (next f) run ∙ run', Appended-trans s_app t_app)

pub Parses-pure : {A : Type 0} (a : A) (bs : List ℕ) → Parses (pure a) bs a bs
Parses-pure a bs r ready = (r, refl, ready)

-- All the bytes are written when there is room for them.
pub write_all-Emits : (bs : List ℕ) → Emits (write_all bs) bs tt
unfolding write_all
write_all-Emits bs r v h =
    let (n, app) = copy_write_lem r bs v (omega (arith, v)) in
    (
      (copy_write r bs).1,
      ap (λ (b : Bool). (if b then failed again else got tt, (copy_write r bs).1))
          (le→not_ltb (omega (arith, n))),
      (rw (take_of_le (free_space r) bs h) at app),
    )

-- With less room than that the step reports RTMP_ERR_AGAIN.
pub write_all_full :
    (bs : List ℕ) (r : Ring)
    → IsValid r
    → length bs < 2 ^ 64
    → free_space r < length bs
    → (write_all bs r).0 ≡ failed again
unfolding write_all
write_all_full bs r v w h =
    ap (λ (b : Bool). if b then failed again else got tt)
      (lt→ltb (omega (arith, (copy_write_lem r bs v w).0)))

pub read_all-Parses :
    (bs rest : List ℕ) → length bs < 2 ^ 64 → Parses (read_all (length bs)) (bs ++ rest) bs rest
unfolding read_all
read_all-Parses bs rest w r ready =
    let (n, bytes, adv) = copy_read_lem r (length bs) ready.valid ready.idle w in
    let enough : length bs ≤ readable r =
      omega (arith, length-contents r, ap length ready.bytes, length-append bs rest) in
    let all : min (length bs) (readable r) ≡ length bs = omega arith in
    (
      (copy_read r (length bs)).2,
      ap₂ (λ (b : Bool) xs. (if b then failed again else got xs, (copy_read r (length bs)).2))
          (le→not_ltb (omega (arith, n)))
          (bytes ∙ ap (take (length bs)) ready.bytes ∙ take-append bs rest),
      record {
        valid = adv.valid;
        idle = adv.no_write;
        bytes = adv.rest ∙ ap₂ (λ (k : ℕ) xs. drop k xs) all ready.bytes ∙ drop-append bs rest;
      },
    )
