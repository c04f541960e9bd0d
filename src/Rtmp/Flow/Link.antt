-- ===== src/Rtmp/Flow/Link.antt =====
-- Steps on a ring and a header cache: what they write and read, and how they compose.
use lib_open_rtmp.Base.{
  ℕ, ◌≤◌, ◌<◌, ◌≡◌, refl, sym, ap, ◌∙◌, List, [], ◌++◌, append-nil, arith, length, length-append,
}
use lib_open_rtmp.Util.Ringbuffer.{Ring}
use lib_open_rtmp.Util.Ringbuffer.Inv.{IsValid, free_space, contents}
use lib_open_rtmp.Util.Ringbuffer.Write.{Appended, Appended-trans}
use lib_open_rtmp.Rtmp.Session.{got, M, pure, next, ◌>>=◌}
use lib_open_rtmp.Rtmp.Message.{Message}
use lib_open_rtmp.Rtmp.Cache.{Cache, Ref, static, load, store}
use lib_open_rtmp.Rtmp.Cache.Static.{IsSound, load-store_self, store-store, store-load}
use lib_open_rtmp.Rtmp.Flow.{Link, on_ring}
use lib_open_rtmp.Rtmp.Flow.Wire.{Ready, Parses, Emits}

-- From a ring that holds `bs` and the cache `c`, the step returns `a`, leaves `rest` and `c'`.
abbrev pub Receives : {A : Type 0} → M Link A → List ℕ → Cache → A → List ℕ → Cache → Type 0
Receives m bs c a rest c' =
    (r : Ring) → Ready r bs → (r' : Ring) × (m (r, c) ≡ (got a, (r', c'))) × Ready r' rest

-- With room for `bs`, the step returns `a`, has appended `bs` and leaves the cache `c'`.
abbrev pub Sends : {A : Type 0} → M Link A → List ℕ → Cache → A → Cache → Type 0
Sends m bs c a c' =
    (r : Ring)
    → IsValid r
    → length bs ≤ free_space r
    → (r' : Ring) × (m (r, c) ≡ (got a, (r', c'))) × Appended r bs r'

pub Receives-bind :
    {A B : Type 0} (m : M Link A) (f : A → M Link B) (bs : List ℕ) (c : Cache) (a : A)
    (mid : List ℕ) (c' : Cache) (b : B) (rest : List ℕ) (c'' : Cache)
    → Receives m bs c a mid c'
    → Receives (f a) mid c' b rest c''
    → Receives (m >>= f) bs c b rest c''
Receives-bind m f bs c a mid c' b rest c'' p q r ready =
    let (s, run, s_ready) = p r ready in
    let (t, run', t_ready) = q s s_ready in (t, ap (next f) run ∙ run', t_ready)

pub Receives-pure : {A : Type 0} (a : A) (bs : List ℕ) (c : Cache) → Receives (pure a) bs c a bs c
Receives-pure a bs c r ready = (r, refl, ready)

pub Receives-on_ring :
    {A : Type 0} (m : M Ring A) (bs : List ℕ) (a : A) (rest : List ℕ) (c : Cache)
    → Parses m bs a rest
    → Receives (on_ring m) bs c a rest c
Receives-on_ring m bs a rest c p r ready =
    let (s, run, s_ready) = p r ready in (s, ap (λ x. (x.0, (x.1, c))) run, s_ready)

pub Sends-on_ring :
    {A : Type 0} (m : M Ring A) (bs : List ℕ) (a : A) (c : Cache)
    → Emits m bs a
    → Sends (on_ring m) bs c a c
Sends-on_ring m bs a c p r v h =
    let (s, run, app) = p r v h in (s, ap (λ x. (x.0, (x.1, c))) run, app)

pub Sends-bind :
    {A B : Type 0} (m : M Link A) (f : A → M Link B) (xs : List ℕ) (c : Cache) (a : A) (c' : Cache)
    (ys : List ℕ) (b : B) (c'' : Cache)
    → Sends m xs c a c'
    → Sends (f a) ys c' b c''
    → Sends (m >>= f) (xs ++ ys) c b c''
Sends-bind m f xs c a c' ys b c'' p q r v h =
    let (s, run, s_app) = p r v (omega (arith, length-append xs ys)) in
    let (t, run', t_app) = q s s_app.valid (omega (arith, s_app.free, length-append xs ys)) in
    (t, ap (next f) run ∙ run', Appended-trans s_app t_app)

-- The cache with the message at `ref` changed.
abbrev pub changed : Cache → Ref → (Message → Message) → Cache
changed c ref f = store c ref (record (load c ref) { msg = f (load c ref).msg })

pub changed-changed :
    (c : Cache) (i : ℕ) (f g : Message → Message)
    → IsSound c
    → i < 10
    → changed (changed c (static i) f) (static i) g ≡ changed c (static i) (λ m. g (f m))
changed-changed c i f g s h =
    rw (load-store_self c i (record (load c (static i)) { msg = f (load c (static i)).msg }) s h) (
      store-store c i (record (load c (static i)) { msg = f (load c (static i)).msg })
        (record (load c (static i)) { msg = g (f (load c (static i)).msg) }))

pub changed-id : (c : Cache) (i : ℕ) → changed c (static i) (λ m. m) ≡ c
changed-id c i = store-load c i

Appended-nil : (r : Ring) → IsValid r → Appended r [] r
Appended-nil r v = record {
  valid = v;
  bytes = sym (append-nil (contents r));
  same_size = refl;
  free = omega arith;
  same_start = refl;
  same_read = refl;
  same_len = λ e. refl;
  same_frozen = (refl, refl);
}

-- A step that does not touch the ring.
pub Sends-silent :
    {A : Type 0} (m : M Link A) (c : Cache) (a : A) (c' : Cache)
    → ((r : Ring) → m (r, c) ≡ (got a, (r, c')))
    → Sends m [] c a c'
Sends-silent m c a c' run r v h = (r, run r, Appended-nil r v)

pub Receives-silent :
    {A : Type 0} (m : M Link A) (bs : List ℕ) (c : Cache) (a : A) (c' : Cache)
    → ((r : Ring) → m (r, c) ≡ (got a, (r, c')))
    → Receives m bs c a bs c'
Receives-silent m bs c a c' run r ready = (r, run r, ready)
