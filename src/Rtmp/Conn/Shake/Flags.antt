-- ===== src/Rtmp/Conn/Shake/Flags.antt =====
-- src/rtmp/rtmp_chunk_conn.c: the flags of the handshake and its nonces.
use lib_open_rtmp.Base.{
  ℕ, ◌≡◌, refl, Bool, true, false, List, none, some, inl, inr, Bool-cases, arith,
}
use lib_open_rtmp.Util.Memutil.{Nonce, nonce_del, nonce_gen, nonce_alloc}
use lib_open_rtmp.Rtmp.Conn.{Conn, Callback, call, connect_fail, shaking_done, or_fail}
use lib_open_rtmp.Rtmp.Conn.Shake.{
  World, gen_c, gen_s, alloc_c, alloc_s, alloc_verify, tryfinalize, finalized, set_c0, set_c1,
  set_c2, set_s0, set_s1, set_s2, nonce_result,
}
use lib_open_rtmp.Rtmp.Conn.Shake.Step.{
  View, view, connects, has_nonce, InOrder, Outcome, Step, reported, weaken,
}

-- What holds when the flag for a message is about to be set.
abbrev pub BeforeC0 : View → Type 0
BeforeC0 v = InOrder v × (v.status.c0 ≡ false)

abbrev pub BeforeS0 : View → Type 0
BeforeS0 v = InOrder v × (v.status.c0 ≡ true) × (v.status.s0 ≡ false)

abbrev pub BeforeC1 : View → Type 0
BeforeC1 v = InOrder v × (v.status.c0 ≡ true) × (v.status.c1 ≡ false)

abbrev pub BeforeS1 : View → Type 0
BeforeS1 v = InOrder v × (v.status.s0 ≡ true) × (v.status.s1 ≡ false)

pub set_c0-InOrder : (c : Conn) → BeforeC0 (view c) → InOrder (view (set_c0 c))
unfolding view
set_c0-InOrder c h = ground arith

pub set_s0-InOrder : (c : Conn) → BeforeS0 (view c) → InOrder (view (set_s0 c))
unfolding view
set_s0-InOrder c h = ground arith

pub set_c1-InOrder :
    (c : Conn) → BeforeC1 (view c) → (view c).has_c ≡ true → InOrder (view (set_c1 c))
unfolding view
set_c1-InOrder c h n = ground arith

pub set_s1-InOrder :
    (c : Conn) → BeforeS1 (view c) → (view c).has_s ≡ true → InOrder (view (set_s1 c))
unfolding view
set_s1-InOrder c h n = ground arith

abbrev pub BeforeC2 : View → Type 0
BeforeC2 v = InOrder v × (v.status.c1 ≡ true) × (v.status.s1 ≡ true) × (v.status.c2 ≡ false)

abbrev pub BeforeS2 : View → Type 0
BeforeS2 v = InOrder v × (v.status.c1 ≡ true) × (v.status.s1 ≡ true) × (v.status.s2 ≡ false)

pub set_c2-InOrder :
    (callback : Callback) (c : Conn)
    → BeforeC2 (view c)
    → InOrder (view (tryfinalize callback (set_c2 c)))
unfolding view tryfinalize finalized call connects has_nonce nonce_del
set_c2-InOrder callback c h = elim (Bool-cases (shaking_done (set_c2 c).status)) [
  | inl e ↦ rw e (ground arith)
  | inr e ↦ rw e (ground arith)
]

pub set_s2-InOrder :
    (callback : Callback) (c : Conn)
    → BeforeS2 (view c)
    → InOrder (view (tryfinalize callback (set_s2 c)))
unfolding view tryfinalize finalized call connects has_nonce nonce_del
set_s2-InOrder callback c h = elim (Bool-cases (shaking_done (set_s2 c).status)) [
  | inl e ↦ rw e (ground arith)
  | inr e ↦ rw e (ground arith)
]

pub gen_fine : (b : Nonce) (rs : List ℕ) → (nonce_gen b rs).0 ≡ has_nonce (nonce_gen b rs).1
unfolding nonce_gen has_nonce
gen_fine none rs = refl
gen_fine (some bs) rs = refl

pub alloc_fine : (b : Nonce) → (nonce_alloc b).0 ≡ has_nonce (nonce_alloc b).1
unfolding nonce_alloc has_nonce
alloc_fine none = refl
alloc_fine (some bs) = refl

abbrev pub WithC : View → Type 0
WithC v = BeforeC1 v × (v.has_c ≡ true)

abbrev pub WithS : View → Type 0
WithS v = BeforeS1 v × (v.has_s ≡ true)

-- A new nonce, or none, before its message.
pub taken_c :
    (fine : Bool) (n : Nonce) (c : Conn)
    → fine ≡ has_nonce n
    → BeforeC1 (view c)
    → Outcome InOrder WithC (nonce_result fine, record c { nonce_c = n })
unfolding nonce_result view
taken_c true n c e h = ground arith
taken_c false n c e h = ground arith

pub taken_s :
    (fine : Bool) (n : Nonce) (c : Conn)
    → fine ≡ has_nonce n
    → BeforeS1 (view c)
    → Outcome InOrder WithS (nonce_result fine, record c { nonce_s = n })
unfolding nonce_result view
taken_s true n c e h = ground arith
taken_s false n c e h = ground arith

-- The block for a check leaves the connection as it is.
pub taken_verify :
    (P : View → Type 0) (fine : Bool) (c : Conn) → P (view c) → Outcome P P (nonce_result fine, c)
unfolding nonce_result
taken_verify P true c h = h
taken_verify P false c h = h

module _ (callback : Callback) (w : World) where
  pub gen_c-Step : Step BeforeC1 InOrder WithC (or_fail callback connect_fail (gen_c w))
  unfolding gen_c
  gen_c-Step c h =
      reported callback InOrder WithC (gen_c w c) (taken_c _ _ c (gen_fine w.block w.random) h)

  pub gen_s-Step : Step BeforeS1 InOrder WithS (or_fail callback connect_fail (gen_s w))
  unfolding gen_s
  gen_s-Step c h =
      reported callback InOrder WithS (gen_s w c) (taken_s _ _ c (gen_fine w.block w.random) h)

  pub alloc_c-Step : Step BeforeC1 InOrder WithC (or_fail callback connect_fail (alloc_c w))
  unfolding alloc_c
  alloc_c-Step c h =
      reported callback InOrder WithC (alloc_c w c) (taken_c _ _ c (alloc_fine w.block) h)

  pub alloc_s-Step : Step BeforeS1 InOrder WithS (or_fail callback connect_fail (alloc_s w))
  unfolding alloc_s
  alloc_s-Step c h =
      reported callback InOrder WithS (alloc_s w c) (taken_s _ _ c (alloc_fine w.block) h)

  pub alloc_verify-Step :
      (P : View → Type 0)
      → ((v : View) → P v → InOrder v)
      → Step P InOrder P (or_fail callback connect_fail (alloc_verify w))
  unfolding alloc_verify
  alloc_verify-Step P order c h =
      weaken P InOrder P _ order
        (reported callback P P (alloc_verify w c) (taken_verify P (nonce_alloc w.block).0 c h))
