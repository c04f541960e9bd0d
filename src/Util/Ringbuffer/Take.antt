-- ===== src/Util/Ringbuffer/Take.antt =====
-- src/util/ringbuffer.c: where the bytes of a read stand, and committing it.
use native.Mathlib.Nat.{mod-add-mod, mod-lt}
use lib_open_rtmp.Base.{
  ℕ, ◌+◌, ◌-◌, ◌%◌, ◌≤◌, ◌<◌, min, ◌≡◌, refl, sym, ap, ap₂, ◌∙◌, ◌⊎◌, inl, inr, true, false, List,
  arith, get_or, span, drop, Bool-cases, ◌==◌, ==→eq, span_ext, span_empty, drop-span,
}
use lib_open_rtmp.Util.Ringbuffer.{
  Ring, get_read_buf, clamp_read, advance_read, clear, clear_if_empty, commit_read,
}
use lib_open_rtmp.Util.Ringbuffer.Inv.{IsValid, byte_at, contents, readable, mod_cases}

-- The place that `ringbuffer_get_read_buf` gives is inside the block, and as long as what is
-- readable or the distance to the end of the block.
pub get_read_buf_lem :
    {r : Ring}
    → IsValid r
    → ((get_read_buf r).0 ≡ (r.start + r.read_offset) % r.size)
      × ((get_read_buf r).1 ≡ min (readable r) (r.size - (get_read_buf r).0))
      × ((get_read_buf r).0 < r.size)
unfolding get_read_buf
get_read_buf_lem {r} v = ground (arith, mod_cases (r.start + r.read_offset) r.size)

-- What an unread ring would give again: all that is stored from `start` on.
abbrev pub stored_bytes : Ring → List ℕ
stored_bytes r = span (byte_at r) r.start (r.len + r.write_offset)

-- A read does not lose bytes: it is frozen, or there are none.
abbrev pub IsHeld : Ring → Type 0
IsHeld r = (r.read_frozen ≡ true) ⊎ (r.len ≡ 0)

-- The first `n` bytes were read.
pub record Advanced (r : Ring) (n : ℕ) (r' : Ring) : Type 0 where
  pub valid : IsValid r'
  pub rest : contents r' ≡ drop n (contents r)
  pub left : readable r' + n ≡ readable r
  pub same_size : r'.size ≡ r.size
  pub no_write : r'.write_offset ≡ 0
  pub same_mem : r'.mem ≡ r.mem
  pub cursor :
      ((r'.start + r'.read_offset) % r.size ≡ (r.start + r.read_offset + n) % r.size)
      ⊎ (readable r' ≡ 0)
  pub held : IsHeld r → IsHeld r' × (stored_bytes r' ≡ stored_bytes r)

module _ (r : Ring) (n : ℕ) (v : IsValid r) (idle : r.write_offset ≡ 0) (few : n ≤ readable r) where
  clamp_read_lem : clamp_read r n ≡ n
  unfolding clamp_read
  clamp_read_lem = ground (arith, v)

  frozen : Ring
  frozen = record r { read_offset = r.read_offset + n }

  thawed : Ring
  thawed = record r { start = (r.start + n) % r.size; len = r.len - n }

  frozen_eq : r.read_frozen ≡ true → advance_read r n ≡ frozen
  unfolding advance_read frozen
  frozen_eq e = ground (arith, v)

  thawed_eq : r.read_frozen ≡ false → advance_read r n ≡ thawed
  unfolding advance_read thawed
  thawed_eq e = ground (arith, v, v.read_idle e)

  frozen-Advanced : r.read_frozen ≡ true → Advanced r n frozen
  unfolding frozen
  frozen-Advanced e = record {
    valid = ground (arith, v);
    rest =
        ap₂ (λ (o k : ℕ). span (byte_at r) o k) (omega arith) (omega arith)
        ∙ sym (drop-span (byte_at r) (r.start + r.read_offset) n (readable r) few);
    left = omega (arith, v);
    same_size = refl;
    no_write = idle;
    same_mem = refl;
    cursor = inl (ap (λ (k : ℕ). k % r.size) (omega arith));
    held = λ h. (inl e, refl);
  }

  shifted :
      (i : ℕ)
      → ((r.start + n) % r.size + r.read_offset + i) % r.size
        ≡ (r.start + r.read_offset + n + i) % r.size
  shifted i =
      ap (λ (k : ℕ). k % r.size) (regroup ((r.start + n) % r.size))
      ∙ mod-add-mod (r.start + n) r.size (r.read_offset + i)
      ∙ ap (λ (k : ℕ). k % r.size) (omega arith)
    where
      regroup : (a : ℕ) → a + r.read_offset + i ≡ a + (r.read_offset + i)
      regroup a = omega arith

  add-zero_sym : (a : ℕ) → a ≡ a + 0
  add-zero_sym a = omega arith

  nothing-IsHeld :
      r.read_frozen ≡ false → IsHeld r → IsHeld thawed × (stored_bytes thawed ≡ stored_bytes r)
  unfolding thawed
  nothing-IsHeld e (inl f) = cc
  nothing-IsHeld e (inr z) = (
    inr (omega arith),
    span_empty (byte_at thawed) ((r.start + n) % r.size) (omega arith)
        ∙ sym (span_empty (byte_at r) r.start (omega arith)),
  )

  thawed-Advanced : r.read_frozen ≡ false → Advanced r n thawed
  unfolding thawed
  thawed-Advanced e = record {
    valid = ground (arith, v, mod-lt (r.start + n) v.pos);
    rest =
        span_ext (byte_at thawed) (byte_at r) ((r.start + n) % r.size + r.read_offset)
          (r.start + r.read_offset + n) (r.len - n + r.write_offset - r.read_offset)
          (λ i l. ap (λ (k : ℕ). get_or r.mem k 0) (shifted i))
        ∙ ap₂ (λ (o k : ℕ). span (byte_at r) o k) refl (omega arith)
        ∙ sym (drop-span (byte_at r) (r.start + r.read_offset) n (readable r) few);
    left = omega (arith, v, v.read_idle e);
    same_size = refl;
    no_write = idle;
    same_mem = refl;
    cursor = inl (
        ap (λ (k : ℕ). k % r.size) (add-zero_sym ((r.start + n) % r.size + r.read_offset))
        ∙ shifted 0
        ∙ ap (λ (k : ℕ). k % r.size) (omega arith));
    held = nothing-IsHeld e;
  }

  advance_read_lem : Advanced r n (advance_read r n)
  advance_read_lem = elim (Bool-cases r.read_frozen) [
    | inl e ↦ rw (frozen_eq e) (frozen-Advanced e)
    | inr e ↦ rw (thawed_eq e) (thawed-Advanced e)
  ]

  clear_if_empty_lem : (s : Ring) → Advanced r n s → Advanced r n (clear_if_empty s)
  unfolding clear_if_empty clear
  clear_if_empty_lem s a = elim (Bool-cases (s.len == 0)) [
    | inr e ↦ rw e a
    | inl e ↦ rw e (record {
      valid = ground (arith, a.valid);
      rest =
          sym
            (span_empty (byte_at s) (s.start + s.read_offset) (omega (arith, ==→eq e, a.no_write)))
          ∙ a.rest;
      left = omega (arith, ==→eq e, a.no_write, a.left, a.valid);
      same_size = a.same_size;
      no_write = refl;
      same_mem = a.same_mem;
      cursor = inr refl;
      held = λ h. (
        inr refl,
        sym (span_empty (byte_at s) s.start (omega (arith, ==→eq e, a.no_write))) ∙ (a.held h).1,
      );
    })
  ]

  -- `ringbuffer_commit_read` of `n` readable bytes returns `n` and takes exactly those away.
  pub commit_read_lem : ((commit_read r n).0 ≡ n) × Advanced r n (commit_read r n).1
  unfolding commit_read
  commit_read_lem =
      (clamp_read_lem, rw clamp_read_lem (clear_if_empty_lem (advance_read r n) advance_read_lem))
