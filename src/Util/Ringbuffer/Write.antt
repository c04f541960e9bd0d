-- ===== src/Util/Ringbuffer/Write.antt =====
-- src/util/ringbuffer.c: copying into the ring.
use lib_open_rtmp.Base.{
  ℕ, ◌+◌, ◌-◌, ◌≤◌, ◌<◌, min, ◌≡◌, refl, sym, ap, ◌∙◌, inl, inr, true, List, ◌++◌, arith, length,
  take, drop, if◌then◌else◌, leb, leb→le, not_leb→lt, sub64, ltb, Bool-cases, ◌^◌, append_assoc,
  length-append, take-append-take-drop, take_congr, take_of_le, length-take,
}
use lib_open_rtmp.Util.Ringbuffer.{
  Ring, get_write_buf, commit_write, put, copy_write, copy_write_round,
}
use lib_open_rtmp.Util.Ringbuffer.Inv.{IsValid, contents, free_space, mod_cases}
use lib_open_rtmp.Util.Ringbuffer.Place.{
  get_write_buf_lem, commit_write_lem, commit_write_keeps, contents-commit_write, stored,
  stored-IsValid, stored-span,
}

-- `bs` was appended to what the ring holds, and the ring is still sound.
pub record Appended (r : Ring) (bs : List ℕ) (r' : Ring) : Type 0 where
  pub valid : IsValid r'
  pub bytes : contents r' ≡ contents r ++ bs
  pub same_size : r'.size ≡ r.size
  pub free : free_space r' + length bs ≡ free_space r
  pub same_start : r'.start ≡ r.start
  pub same_read : r'.read_offset ≡ r.read_offset
  pub same_len : r.write_frozen ≡ true → r'.len ≡ r.len
  pub same_frozen : (r'.read_frozen ≡ r.read_frozen) × (r'.write_frozen ≡ r.write_frozen)

commit_write_frozen :
    (r : Ring) (n : ℕ)
    → ((commit_write r n).1.read_frozen ≡ r.read_frozen)
      × ((commit_write r n).1.write_frozen ≡ r.write_frozen)
unfolding commit_write
commit_write_frozen r n = elim (Bool-cases r.write_frozen) [
  | inl e ↦ rw e (refl, refl)
  | inr e ↦ rw e (refl, refl)
]

commit_write_len : (r : Ring) (n : ℕ) → r.write_frozen ≡ true → (commit_write r n).1.len ≡ r.len
unfolding commit_write
commit_write_len r n e = rw e refl

put-Appended :
    (r : Ring) (bs : List ℕ)
    → IsValid r
    → length bs ≤ (get_write_buf r).1
    → Appended r bs (put r bs)
unfolding put
put-Appended r bs v room =
    let w : Ring = stored r bs v room in
    let sound : IsValid w = stored-IsValid r bs v room in
    let enough : length bs ≤ free_space w = omega (arith, get_write_buf_lem v) in
    let (_, moved, valid) = commit_write_lem (length bs) sound enough in
    let keeps = commit_write_keeps w (length bs) in
    record {
      valid = valid;
      bytes = contents-commit_write w (length bs) sound enough ∙ stored-span r bs v room;
      same_size = keeps.2;
      free = omega arith;
      same_start = keeps.1;
      same_read = keeps.3;
      same_len = commit_write_len w (length bs);
      same_frozen = commit_write_frozen w (length bs);
    }

pub Appended-trans :
    {r s t : Ring} {xs ys : List ℕ} → Appended r xs s → Appended s ys t → Appended r (xs ++ ys) t
Appended-trans {r} {s} {t} {xs} {ys} a b = record {
  valid = b.valid;
  bytes = b.bytes ∙ ap (λ zs. zs ++ ys) a.bytes ∙ append_assoc (contents r) xs ys;
  same_size = b.same_size ∙ a.same_size;
  free = omega (arith, a.free, b.free, length-append xs ys);
  same_start = b.same_start ∙ a.same_start;
  same_read = b.same_read ∙ a.same_read;
  same_len = λ e. b.same_len (a.same_frozen.1 ∙ e) ∙ a.same_len e;
  same_frozen = (b.same_frozen.0 ∙ a.same_frozen.0, b.same_frozen.1 ∙ a.same_frozen.1);
}

-- When the first block is filled, the second holds all the space that is left.
room_after_first :
    (r : Ring) (bs : List ℕ) (s : Ring)
    → IsValid r
    → length bs ≡ (get_write_buf r).1
    → Appended r bs s
    → (get_write_buf s).1 ≡ free_space s
room_after_first r bs s v e a = ground (
  arith,
  a.valid,
  a.free,
  a.same_size,
  a.same_start,
  get_write_buf_lem v,
  get_write_buf_lem a.valid,
  mod_cases (r.start + r.len + r.write_offset) r.size,
  mod_cases (s.start + s.len + s.write_offset) s.size,
)

copy_write_round_lem :
    (r : Ring) (src : List ℕ)
    → IsValid r
    → length src < 2 ^ 64
    → (get_write_buf r).1 < length src
    → ((copy_write_round r src (get_write_buf r).1).0 ≡ min (length src) (free_space r))
      × Appended r (take (free_space r) src) (copy_write_round r src (get_write_buf r).1).1
unfolding copy_write_round
copy_write_round_lem r src v word long =
    (omega (arith, more-eq, space), rw same (Appended-trans first second))
  where
    room : ℕ
    room = (get_write_buf r).1

    once : Ring
    once = put r (take room src)

    full : length (take room src) ≡ room
    full = omega (arith, length-take room src)

    first : Appended r (take room src) once
    first = put-Appended r (take room src) v (omega (arith, full))

    all_free : (get_write_buf once).1 ≡ free_space once
    all_free = room_after_first r (take room src) once v full first

    more : ℕ
    more =
        if ltb (get_write_buf once).1 (sub64 (length src) room)
        then (get_write_buf once).1
        else sub64 (length src) room

    more-eq : more ≡ min (free_space once) (length src - room)
    more-eq = ground (arith, all_free)

    space : free_space once + room ≡ free_space r
    space = omega (arith, first.free, full)

    fits_next : length (take more (drop room src)) ≤ (get_write_buf once).1
    fits_next = omega (arith, more-eq, all_free, length-take more (drop room src))

    second : Appended once (take more (drop room src)) (put once (take more (drop room src)))
    second = put-Appended once (take more (drop room src)) first.valid fits_next

    same : take (free_space r) src ≡ take room src ++ take more (drop room src)
    same =
        take_congr (free_space r) (room + more) src (omega (arith, more-eq, space))
        ∙ sym (take-append-take-drop room more src)

-- `ringbuffer_copy_write` writes as much of `src` as there is free space, returns that amount and
-- appends exactly those bytes to what the ring holds, whether the ring is frozen or not.
pub copy_write_lem :
    (r : Ring) (src : List ℕ)
    → IsValid r
    → length src < 2 ^ 64
    → ((copy_write r src).0 ≡ min (length src) (free_space r))
      × Appended r (take (free_space r) src) (copy_write r src).1
unfolding copy_write
copy_write_lem r src v word = elim (Bool-cases (leb (length src) room)) [
  | inl one ↦ rw one (
    omega (arith, get_write_buf_lem v, leb→le one),
    rw (take_of_le (free_space r) src (omega (arith, get_write_buf_lem v, leb→le one)))
        (put-Appended r src v (leb→le one)),
  )
  | inr two ↦ rw two (copy_write_round_lem r src v word (not_leb→lt two))
]
  where
    room : ℕ
    room = (get_write_buf r).1
