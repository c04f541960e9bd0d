-- ===== src/Amf/Read/Items.antt =====
-- src/amf/amf_object.c: `amf_read` on what `amf_write` has written.
use lib_open_rtmp.Base.{
  ℕ, suc, ◌+◌, ◌-◌, ◌^◌, ◌≤◌, ◌<◌, ◌≡◌, refl, sym, ap, ap₂, ◌∙◌, subst, inl, inr, Bool, true, false,
  none, some, List, [], ◌∷◌, ◌++◌, append_assoc, append-nil, arith, length, take, lt→ltb,
  length-append, take-append_front,
}
use lib_open_rtmp.Util.Memutil.{ntoh_write_ud}
use lib_open_rtmp.Amf.Format.{
  format, format_members, Plain, PlainMembers, text_bytes, text_bytes_short, text_bytes_long,
  name_bytes, end_bytes,
}
use lib_open_rtmp.Amf.Value.{
  AmfValue, v_double, v_integer, v_boolean, v_string, v_xml, v_reference, v_date, v_object, v_array,
  v_empty, Members, no_members, member, member_count,
}
use lib_open_rtmp.Amf.Builder.{Amf, amf_create}
use lib_open_rtmp.Amf.Builder.Slots.{top-Slot}
use lib_open_rtmp.Amf.Encode.{Memory}
use lib_open_rtmp.Amf.Write.{amf_write}
use lib_open_rtmp.Amf.Write.Items.{format_items, PlainItems, amf_write_lem}
use lib_open_rtmp.Amf.Read.{read_loop, read_round, read_member_name, read_done, amf_read}
use lib_open_rtmp.Amf.Read.Rounds.{building, reading}
use lib_open_rtmp.Amf.Read.Measure.{objects, rounds, rounds_in}
use lib_open_rtmp.Amf.Read.Reach.{Reaches, at_item, follows, starts}
use lib_open_rtmp.Amf.Read.Nested.{value_read}

-- A value takes fewer rounds than bytes.
mutual
  unfolding rounds format Plain text_bytes

  rounds-lt : (v : AmfValue) → Plain v → rounds v < length (format v)
  rounds-lt (v_double n) h = omega arith
  rounds-lt (v_integer n) h = absurd h
  rounds-lt (v_boolean b) h = omega arith
  rounds-lt (v_string s) (inl h) = rw (text_bytes_short s h) (omega arith)
  rounds-lt (v_string s) (inr h) = rw (text_bytes_long s h) (omega arith)
  rounds-lt (v_xml s) h = omega arith
  rounds-lt (v_reference n r) h = absurd h
  rounds-lt (v_date t z) h = omega arith
  rounds-lt (v_object ms) h = omega (arith, rounds_in-le ms h end_bytes)
  rounds-lt (v_array assoc len ordinal) h = omega (
    arith,
    rounds_in-le assoc h.1 (format_members ordinal end_bytes),
    rounds_in-le ordinal h.2 end_bytes,
    length-append (ntoh_write_ud (member_count assoc))
        (format_members assoc (format_members ordinal end_bytes)),
  )
  rounds-lt (v_empty type) h = omega arith

  rounds_in-le :
      (ms : Members)
      → PlainMembers ms
      → (bs : List ℕ) → rounds_in ms + length bs ≤ length (format_members ms bs)
  rounds_in-le no_members h bs = omega arith
  rounds_in-le (member name v ms) h bs = omega (
    arith,
    rounds-lt v h.1,
    rounds_in-le ms h.2 bs,
    length-append (name_bytes name) (format v ++ format_members ms bs),
    length-append (format v) (format_members ms bs),
  )

unfoldable pub objects_all : List AmfValue → ℕ
unfolding objects
objects_all [] = 0
objects_all (v ∷ vs) = objects v + objects_all vs

rounds_all : List AmfValue → ℕ
rounds_all [] = 0
rounds_all (v ∷ vs) = suc (rounds v + rounds_all vs)

rounds_all-le : (vs : List AmfValue) → PlainItems vs → rounds_all vs ≤ length (format_items vs)
unfolding PlainItems format_items rounds_all
rounds_all-le [] h = omega arith
rounds_all-le (v ∷ vs) h =
    omega (arith, rounds-lt v h.0, rounds_all-le vs h.1, length-append (format v) (format_items vs))

module _ (malloc : ℕ → Bool) (memory : (n : ℕ) → n ≤ 2 ^ 31 → malloc n ≡ true) where
  item_round :
      (refs : ℕ) (items : List AmfValue) (count0 : ℕ) (rest : List ℕ) (o size fuel : ℕ)
      → 0 < length rest
      → read_loop malloc (suc fuel) (reading (building refs 0 items count0 false) rest o size)
        ≡ at_item malloc memory fuel (building refs 0 items count0 false) rest o size
  unfolding read_loop read_round read_member_name
  item_round refs items count0 rest o size fuel h = rw (lt→ltb h) refl

  items_read :
      (vs : List AmfValue)
      → PlainItems vs
      → (refs : ℕ) (done : List AmfValue) (count0 : ℕ) (rest : List ℕ) (o size fuel : ℕ)
      → length (format_items vs ++ rest) < 2 ^ 31
      → Reaches malloc memory
          (read_loop malloc
            (rounds_all vs + fuel)
            (reading (building refs 0 done count0 false) (format_items vs ++ rest) o size))
          fuel
          (building refs 0 (done ++ vs) (count0 + objects_all vs) false)
          rest
          (o + length (format_items vs ++ rest))
  unfolding PlainItems format_items objects_all rounds_all
  items_read [] h refs done count0 rest o size fuel small = (
    o,
    size,
    refl,
    ap₂ (λ (k : ℕ) a. read_loop malloc k (reading a rest o size)) (omega arith)
        (ap₂ (λ items (k : ℕ). building refs 0 items k false) (sym (append-nil done))
          (omega arith)),
  )
  items_read (v ∷ vs) h refs done count0 rest o size fuel small =
      starts malloc memory _ _ fuel _ final rest _ _
        (ap₂
            (λ (k : ℕ) bs.
              read_loop malloc k (reading (building refs 0 done count0 false) bs o size))
            (omega arith) whole
          ∙ item_round refs done count0 (format v ++ (format_items vs ++ rest)) o size
              (rounds v + (rounds_all vs + fuel))
              (omega (arith, rounds-lt v h.0, length-append (format v) (format_items vs ++ rest))))
        (ap (λ bs. o + length bs) (sym whole))
        (ap₂ (λ items (k : ℕ). building refs 0 items k false) (append_assoc done (v ∷ []) vs)
          (omega arith))
        (follows malloc memory _ (rounds_all vs + fuel) fuel _ final (format_items vs ++ rest) rest
          _
          (value_read malloc memory v h.0 refs 0 done count0 false (λ x. done ++ x ∷ [])
            (top-Slot done) refl (format_items vs ++ rest) o size (rounds_all vs + fuel)
            (omega (arith, ap length whole)))
          (λ o' size' at. starts malloc memory _ _ fuel _ final rest _ _ refl at refl (
            items_read vs h.1 refs (done ++ v ∷ []) (count0 + objects v) rest o' size' fuel (
              omega (arith, ap length whole, length-append (format v) (format_items vs ++ rest))))))
    where
      final : Amf
      final = building refs 0 ((done ++ v ∷ []) ++ vs) (count0 + objects v + objects_all vs) false

      whole : (format v ++ format_items vs) ++ rest ≡ format v ++ (format_items vs ++ rest)
      whole = append_assoc (format v) (format_items vs) rest

  -- Data in the format of some values that come back as they were is read as those values, and all
  -- of it, with one round of fuel for each byte and one more.
  pub amf_read-format_items :
      (vs : List AmfValue) (junk : ℕ)
      → PlainItems vs
      → length (format_items vs) < 2 ^ 31
      → amf_read malloc (suc (length (format_items vs))) junk amf_create (format_items vs)
        ≡ read_done
            (length (format_items vs))
            (record amf_create { items = vs; ref_count = objects_all vs })
  unfolding amf_read amf_create read_loop
  amf_read-format_items vs junk h small =
      let (o, size, at, run) =
        items_read vs h 0 [] 0 [] 0 junk (suc (length (format_items vs) - rounds_all vs))
          (omega (arith, ap length (append-nil (format_items vs)))) in
      ap₂ (λ (k : ℕ) bs. read_loop malloc k (reading (building 0 0 [] 0 false) bs 0 junk)) enough
        (sym (append-nil (format_items vs)))
      ∙ run
      ∙ ap₂ (λ (k : ℕ) (n : ℕ). read_done k (building 0 0 vs n false))
          (omega (arith, at, ap length (append-nil (format_items vs)))) (omega arith)
    where
      enough :
          suc (length (format_items vs))
          ≡ rounds_all vs + suc (length (format_items vs) - rounds_all vs)
      enough = omega (arith, rounds_all-le vs h)

-- The bytes that `amf_write` has written.
unfoldable pub sent : ℕ × ℕ × Memory → List ℕ
sent (n, i, none) = []
sent (n, i, some mem) = take n mem

-- What `amf_write` writes into a buffer with room for it, `amf_read` reads back: the same values,
-- with the number of objects and arrays among them in the reference table, and all the bytes. The
-- values are those that come back as they were, and there is memory for what is read.
pub amf_read-amf_write :
    (malloc : ℕ → Bool)
    → ((n : ℕ) → n ≤ 2 ^ 31 → malloc n ≡ true)
    → (amf : Amf) (mem : List ℕ) (junk : ℕ) → PlainItems amf.items
    → length (format_items amf.items) ≤ length mem
    → length (format_items amf.items) < 2 ^ 31
    → amf_read malloc
        (suc (length (sent (amf_write amf (some mem)))))
        junk
        amf_create
        (sent (amf_write amf (some mem)))
      ≡ read_done
          (length (sent (amf_write amf (some mem))))
          (record amf_create { items = amf.items; ref_count = objects_all amf.items })
unfolding sent
amf_read-amf_write malloc memory amf mem junk h fits small =
    subst
      (λ bs.
        amf_read malloc (suc (length bs)) junk amf_create bs
        ≡ read_done (length bs)
            (record amf_create { items = amf.items; ref_count = objects_all amf.items }))
      (sym bytes_sent) (amf_read-format_items malloc memory amf.items junk h small)
  where
    bytes_sent : sent (amf_write amf (some mem)) ≡ format_items amf.items
    bytes_sent =
        ap sent (amf_write_lem amf mem h fits small)
        ∙ take-append_front (length (format_items amf.items)) (format_items amf.items) _ refl
