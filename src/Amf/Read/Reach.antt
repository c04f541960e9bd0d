-- ===== src/Amf/Read/Reach.antt =====
-- src/amf/amf_object.c: from one reader of the loop in `amf_read` to a later one.
use lib_open_rtmp.Base.{
  ℕ, suc, ◌+◌, ◌^◌, ◌≤◌, ◌<◌, ◌≡◌, ap, ◌∙◌, Bool, true, false, some, List, [], ◌∷◌, ◌++◌, arith,
  length, length-append,
}
use lib_open_rtmp.Amf.{complete}
use lib_open_rtmp.Amf.Shorthand.{Value, number, bytes}
use lib_open_rtmp.Amf.Decode.{amf0_next_type}
use lib_open_rtmp.Amf.Builder.{Amf, pushed}
use lib_open_rtmp.Amf.Read.{
  read_item, read_loop, read_on, scan, push, is_text, text_length, text, ReadEnd,
}
use lib_open_rtmp.Amf.Read.Rounds.{reading, next_type_lem, read_item_lem, read_text_lem}

module _ (malloc : ℕ → Bool) (memory : (n : ℕ) → n ≤ 2 ^ 31 → malloc n ≡ true) where
  -- From this reader the loop comes to one with the object `a'` and the data `rest'`, at the offset
  -- that belongs to it.
  abbrev pub Reaches : ReadEnd → ℕ → Amf → List ℕ → ℕ → Type 0
  Reaches end fuel a' rest' sum =
      (o : ℕ) × (size : ℕ) × (o + length rest' ≡ sum)
      × (end ≡ read_loop malloc fuel (reading a' rest' o size))

  -- The round that reads an item, after the name.
  abbrev pub at_item : ℕ → Amf → List ℕ → ℕ → ℕ → ReadEnd
  at_item fuel a rest o size =
      read_on (read_loop malloc fuel)
        (read_item malloc (amf0_next_type rest) (reading a rest o size))

  pub follows :
      (end : ReadEnd) (f f' : ℕ) (a a' : Amf) (r r' : List ℕ) (sum : ℕ)
      → Reaches end f a r sum
      → ((o size : ℕ)
          → o + length r ≡ sum
          → Reaches (read_loop malloc f (reading a r o size)) f' a' r' sum)
      → Reaches end f' a' r' sum
  follows end f f' a a' r r' sum (o, size, at, run) next =
      let (o', size', at', run') = next o size at in (o', size', at', run ∙ run')

  pub starts :
      (end end' : ReadEnd) (f : ℕ) (a a' : Amf) (r : List ℕ) (sum sum' : ℕ)
      → end ≡ end'
      → sum' ≡ sum
      → a' ≡ a
      → Reaches end' f a' r sum'
      → Reaches end f a r sum
  starts end end' f a a' r sum sum' e es ea (o, size, at, run) =
      (o, size, at ∙ es, e ∙ run ∙ ap (λ t. read_loop malloc f (reading t r o size)) ea)

  pub scalar :
      (type : ℕ) (a a' : Amf) (bs rest : List ℕ) (vs : List Value) (o size fuel : ℕ)
      → type ≤ 17
      → scan type (type ∷ (bs ++ rest)) ≡ complete (suc (length bs), vs)
      → length (type ∷ (bs ++ rest)) < 2 ^ 31
      → is_text type ≡ false
      → push malloc type vs a ≡ pushed a'
      → Reaches
          (at_item fuel a (type ∷ (bs ++ rest)) o size)
          fuel
          a'
          rest
          (o + length (type ∷ (bs ++ rest)))
  scalar type a a' bs rest vs o size fuel known scans small plain pushes = (
    o + suc (length bs),
    size,
    omega (arith, length-append bs rest),
    ap
          (λ t.
            read_on (read_loop malloc fuel)
              (read_item malloc t (reading a (type ∷ (bs ++ rest)) o size)))
          (next_type_lem type (bs ++ rest) known)
        ∙ ap (read_on (read_loop malloc fuel)) (
            read_item_lem malloc memory type a a' (type ∷ bs) rest vs o size scans
              (omega (arith, length-append bs rest)) plain pushes),
  )

  pub string_item :
      (type : ℕ) (a a' : Amf) (bs s rest : List ℕ) (k : ℕ) (ws : List Value) (o size fuel : ℕ)
      → type ≤ 17
      → scan type (type ∷ (bs ++ rest)) ≡ complete (0, [])
      → is_text type ≡ true
      → text_length type (type ∷ (bs ++ rest)) ≡ complete (k, number (length s) ∷ [])
      → text type (type ∷ (bs ++ rest)) (length s) ≡ complete (suc (length bs), bytes s ∷ ws)
      → length s < 2 ^ 31
      → length (type ∷ (bs ++ rest)) < 2 ^ 31
      → push malloc type [] (record a { allocation = some s }) ≡ pushed a'
      → Reaches
          (at_item fuel a (type ∷ (bs ++ rest)) o size)
          fuel
          a'
          rest
          (o + length (type ∷ (bs ++ rest)))
  string_item type a a' bs s rest k ws o size fuel known scans is_a_text measures copies short small
        pushes =
      (
        o + suc (length bs),
        length s,
        omega (arith, length-append bs rest),
        ap
              (λ t.
                read_on (read_loop malloc fuel)
                  (read_item malloc t (reading a (type ∷ (bs ++ rest)) o size)))
              (next_type_lem type (bs ++ rest) known)
            ∙ ap (read_on (read_loop malloc fuel)) (
                read_text_lem malloc memory type a a' (type ∷ bs) s rest k ws o size scans is_a_text
                  measures copies short (omega (arith, length-append bs rest)) pushes),
      )
