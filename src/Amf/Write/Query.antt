-- ===== src/Amf/Write/Query.antt =====
-- src/amf/amf_object.c and amf0_encode.c: a call without a buffer asks for the size.
use lib_open_rtmp.Base.{
  ℕ, suc, ◌+◌, ◌^◌, ◌<◌, ◌≡◌, refl, ap, inl, inr, none, some, List, [], ◌∷◌, arith, ltb, leb, ◌==◌,
  if◌then◌else◌, length, Bool-cases, u32,
}
use lib_open_rtmp.Amf.{Outcome, complete, fails, beyond, ◌>>=◌}
use lib_open_rtmp.Amf.Kind
use lib_open_rtmp.Amf.Marker
use lib_open_rtmp.Amf.Shorthand.{Item, describe_encode, amf_sizes2, marker_size}
use lib_open_rtmp.Amf.Value.{
  AmfValue, v_double, v_integer, v_boolean, v_string, v_xml, v_reference, v_date, v_object, v_array,
  v_empty, Members, no_members, member, member_count,
}
use lib_open_rtmp.Amf.Builder.{Amf}
use lib_open_rtmp.Amf.Encode.{
  Memory, amf0_write_number, amf0_write_boolean, amf0_write_string, amf0_write_object,
  amf0_write_prop_name, amf0_write_movieclip, amf0_write_null, amf0_write_undefined,
  amf0_write_reference, amf0_write_ecma_array, amf0_write_object_end, amf0_write_date,
  amf0_write_xmldocument, amf0_write_nothing,
}
use lib_open_rtmp.Amf.Write.{
  Writer, advance, rejoin, ◌▷◌, write_end, write_empty, amf_write_value, write_members,
  item_written, write_items, amf_write,
}

-- A call that completed, and one without a buffer: the second completes with the same size.
unfoldable Agrees : Outcome (ℕ × Memory) → Outcome (ℕ × Memory) → Type 0
Agrees (complete (n, mem)) query = query ≡ complete (n, none)
Agrees (fails e) query = Unit
Agrees beyond query = Unit

unfoldable SameSize : Writer → Type 0
unfolding Agrees
SameSize f = (mem : Memory) → Agrees (f mem) (f none)

describe_encode-SameSize :
    (type : ℕ) (items : List Item) → SameSize (λ mem. describe_encode mem type items)
unfolding SameSize Agrees describe_encode
describe_encode-SameSize type items none = refl
describe_encode-SameSize type items (some mem) =
    elim (Bool-cases (ltb (length mem) (amf_sizes2 items + marker_size type))) [
      | inl e ↦ rw e tt
      | inr e ↦ rw e refl
    ]

-- The second of two writers goes on with the rest of the buffer.
abbrev after_second : ℕ → Memory → ℕ × Memory → Outcome (ℕ × Memory)
after_second n once (m, rest) = complete (u32 (n + m), rejoin n once rest)

second-Agrees :
    (n : ℕ) (once : Memory) (o q : Outcome (ℕ × Memory))
    → Agrees o q
    → Agrees (o >>= after_second n once) (q >>= after_second n none)
unfolding Agrees
second-Agrees n once (complete (m, rest)) q e = rw e refl
second-Agrees n once (fails x) q e = tt
second-Agrees n once beyond q e = tt

abbrev after_first : Writer → ℕ × Memory → Outcome (ℕ × Memory)
after_first g (n, once) =
    if leb (2 ^ 31) n then complete (n, once) else g (advance n once) >>= after_second n once

first-Agrees :
    (g : Writer)
    → SameSize g
    → (o q : Outcome (ℕ × Memory)) → Agrees o q
    → Agrees (o >>= after_first g) (q >>= after_first g)
unfolding Agrees SameSize
first-Agrees g h (complete (n, once)) q e = rw e (elim (Bool-cases (leb (2 ^ 31) n)) [
  | inl t ↦ rw t refl
  | inr f ↦ rw f (second-Agrees n once (g (advance n once)) (g none) (h (advance n once)))
])
first-Agrees g h (fails x) q e = tt
first-Agrees g h beyond q e = tt

▷-SameSize : (f g : Writer) → SameSize f → SameSize g → SameSize (f ▷ g)
unfolding SameSize
▷-SameSize f g first second mem = first-Agrees g second (f mem) (f none) (first mem)

nothing-SameSize : SameSize amf0_write_nothing
unfolding SameSize Agrees amf0_write_nothing
nothing-SameSize mem = refl

movieclip-SameSize : SameSize amf0_write_movieclip
unfolding SameSize Agrees amf0_write_movieclip
movieclip-SameSize mem = tt

write_empty-SameSize : (type : ℕ) → SameSize (write_empty type)
unfolding write_empty SameSize amf0_write_null amf0_write_undefined
write_empty-SameSize type mem = elim (Bool-cases (type == Kind.null)) [
  | inl e ↦ rw e (describe_encode-SameSize Marker.null [] mem)
  | inr e ↦ rw e (elim (Bool-cases (type == Kind.undefined)) [
    | inl e ↦ rw e (describe_encode-SameSize Marker.undefined [] mem)
    | inr e ↦ rw e (elim (Bool-cases (type == Kind.movieclip)) [
      | inl e ↦ rw e (movieclip-SameSize mem)
      | inr e ↦ rw e (nothing-SameSize mem)
    ])
  ])
]

string-SameSize : (s : List ℕ) → SameSize (λ mem. amf0_write_string mem s)
unfolding amf0_write_string SameSize
string-SameSize s mem = elim (Bool-cases (ltb 0xFFFF (length s))) [
  | inl e ↦ rw e (describe_encode-SameSize Marker.long_string _ mem)
  | inr e ↦ rw e (describe_encode-SameSize Marker.string _ mem)
]

end-SameSize : SameSize write_end
unfolding write_end amf0_write_prop_name amf0_write_object_end
end-SameSize =
    ▷-SameSize (λ mem. amf0_write_prop_name mem []) amf0_write_object_end
      (describe_encode-SameSize Marker.absent _) (describe_encode-SameSize Marker.object_end [])

mutual
  unfolding amf_write_value SameSize amf0_write_number amf0_write_boolean amf0_write_object
      amf0_write_reference amf0_write_ecma_array amf0_write_date amf0_write_xmldocument
      amf0_write_prop_name

  value-SameSize : (v : AmfValue) → SameSize (amf_write_value v)
  value-SameSize (v_double n) = describe_encode-SameSize Marker.number _
  value-SameSize (v_integer n) = describe_encode-SameSize Marker.number _
  value-SameSize (v_boolean b) = describe_encode-SameSize Marker.boolean _
  value-SameSize (v_string s) = string-SameSize s
  value-SameSize (v_xml s) = describe_encode-SameSize Marker.xml_document _
  value-SameSize (v_reference n r) = describe_encode-SameSize Marker.reference _
  value-SameSize (v_date t z) = describe_encode-SameSize Marker.date _
  value-SameSize (v_object ms) =
      ▷-SameSize amf0_write_object (write_members ms write_end)
        (describe_encode-SameSize Marker.object []) (members-SameSize ms write_end end-SameSize)
  value-SameSize (v_array assoc len ordinal) =
      ▷-SameSize (λ m. amf0_write_ecma_array m (member_count assoc))
        (write_members assoc (write_members ordinal write_end))
        (describe_encode-SameSize Marker.ecma_array _)
        (members-SameSize assoc (write_members ordinal write_end)
          (members-SameSize ordinal write_end end-SameSize))
  value-SameSize (v_empty type) = write_empty-SameSize type

  members-SameSize :
      (ms : Members) (next : Writer) → SameSize next → SameSize (write_members ms next)
  members-SameSize no_members next h = h
  members-SameSize (member name v ms) next h =
      ▷-SameSize (λ m. amf0_write_prop_name m name) (amf_write_value v ▷ write_members ms next)
        (describe_encode-SameSize Marker.absent _)
        (▷-SameSize (amf_write_value v) (write_members ms next) (value-SameSize v)
          (members-SameSize ms next h))

-- A run over the items that wrote all of them, and one without a buffer.
abbrev Answered : Memory × ℕ × ℕ → ℕ → Memory × ℕ × ℕ → Type 0
Answered (mem, total, j) last query = j ≡ last → query ≡ (none, total, last)

item-Answered :
    (next : Memory → Memory × ℕ × ℕ) (mem : Memory) (i last : ℕ) (o q : Outcome (ℕ × Memory))
    → i < last
    → ((m : Memory) → Answered (next m) last (next none))
    → Agrees o q
    → Answered (item_written next mem i o) last (item_written next none i q)
unfolding Agrees
item-Answered next mem i last (complete (n, once)) q before h e =
    rw e (elim (Bool-cases (leb (2 ^ 31) n)) [
      | inl t ↦ rw t (λ all. absurd (omega (arith, all)))
      | inr f ↦ rw f (λ all. rw (h (advance n once) all) refl)
    ])
item-Answered next mem i last (fails x) q before h e = λ all. absurd (omega (arith, all))
item-Answered next mem i last beyond q before h e = λ all. absurd (omega (arith, all))

items-Answered :
    (vs : List AmfValue) (mem : Memory) (i last : ℕ)
    → last ≡ i + length vs
    → Answered (write_items vs mem i) last (write_items vs none i)
unfolding write_items SameSize
items-Answered [] mem i last e = λ all. ap (λ (k : ℕ). (none, 0, k)) all
items-Answered (v ∷ vs) mem i last e =
    item-Answered (λ m. write_items vs m (suc i)) mem i last (amf_write_value v mem)
      (amf_write_value v none) (omega (arith, e))
      (λ m. items-Answered vs m (suc i) last (omega (arith, e))) (value-SameSize v mem)

-- When `amf_write` writes all the items of an object into a buffer, a call without a buffer answers
-- the size of what was written, and writes nothing.
pub amf_write_query :
    (amf : Amf) (mem : List ℕ)
    → (amf_write amf (some mem)).1 ≡ length amf.items
    → amf_write amf none ≡ ((amf_write amf (some mem)).0, length amf.items, none)
unfolding amf_write
amf_write_query amf mem all =
    rw (items-Answered amf.items (some mem) 0 (length amf.items) (omega arith) all) refl
