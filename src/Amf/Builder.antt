-- ===== src/Amf/Builder.antt =====
-- src/amf/amf_object.c: how an AMF object is built, one push after the other.
pub mod Slots
pub mod Containers
use lib_open_rtmp.Base.{
  ℕ, zero, suc, ◌+◌, ◌-◌, Bool, true, false, not, ◌&&◌, Option, none, some, List, [], ◌∷◌, ◌++◌,
  ◌^◌, u8, u16, add64, ltb, leb, ◌==◌, if◌then◌else◌, length, replicate,
}
use lib_open_rtmp.Amf.{AmfErr, invalid_data, incomplete, need_name, oom}
use lib_open_rtmp.Amf.Kind
use lib_open_rtmp.Amf.Value.{
  AmfValue, v_double, v_integer, v_boolean, v_string, v_xml, v_reference, v_date, v_object, v_array,
  v_empty, Members, no_members, amf_value_is, member_count, push_back, pop_back, edit_back,
  edit_last, map_option,
}

-- `struct amf_object`. Of the reference table only its size is kept: what a reference points to is
-- the index it was taken from.
pub record Amf : Type 0 where
  pub references : ℕ
  pub depth : ℕ
  pub items : List AmfValue
  pub ref_count : ℕ
  pub allocation : Option (List ℕ)
  pub member_ready : Bool

unfoldable pub amf_create : Amf
amf_create = record {
  references = 0;
  depth = 0;
  items = [];
  ref_count = 0;
  allocation = none;
  member_ready = false;
}

unfoldable pub amf_reference : Amf → Amf
amf_reference amf = record amf { references = suc amf.references }

-- `none` when the object has been freed.
unfoldable pub amf_destroy : Amf → Option Amf
amf_destroy amf =
    if amf.references == 0 then none else some (record amf { references = amf.references - 1 })

-- What a push comes to: done, refused with an error, or a read through a null pointer.
pub data Pushed : Type 0 where
  pushed : Amf → Pushed
  refused : AmfErr → Amf → Pushed
  crashed : Pushed

abbrev pub also : (Amf → Amf) → Pushed → Pushed
also f (pushed amf) = pushed (f amf)
also f (refused e amf) = refused e amf
also f crashed = crashed

abbrev pub and_then : Pushed → (Amf → Pushed) → Pushed
and_then (pushed amf) f = f amf
and_then (refused e amf) f = refused e amf
and_then crashed f = crashed

-- `amf_v_get_object`, and what the caller does to the object it finds: the last value of each
-- level, down to the depth. The source would not end on a complex value that is neither an object
-- nor an array, which no push makes.
unfoldable pub in_open : (AmfValue → Option AmfValue) → ℕ → AmfValue → Option AmfValue
unfolding amf_value_is member_count edit_back
in_open f zero v = if amf_value_is v Kind.complex then f v else none
in_open f (suc n) (v_object ms) = map_option v_object (edit_back (in_open f n) ms)
in_open f (suc n) (v_array assoc len ordinal) =
    let inner = in_open f n in
    if leb (member_count ordinal + member_count assoc) len
    then map_option (λ ms. v_array ms len ordinal) (edit_back inner assoc)
    else map_option (λ ms. v_array assoc len ms) (edit_back inner ordinal)
in_open f (suc n) _ = none

unfoldable pub amf_v_get_object :
    (AmfValue → Option AmfValue) → ℕ → List AmfValue → Option (List AmfValue)
unfolding in_open edit_last
amf_v_get_object f zero items = none
amf_v_get_object f (suc d) items = edit_last (in_open f d) items

-- The value of a new member is undefined until the next push.
unfoldable pub amf_v_push_member : List ℕ → AmfValue → Option AmfValue
unfolding member_count push_back
amf_v_push_member name (v_object ms) = some (v_object (push_back ms name (v_empty Kind.undefined)))
amf_v_push_member name (v_array assoc len ordinal) = some (
    if ltb (member_count assoc) len
    then v_array (push_back assoc name (v_empty Kind.undefined)) len ordinal
    else v_array assoc len (push_back ordinal name (v_empty Kind.undefined)))
amf_v_push_member name _ = none

-- The slot of `amf_push_item` in an open object is its last member.
unfoldable pub fill : AmfValue → AmfValue → Option AmfValue
unfolding member_count edit_back
fill x (v_object ms) = map_option v_object (edit_back (λ _. some x) ms)
fill x (v_array assoc len ordinal) =
    if leb (member_count assoc + member_count ordinal) len
    then map_option (λ ms. v_array ms len ordinal) (edit_back (λ _. some x) assoc)
    else map_option (λ ms. v_array assoc len ms) (edit_back (λ _. some x) ordinal)
fill x _ = none

unfoldable pub amf_push_item : AmfValue → ℕ → List AmfValue → Option (List AmfValue)
unfolding fill amf_v_get_object
amf_push_item x zero items = some (items ++ x ∷ [])
amf_push_item x (suc d) items = amf_v_get_object (fill x) (suc d) items

abbrev stored : Amf → Option (List AmfValue) → Pushed
stored amf none = refused oom amf
stored amf (some items) = pushed (record amf { items = items })

-- PUSH_PREP, and the store of the value in the slot.
unfoldable pub push_value : AmfValue → Amf → Pushed
unfolding amf_push_item
push_value x amf =
    if ltb 0 amf.depth && not amf.member_ready
    then refused need_name amf
    else stored (record amf { member_ready = false }) (amf_push_item x amf.depth amf.items)

unfoldable pub amf_push_double : ℕ → Amf → Pushed
unfolding push_value
amf_push_double number amf = push_value (v_double number) amf

unfoldable pub amf_push_integer : ℕ → Amf → Pushed
unfolding push_value
amf_push_integer number amf = push_value (v_integer number) amf

-- A `char`, stored as a `bool`.
unfoldable pub amf_push_boolean : ℕ → Amf → Pushed
unfolding push_value
amf_push_boolean b amf = push_value (v_boolean (if u8 b == 0 then 0 else 1)) amf

unfoldable pub amf_push_null : Amf → Pushed
unfolding push_value
amf_push_null amf = push_value (v_empty Kind.null) amf

unfoldable pub amf_push_undefined : Amf → Pushed
unfolding push_value
amf_push_undefined amf = push_value (v_empty Kind.undefined) amf

unfoldable pub amf_push_unsupported : Amf → Pushed
unfolding push_value
amf_push_unsupported amf = push_value (v_empty Kind.unsupported) amf

unfoldable pub amf_push_date : ℕ → ℕ → Amf → Pushed
unfolding push_value
amf_push_date timestamp timezone amf = push_value (v_date timestamp (u16 timezone)) amf

unfoldable pub amf_push_reference : ℕ → Amf → Pushed
unfolding push_value
amf_push_reference ref amf =
    push_value (v_reference ref (if ltb ref amf.ref_count then some ref else none)) amf

-- A string is the buffer that `amf_push_string_alloc` gave, or one of the caller's.
pub data Source : Type 0 where
  own : Source
  caller : List ℕ → Source

abbrev pub content : Option (List ℕ) → List ℕ
content none = []
content (some bs) = bs

abbrev drop_allocation : Amf → Amf
drop_allocation amf = record amf { allocation = none }

-- `malloc` tells for a size whether there is memory. The vectors of an object are taken to grow
-- without fail.
unfoldable pub push_str :
    (malloc : ℕ → Bool) (make : List ℕ → AmfValue) (str : Source) (amf : Amf) → Pushed
unfolding push_value
push_str malloc make own amf = also drop_allocation (push_value (make (content amf.allocation)) amf)
push_str malloc make (caller s) amf =
    if malloc (suc (length s)) then push_value (make s) amf else refused oom amf

unfoldable pub amf_push_string : (malloc : ℕ → Bool) (str : Source) (amf : Amf) → Pushed
unfolding push_str
amf_push_string malloc str amf = push_str malloc v_string str amf

unfoldable pub amf_push_long_string : (malloc : ℕ → Bool) (str : Source) (amf : Amf) → Pushed
unfolding push_str
amf_push_long_string malloc str amf = push_str malloc v_string str amf

unfoldable pub amf_push_xml : (malloc : ℕ → Bool) (xml : Source) (amf : Amf) → Pushed
unfolding push_str
amf_push_xml malloc xml amf = push_str malloc v_xml xml amf

-- The buffer's bytes are arbitrary until the caller copies into it; here they are 0. When the size
-- is the largest there is, no byte is asked for, and the 0 behind the string is stored in front of
-- the buffer.
unfoldable pub amf_push_string_alloc : (malloc : ℕ → Bool) (size : ℕ) (amf : Amf) → Pushed
amf_push_string_alloc malloc size amf =
    if malloc (add64 size 1)
    then if leb (2 ^ 64) (suc size)
      then crashed
      else pushed (record amf { allocation = some (replicate size 0) })
    else refused oom (record amf { allocation = none })

abbrev pub opened : Amf → Amf
opened amf = record amf { depth = suc amf.depth; ref_count = suc amf.ref_count }

unfoldable pub amf_push_object_start : Amf → Pushed
unfolding push_value
amf_push_object_start amf = also opened (push_value (v_object no_members) amf)

unfoldable pub amf_push_ecma_start : ℕ → Amf → Pushed
unfolding push_value
amf_push_ecma_start assoc_members amf =
    also opened (push_value (v_array no_members assoc_members no_members) amf)

abbrev named : Amf → Option (List AmfValue) → Pushed
named amf none = crashed
named amf (some items) = pushed (record amf { items = items; member_ready = true })

abbrev new_member : List ℕ → Amf → Option (List AmfValue)
unfolding amf_v_get_object amf_v_push_member
new_member name amf = amf_v_get_object (amf_v_push_member name) amf.depth amf.items

-- Outside of every object `amf_v_push_member` reads the type of a null pointer. When there is no
-- memory for the name, the member has been added without one.
unfoldable pub amf_push_member : (malloc : ℕ → Bool) (str : Source) (amf : Amf) → Pushed
unfolding amf_v_get_object amf_v_push_member
amf_push_member malloc own amf =
    if amf.member_ready
    then refused incomplete amf
    else also drop_allocation (named amf (new_member (content amf.allocation) amf))
amf_push_member malloc (caller s) amf =
    if amf.member_ready
    then refused incomplete amf
    else if malloc (length s)
    then named amf (new_member s amf)
    else elim (new_member [] amf) [
      | none ↦ crashed
      | some items ↦ refused oom (record amf { items = items })
    ]

-- The member that a name was pushed for, without a value.
unfoldable pub drop_member : AmfValue → Option AmfValue
unfolding member_count pop_back
drop_member (v_object ms) = some (v_object (pop_back ms))
drop_member (v_array assoc len ordinal) = some (
    if ltb 0 (member_count ordinal)
    then v_array assoc len (pop_back ordinal)
    else v_array (pop_back assoc) len ordinal)
drop_member v = some v

abbrev pub or_else : {A : Type 0} → A → Option A → A
or_else d none = d
or_else d (some x) = x

abbrev dropped : Amf → Amf
unfolding amf_v_get_object drop_member
dropped amf = record amf {
  member_ready = false;
  items = or_else amf.items (amf_v_get_object drop_member amf.depth amf.items);
}

unfoldable pub amf_push_object_end : Amf → Pushed
unfolding amf_v_get_object drop_member
amf_push_object_end amf =
    let closed = if amf.member_ready then dropped amf else amf in
    if ltb 0 amf.depth
    then pushed (record closed { depth = amf.depth - 1 })
    else refused invalid_data closed

-- The associative part of an open array ends with the members it has.
unfoldable pub end_assoc : Bool → AmfValue → Option AmfValue
unfolding member_count pop_back
end_assoc ready (v_array assoc len ordinal) =
    let kept = if ready then pop_back assoc else assoc in
    some (v_array kept (member_count kept) ordinal)
end_assoc ready _ = none

unfoldable pub amf_push_assoc_end : Amf → Pushed
unfolding amf_v_get_object end_assoc
amf_push_assoc_end amf = elim (amf_v_get_object (end_assoc amf.member_ready) amf.depth amf.items) [
  | none ↦ refused invalid_data amf
  | some items ↦ pushed (record amf { items = items; member_ready = false })
]
