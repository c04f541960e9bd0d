-- ===== src/Amf/Builder/Slots.antt =====
-- src/amf/amf_object.c: where a push stores its value, and where the pushes after it store theirs.
use lib_open_rtmp.Base.{
  ℕ, zero, suc, ◌+◌, ◌≡◌, refl, sym, ap, ◌∙◌, inl, inr, Bool, true, false, Option, none, some, List,
  [], ◌∷◌, ◌++◌, arith, leb, if◌then◌else◌, Bool-cases,
}
use lib_open_rtmp.Amf.Kind
use lib_open_rtmp.Amf.Value.{
  AmfValue, v_object, v_array, v_empty, Members, member_count, map_option, edit_back, amf_value_is,
  amf_value_type, amf_type_compare, is_one_of, compatible,
}
use lib_open_rtmp.Amf.Value.Vectors.{
  and_edit, edit_back_congr, HasCount, edit_back-HasCount, edit_back-edit_back, edit_last-append,
  edit_last_congr, edit_last-edit_last,
}
use lib_open_rtmp.Amf.Builder.{in_open, amf_v_get_object, fill, amf_push_item}

-- An update of the last member of an object or an array.
unfoldable pub edit_open : (AmfValue → Option AmfValue) → AmfValue → Option AmfValue
unfolding member_count edit_back
edit_open g (v_object ms) = map_option v_object (edit_back g ms)
edit_open g (v_array assoc len ordinal) =
    if leb (member_count ordinal + member_count assoc) len
    then map_option (λ ms. v_array ms len ordinal) (edit_back g assoc)
    else map_option (λ ms. v_array assoc len ms) (edit_back g ordinal)
edit_open g _ = none

and_edit_congr :
    {A B : Type 0} (o : Option A) {g h : A → Option B}
    → ((x : A) → g x ≡ h x)
    → and_edit o g ≡ and_edit o h
and_edit_congr none e = refl
and_edit_congr (some x) e = e x

fill-edit_open : (x v : AmfValue) → fill x v ≡ edit_open (λ _. some x) v
unfolding fill edit_open
fill-edit_open x (v_object ms) = refl
fill-edit_open x (v_array assoc len ordinal) =
    ap
      (λ (k : ℕ).
        if leb k len
        then map_option (λ ms. v_array ms len ordinal) (edit_back (λ _. some x) assoc)
        else map_option (λ ms. v_array assoc len ms) (edit_back (λ _. some x) ordinal))
      (omega arith)
fill-edit_open x _ = refl

in_open-edit_open :
    (f : AmfValue → Option AmfValue) (n : ℕ) (v : AmfValue)
    → in_open f (suc n) v ≡ edit_open (in_open f n) v
unfolding in_open edit_open
in_open-edit_open f n (v_object ms) = refl
in_open-edit_open f n (v_array assoc len ordinal) = refl
in_open-edit_open f n _ = refl

edit_open_congr :
    (f g : AmfValue → Option AmfValue) (v : AmfValue)
    → ((w : AmfValue) → f w ≡ g w)
    → edit_open f v ≡ edit_open g v
unfolding edit_open
edit_open_congr f g (v_object ms) h = ap (map_option v_object) (edit_back_congr f g ms h)
edit_open_congr f g (v_array assoc len ordinal) h =
    rw (edit_back_congr f g assoc h, edit_back_congr f g ordinal h) refl
edit_open_congr f g _ h = refl

edit_open-edit_open :
    (f g : AmfValue → Option AmfValue) (v : AmfValue)
    → and_edit (edit_open f v) (edit_open g) ≡ edit_open (λ w. and_edit (f w) g) v
unfolding edit_open HasCount
edit_open-edit_open f g (v_object ms) =
    once (edit_back f ms) ∙ ap (map_option v_object) (edit_back-edit_back f g ms)
  where
    once :
        (o : Option Members)
        → and_edit (map_option v_object o) (edit_open g)
          ≡ map_option v_object (and_edit o (edit_back g))
    once none = refl
    once (some ns) = refl
edit_open-edit_open f g (v_array assoc len ordinal) =
    elim (Bool-cases (leb (member_count ordinal + member_count assoc) len)) [
      | inl e ↦ rw e (
          in_assoc e (edit_back f assoc) (edit_back-HasCount f assoc)
          ∙ ap (map_option (λ ms. v_array ms len ordinal)) (edit_back-edit_back f g assoc))
      | inr e ↦ rw e (
          in_ordinal e (edit_back f ordinal) (edit_back-HasCount f ordinal)
          ∙ ap (map_option (λ ms. v_array assoc len ms)) (edit_back-edit_back f g ordinal))
    ]
  where
    in_assoc :
        leb (member_count ordinal + member_count assoc) len ≡ true
        → (o : Option Members) → HasCount (member_count assoc) o
        → and_edit (map_option (λ ms. v_array ms len ordinal) o) (edit_open g)
          ≡ map_option (λ ms. v_array ms len ordinal) (and_edit o (edit_back g))
    in_assoc e none h = refl
    in_assoc e (some ns) h = rw (h, e) refl

    in_ordinal :
        leb (member_count ordinal + member_count assoc) len ≡ false
        → (o : Option Members) → HasCount (member_count ordinal) o
        → and_edit (map_option (λ ms. v_array assoc len ms) o) (edit_open g)
          ≡ map_option (λ ms. v_array assoc len ms) (and_edit o (edit_back g))
    in_ordinal e none h = refl
    in_ordinal e (some ns) h = rw (h, e) refl
edit_open-edit_open f g _ = refl

-- At the innermost level the update is that of the open value, if it has members at all.
fill-in_open : (x v : AmfValue) → in_open (fill x) 0 v ≡ fill x v
unfolding in_open fill amf_value_is amf_value_type amf_type_compare is_one_of compatible
fill-in_open x (v_object ms) = refl
fill-in_open x (v_array assoc len ordinal) = refl
fill-in_open x (v_empty type) = either (amf_value_is (v_empty type) Kind.complex)
  where
    either : (b : Bool) → if◌then◌else◌ {A = Option AmfValue} b none none ≡ none
    either true = refl
    either false = refl
fill-in_open x _ = refl

-- An update at the level below a slot is that of the value in the slot.
module _ (f : AmfValue → Option AmfValue) (x y : AmfValue)
    (complex : amf_value_is x Kind.complex ≡ true) (update : f x ≡ some y) where
  in_slot :
      (n : ℕ) (v : AmfValue)
      → and_edit (in_open (fill x) n v) (in_open f (suc n)) ≡ in_open (fill y) n v
  unfolding in_open
  in_slot zero v =
      ap (λ o. and_edit o (in_open f 1)) (fill-in_open x v ∙ fill-edit_open x v)
      ∙ and_edit_congr (edit_open (λ _. some x) v) (in_open-edit_open f 0)
      ∙ edit_open-edit_open (λ _. some x) (in_open f 0) v
      ∙ edit_open_congr (λ _. in_open f 0 x) (λ _. some y) v (λ _. rw complex update)
      ∙ sym (fill-in_open y v ∙ fill-edit_open y v)
  in_slot (suc n) v =
      ap (λ o. and_edit o (in_open f (suc (suc n)))) (in_open-edit_open (fill x) n v)
      ∙ and_edit_congr (edit_open (in_open (fill x) n) v) (in_open-edit_open f (suc n))
      ∙ edit_open-edit_open (in_open (fill x) n) (in_open f (suc n)) v
      ∙ edit_open_congr _ (in_open (fill y) n) v (in_slot n)
      ∙ sym (in_open-edit_open (fill y) n v)

  in_item :
      (d : ℕ) (items : List AmfValue)
      → and_edit (amf_push_item x d items) (amf_v_get_object f (suc d)) ≡ amf_push_item y d items
  unfolding amf_push_item amf_v_get_object in_open
  in_item zero items = edit_last-append (in_open f 0) items x ∙ rw (complex, update) refl
  in_item (suc d) items =
      edit_last-edit_last (in_open (fill x) d) (in_open f (suc d)) items
      ∙ edit_last_congr _ (in_open (fill y) d) items (in_slot d)

-- Where the next value goes: what the items are with each value in that place.
abbrev pub Slot : ℕ → List AmfValue → (AmfValue → List AmfValue) → Type 0
Slot d items slot = (x : AmfValue) → amf_push_item x d items ≡ some (slot x)

pub top-Slot : (items : List AmfValue) → Slot 0 items (λ x. items ++ x ∷ [])
unfolding amf_push_item
top-Slot items x = refl

-- An object that stands in a slot is the one that the next pushes find.
pub amf_v_get_object-Slot :
    (d : ℕ) (items : List AmfValue) (slot : AmfValue → List AmfValue)
    → Slot d items slot
    → (f : AmfValue → Option AmfValue) (x y : AmfValue) → amf_value_is x Kind.complex ≡ true
    → f x ≡ some y
    → amf_v_get_object f (suc d) (slot x) ≡ some (slot y)
amf_v_get_object-Slot d items slot here f x y complex update =
    ap (λ o. and_edit o (amf_v_get_object f (suc d))) (sym (here x))
    ∙ in_item f x y complex update d items
    ∙ here y
