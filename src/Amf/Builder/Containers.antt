-- ===== src/Amf/Builder/Containers.antt =====
-- src/amf/amf_object.c: objects, and the two parts of an array, as the pushes of members fill them.
use lib_open_rtmp.Base.{
  ℕ, suc, ◌+◌, ◌≤◌, ◌<◌, ◌≡◌, refl, ap, true, some, List, arith, le→leb, lt→not_leb, lt→ltb,
  le→not_ltb,
}
use lib_open_rtmp.Amf.Kind
use lib_open_rtmp.Amf.Value.{
  AmfValue, v_object, v_array, v_empty, Members, no_members, member_count, push_back, map_option,
  amf_value_is,
}
use lib_open_rtmp.Amf.Value.Vectors.{member_count-push_back, edit_back-push_back}
use lib_open_rtmp.Amf.Builder.{amf_v_push_member, fill, amf_push_item, amf_v_get_object}
use lib_open_rtmp.Amf.Builder.Slots.{Slot, amf_v_get_object-Slot}

-- A way to make a value from members, to which up to so many of them can be pushed.
pub record Container (make : Members → AmfValue) (bound : ℕ) : Type 0 where
  pub complex : (ms : Members) → amf_value_is (make ms) Kind.complex ≡ true
  pub names :
      (ms : Members) (name : List ℕ)
      → member_count ms < bound
      → amf_v_push_member name (make ms) ≡ some (make (push_back ms name (v_empty Kind.undefined)))
  pub fills :
      (ms : Members) (name : List ℕ) (v w : AmfValue)
      → member_count ms < bound
      → fill w (make (push_back ms name v)) ≡ some (make (push_back ms name w))

pub object-Container : (bound : ℕ) → Container v_object bound
unfolding amf_value_is amf_v_push_member fill
object-Container bound = record {
  complex = λ ms. refl;
  names = λ ms name h. refl;
  fills = λ ms name v w h. ap (map_option v_object) (edit_back-push_back (λ _. some w) ms name v);
}

pub assoc-Container : (len : ℕ) → Container (λ ms. v_array ms len no_members) len
unfolding amf_value_is amf_v_push_member fill member_count
assoc-Container len = record {
  complex = λ ms. refl;
  names = λ ms name h. rw (lt→ltb h) refl;
  fills = λ ms name v w h. rw (le→leb (fits ms name v h)) (
      ap (map_option (λ ns. v_array ns len no_members))
        (edit_back-push_back (λ _. some w) ms name v));
}
  where
    fits :
        (ms : Members) (name : List ℕ) (v : AmfValue)
        → member_count ms < len
        → member_count (push_back ms name v) + 0 ≤ len
    fits ms name v h = omega (arith, member_count-push_back ms name v)

pub ordinal-Container :
    (assoc : Members) (bound : ℕ) → Container (λ ms. v_array assoc (member_count assoc) ms) bound
unfolding amf_value_is amf_v_push_member fill
ordinal-Container assoc bound = record {
  complex = λ ms. refl;
  names = λ ms name h.
      rw (le→not_ltb {a = member_count assoc} {b = member_count assoc} (omega arith)) refl;
  fills = λ ms name v w h. rw (lt→not_leb (over ms name v)) (
      ap (map_option (λ ns. v_array assoc (member_count assoc) ns))
        (edit_back-push_back (λ _. some w) ms name v));
}
  where
    over :
        (ms : Members) (name : List ℕ) (v : AmfValue)
        → member_count assoc < member_count assoc + member_count (push_back ms name v)
    over ms name v = omega (arith, member_count-push_back ms name v)

-- A member in a slot's container: its name, its value, and the slot of that value.
module _ (d : ℕ) (items : List AmfValue) (slot : AmfValue → List AmfValue)
    (make : Members → AmfValue) (bound : ℕ) (here : Slot d items slot)
    (container : Container make bound) (ms : Members) (name : List ℕ)
    (room : member_count ms < bound) where
  pub named_slot :
      amf_v_get_object (amf_v_push_member name) (suc d) (slot (make ms))
      ≡ some (slot (make (push_back ms name (v_empty Kind.undefined))))
  named_slot =
      amf_v_get_object-Slot d items slot here (amf_v_push_member name) (make ms)
        (make (push_back ms name (v_empty Kind.undefined))) (container.complex ms)
        (container.names ms name room)

  pub member-Slot :
      Slot
        (suc d)
        (slot (make (push_back ms name (v_empty Kind.undefined))))
        (λ x. slot (make (push_back ms name x)))
  unfolding amf_push_item amf_v_get_object
  member-Slot x =
      amf_v_get_object-Slot d items slot here (fill x)
        (make (push_back ms name (v_empty Kind.undefined))) (make (push_back ms name x))
        (container.complex (push_back ms name (v_empty Kind.undefined)))
        (container.fills ms name (v_empty Kind.undefined) x room)
