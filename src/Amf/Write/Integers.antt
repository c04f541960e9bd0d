-- ===== src/Amf/Write/Integers.antt =====
-- src/amf/amf_object.c: an integer is written as the double of the same value.
use lib_open_rtmp.Base.{ℕ, suc, ◌≡◌, refl, ap, ◌∙◌, List, [], ◌∷◌, length}
use lib_open_rtmp.Amf.{amf_size}
use lib_open_rtmp.Amf.Value.{
  AmfValue, v_double, v_integer, v_boolean, v_string, v_xml, v_reference, v_date, v_object, v_array,
  v_empty, Members, no_members, member, member_count,
}
use lib_open_rtmp.Amf.Access.{double_of_int}
use lib_open_rtmp.Amf.Builder.{Amf}
use lib_open_rtmp.Amf.Encode.{
  Memory, amf0_write_object, amf0_write_ecma_array, amf0_write_prop_name,
}
use lib_open_rtmp.Amf.Write.{
  Writer, ◌▷◌, write_end, item_written, amf_write_value, write_members, write_items, amf_write,
}

-- The value with doubles in place of its integers.
unfoldable mutual
  unfolding double_of_int

  pub as_doubles : AmfValue → AmfValue
  as_doubles (v_integer n) = v_double (double_of_int n)
  as_doubles (v_object ms) = v_object (members_as_doubles ms)
  as_doubles (v_array assoc len ordinal) =
      v_array (members_as_doubles assoc) len (members_as_doubles ordinal)
  as_doubles (v_double n) = v_double n
  as_doubles (v_boolean b) = v_boolean b
  as_doubles (v_string s) = v_string s
  as_doubles (v_xml s) = v_xml s
  as_doubles (v_reference n r) = v_reference n r
  as_doubles (v_date t z) = v_date t z
  as_doubles (v_empty type) = v_empty type

  pub members_as_doubles : Members → Members
  members_as_doubles no_members = no_members
  members_as_doubles (member name v ms) = member name (as_doubles v) (members_as_doubles ms)

unfoldable pub items_as_doubles : List AmfValue → List AmfValue
unfolding as_doubles
items_as_doubles [] = []
items_as_doubles (v ∷ vs) = as_doubles v ∷ items_as_doubles vs

member_count-as_doubles : (ms : Members) → member_count (members_as_doubles ms) ≡ member_count ms
unfolding member_count members_as_doubles
member_count-as_doubles no_members = refl
member_count-as_doubles (member name v ms) = ap suc (member_count-as_doubles ms)

mutual
  unfolding amf_write_value as_doubles

  write_value-as_doubles : (v : AmfValue) → amf_write_value (as_doubles v) ≡ amf_write_value v
  write_value-as_doubles (v_double n) = refl
  write_value-as_doubles (v_integer n) = refl
  write_value-as_doubles (v_boolean b) = refl
  write_value-as_doubles (v_string s) = refl
  write_value-as_doubles (v_xml s) = refl
  write_value-as_doubles (v_reference n r) = refl
  write_value-as_doubles (v_date t z) = refl
  write_value-as_doubles (v_object ms) =
      λ i mem. (amf0_write_object ▷ write_members-as_doubles ms write_end i) mem
  write_value-as_doubles (v_array assoc len ordinal) =
      let whole =
        write_members-as_doubles assoc (write_members (members_as_doubles ordinal) write_end)
        ∙ ap (write_members assoc) (write_members-as_doubles ordinal write_end) in
      λ i mem. ((λ m. amf0_write_ecma_array m (member_count-as_doubles assoc i)) ▷ whole i) mem
  write_value-as_doubles (v_empty type) = refl

  write_members-as_doubles :
      (ms : Members) (next : Writer)
      → write_members (members_as_doubles ms) next ≡ write_members ms next
  write_members-as_doubles no_members next = refl
  write_members-as_doubles (member name v ms) next = λ i mem.
      ((λ m. amf0_write_prop_name m name)
          ▷ write_value-as_doubles v i
          ▷ write_members-as_doubles ms next i)
        mem

write_items-as_doubles :
    (vs : List AmfValue) (mem : Memory) (i : ℕ)
    → write_items (items_as_doubles vs) mem i ≡ write_items vs mem i
unfolding write_items items_as_doubles
write_items-as_doubles [] mem i = refl
write_items-as_doubles (v ∷ vs) mem i = λ j.
    item_written (λ m. write_items-as_doubles vs m (suc i) j) mem i (write_value-as_doubles v j mem)

pub length-items_as_doubles : (vs : List AmfValue) → length (items_as_doubles vs) ≡ length vs
unfolding items_as_doubles
length-items_as_doubles [] = refl
length-items_as_doubles (v ∷ vs) = ap suc (length-items_as_doubles vs)

-- An object is written as the one with doubles for its integers.
pub amf_write-as_doubles :
    (amf : Amf) (mem : Memory)
    → amf_write (record amf { items = items_as_doubles amf.items }) mem ≡ amf_write amf mem
unfolding amf_write
amf_write-as_doubles amf mem =
    ap (λ r. (amf_size r.1, r.2, r.0)) (write_items-as_doubles amf.items mem 0)
