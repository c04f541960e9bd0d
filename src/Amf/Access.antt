-- ===== src/Amf/Access.antt =====
-- src/amf/amf_object.c: the accessors of values, objects and arrays. What reads a member of the
-- union that the value's type does not select is `none`.
use lib_open_rtmp.Base.{
  ℕ, zero, suc, ◌+◌, ◌-◌, ◌*◌, ◌/◌, ◌%◌, ◌^◌, Bool, true, false, ◌&&◌, ◌||◌, Option, none, some,
  List, [], ◌∷◌, ltb, leb, ◌==◌, if◌then◌else◌, length, get_elem?,
}
use lib_open_rtmp.Amf.Kind
use lib_open_rtmp.Amf.Value.{
  AmfValue, v_double, v_integer, v_boolean, v_string, v_xml, v_reference, v_date, v_object, v_array,
  Members, no_members, member, member_count, amf_value_type,
}
use lib_open_rtmp.Amf.Builder.{Amf}

unfoldable pub amf_get_count : Amf → ℕ
amf_get_count amf = length amf.items

-- `none` is a pointer past the end of the items.
unfoldable pub amf_get_item : Amf → ℕ → Option AmfValue
amf_get_item amf idx = get_elem? amf.items idx

-- The conversions of C between an `int32_t` and a `double`, on their bit patterns.
unfoldable pub exponent : ℕ → ℕ → ℕ
exponent zero m = 0
exponent (suc fuel) m = let rest = exponent fuel (m / 2) in if ltb m 2 then 0 else suc rest

unfoldable pub double_of_int : ℕ → ℕ
unfolding exponent
double_of_int p =
    let m = if ltb p (2 ^ 31) then p else 2 ^ 32 - p in
    let e = exponent 32 m in
    if p == 0
    then 0
    else (if ltb p (2 ^ 31) then 0 else 2 ^ 63) + (1023 + e) * 2 ^ 52 + (m - 2 ^ e) * 2 ^ (52 - e)

-- The fraction is cut off; a number out of range has no conversion.
unfoldable pub int_of_double : ℕ → Option ℕ
int_of_double d =
    let e = d / 2 ^ 52 % 2 ^ 11 in
    let m = (2 ^ 52 + d % 2 ^ 52) / 2 ^ (52 - (e - 1023)) in
    let negative = leb (2 ^ 63) d in
    if ltb e 1023
    then some 0
    else if ltb 1054 e || ltb (if negative then 2 ^ 31 else 2 ^ 31 - 1) m
    then none
    else some (if negative then 2 ^ 32 - m else m)

unfoldable pub amf_value_get_double : AmfValue → Option ℕ
unfolding double_of_int
amf_value_get_double (v_double n) = some n
amf_value_get_double (v_integer n) = some (double_of_int n)
amf_value_get_double _ = none

unfoldable pub amf_value_get_integer : AmfValue → Option ℕ
unfolding int_of_double
amf_value_get_integer (v_integer n) = some n
amf_value_get_integer (v_double n) = int_of_double n
amf_value_get_integer _ = none

unfoldable pub amf_value_get_bool : AmfValue → Option ℕ
amf_value_get_bool (v_boolean b) = some b
amf_value_get_bool _ = none

unfoldable pub amf_value_get_string : AmfValue → Option (List ℕ)
amf_value_get_string (v_string s) = some s
amf_value_get_string (v_xml s) = some s
amf_value_get_string _ = none

unfoldable pub amf_value_get_xml : AmfValue → Option (List ℕ)
amf_value_get_xml (v_string s) = some s
amf_value_get_xml (v_xml s) = some s
amf_value_get_xml _ = none

unfoldable pub amf_value_get_ref : AmfValue → Option ℕ
amf_value_get_ref (v_reference n r) = some n
amf_value_get_ref _ = none

-- The timestamp and the time zone.
unfoldable pub amf_value_get_date : AmfValue → Option (ℕ × ℕ)
amf_value_get_date (v_date t z) = some (t, z)
amf_value_get_date _ = none

-- `memcmp( a, b, n ) == 0` for two blocks of the same size.
unfoldable pub equal_bytes : List ℕ → List ℕ → Bool
equal_bytes [] [] = true
equal_bytes (x ∷ xs) (y ∷ ys) = x == y && equal_bytes xs ys
equal_bytes _ _ = false

-- `none` is the null pointer.
unfoldable pub amf_assoc_get_value_arr : Members → List ℕ → Option AmfValue
unfolding equal_bytes
amf_assoc_get_value_arr no_members key = none
amf_assoc_get_value_arr (member name v ms) key =
    let rest = amf_assoc_get_value_arr ms key in
    if not_equal (length name) (length key)
    then rest
    else if equal_bytes key name
    then some v
    else rest
  where
    not_equal : ℕ → ℕ → Bool
    not_equal a b = ltb a b || ltb b a

-- The name of a member and its value.
unfoldable pub amf_assoc_get_value_idx_arr : Members → ℕ → Option (List ℕ × AmfValue)
amf_assoc_get_value_idx_arr no_members idx = none
amf_assoc_get_value_idx_arr (member name v ms) zero = some (name, v)
amf_assoc_get_value_idx_arr (member name v ms) (suc idx) = amf_assoc_get_value_idx_arr ms idx

-- `associative.members`, which is the associative part of an array.
unfoldable pub associative_members : AmfValue → Members
associative_members (v_object ms) = ms
associative_members (v_array assoc len ordinal) = assoc
associative_members _ = no_members

unfoldable pub amf_assoc_get_value : AmfValue → List ℕ → Option AmfValue
unfolding associative_members amf_assoc_get_value_arr
amf_assoc_get_value target key = amf_assoc_get_value_arr (associative_members target) key

unfoldable pub amf_assoc_get_value_idx : AmfValue → ℕ → Option (List ℕ × AmfValue)
unfolding associative_members amf_assoc_get_value_idx_arr
amf_assoc_get_value_idx target idx = amf_assoc_get_value_idx_arr (associative_members target) idx

unfoldable pub amf_assoc_get_count : AmfValue → ℕ
unfolding associative_members member_count
amf_assoc_get_count target = member_count (associative_members target)

abbrev is_null : AmfValue → Bool
unfolding amf_value_type
is_null target = amf_value_type target == Kind.null

-- A null object is its own member.
unfoldable pub amf_obj_get_value : AmfValue → List ℕ → Option AmfValue
unfolding amf_assoc_get_value amf_value_type
amf_obj_get_value target key =
    if is_null target then some target else amf_assoc_get_value target key

-- The name is left as it was when the object is null.
unfoldable pub amf_obj_get_value_idx : AmfValue → ℕ → Option (Option (List ℕ) × AmfValue)
unfolding amf_assoc_get_value_idx amf_value_type
amf_obj_get_value_idx target idx =
    if is_null target then some (none, target) else elim (amf_assoc_get_value_idx target idx) [
      | none ↦ none
      | some (name, v) ↦ some (some name, v)
    ]

unfoldable pub amf_obj_get_count : AmfValue → ℕ
unfolding amf_assoc_get_count amf_value_type
amf_obj_get_count target = if is_null target then 0 else amf_assoc_get_count target

unfoldable pub amf_arr_get_assoc_value : AmfValue → List ℕ → Option AmfValue
unfolding amf_assoc_get_value amf_value_type
amf_arr_get_assoc_value target key = if is_null target then none else amf_assoc_get_value target key

unfoldable pub amf_arr_get_assoc_value_idx : AmfValue → ℕ → Option (List ℕ × AmfValue)
unfolding amf_assoc_get_value_idx amf_value_type
amf_arr_get_assoc_value_idx target idx =
    if is_null target then none else amf_assoc_get_value_idx target idx

unfoldable pub amf_arr_get_assoc_count : AmfValue → ℕ
unfolding amf_assoc_get_count amf_value_type
amf_arr_get_assoc_count target = if is_null target then 0 else amf_assoc_get_count target

unfoldable pub ordinal_members : AmfValue → Members
ordinal_members (v_array assoc len ordinal) = ordinal
ordinal_members _ = no_members

unfoldable pub amf_arr_get_ord_value : AmfValue → List ℕ → Option AmfValue
unfolding ordinal_members amf_assoc_get_value_arr amf_value_type
amf_arr_get_ord_value target key =
    if is_null target then none else amf_assoc_get_value_arr (ordinal_members target) key

unfoldable pub amf_arr_get_ord_value_idx : AmfValue → ℕ → Option (List ℕ × AmfValue)
unfolding ordinal_members amf_assoc_get_value_idx_arr amf_value_type
amf_arr_get_ord_value_idx target idx =
    if is_null target then none else amf_assoc_get_value_idx_arr (ordinal_members target) idx

unfoldable pub amf_arr_get_ord_count : AmfValue → ℕ
unfolding ordinal_members member_count amf_value_type
amf_arr_get_ord_count target = if is_null target then 0 else member_count (ordinal_members target)
