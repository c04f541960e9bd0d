-- ===== src/Amf/Value.antt =====
-- src/amf/amf_object.c: the values of an AMF object, their types, and which types agree.
pub mod Vectors
use lib_open_rtmp.Base.{
  ℕ, zero, suc, ◌+◌, Bool, true, false, ◌&&◌, ◌||◌, Option, none, some, List, [], ◌∷◌, ltb, leb,
  ◌==◌, if◌then◌else◌, length,
}
use lib_open_rtmp.Amf.Kind

-- `union amf_value` with the member that its type selects: an integer is its 32-bit pattern, a
-- double its 64-bit pattern, a string its bytes. A reference has its number and, for the pointer,
-- the index of the entry of the reference table that it was taken from. A value of a type without
-- content is that type. Members are the vectors of `amf_v_member_t`, each with its name.
mutual
  pub data AmfValue : Type 0 where
    v_double v_integer v_boolean : ℕ → AmfValue
    v_string v_xml : List ℕ → AmfValue
    v_reference : ℕ → Option ℕ → AmfValue
    v_date : ℕ → ℕ → AmfValue
    v_object : Members → AmfValue
    v_array : Members → ℕ → Members → AmfValue
    v_empty : ℕ → AmfValue

  pub data Members : Type 0 where
    no_members : Members
    member : List ℕ → AmfValue → Members → Members

unfoldable pub amf_value_type : AmfValue → ℕ
amf_value_type (v_double n) = Kind.double
amf_value_type (v_integer n) = Kind.integer
amf_value_type (v_boolean b) = Kind.boolean
amf_value_type (v_string s) = Kind.string
amf_value_type (v_xml s) = Kind.xml_document
amf_value_type (v_reference n r) = Kind.reference
amf_value_type (v_date t z) = Kind.date
amf_value_type (v_object ms) = Kind.object
amf_value_type (v_array assoc n ordinal) = Kind.array
amf_value_type (v_empty type) = type

unfoldable pub is_one_of : ℕ → List ℕ → Bool
is_one_of t [] = false
is_one_of t (u ∷ us) = t == u || is_one_of t us

abbrev pub complex_types : List ℕ
complex_types =
    Kind.object ∷ Kind.array ∷ Kind.recordset ∷ Kind.typed_object ∷ Kind.vector_double
    ∷ Kind.vector_int ∷ Kind.vector_object ∷ Kind.vector_uint ∷ Kind.byte_array ∷ Kind.movieclip
    ∷ []

abbrev pub associative_types : List ℕ
associative_types = Kind.object ∷ Kind.array ∷ Kind.typed_object ∷ []

abbrev numeric_types : List ℕ
numeric_types = Kind.double ∷ Kind.integer ∷ Kind.date ∷ []

abbrev string_types : List ℕ
string_types = Kind.string ∷ Kind.xml_document ∷ []

abbrev object_types : List ℕ
object_types = Kind.object ∷ Kind.typed_object ∷ Kind.associative ∷ []

-- The last `switch`: a null is compared as an object, and then as a number.
unfoldable pub compatible : ℕ → ℕ → ℕ
unfolding is_one_of
compatible type1 type2 =
    if type1 == Kind.null && type2 == Kind.object
    then 1
    else if is_one_of type1 (Kind.null ∷ numeric_types)
    then (if is_one_of type2 numeric_types then 1 else 0)
    else if is_one_of type1 string_types
    then (if is_one_of type2 string_types then 1 else 0)
    else if is_one_of type1 (Kind.object ∷ Kind.typed_object ∷ [])
    then (if is_one_of type2 object_types then 1 else 0)
    else if type1 == Kind.array
    then (if is_one_of type2 (Kind.array ∷ Kind.associative ∷ []) then 1 else 0)
    else 0

unfoldable pub amf_type_compare : ℕ → ℕ → ℕ
unfolding is_one_of compatible
amf_type_compare type1 type2 =
    if type2 == type1
    then 2
    else if type2 == Kind.complex && is_one_of type1 complex_types
    then 2
    else if type2 == Kind.associative && is_one_of type1 associative_types
    then 2
    else compatible type1 type2

unfoldable pub amf_value_is : AmfValue → ℕ → Bool
unfolding amf_value_type amf_type_compare
amf_value_is value type = leb 2 (amf_type_compare (amf_value_type value) type)

unfoldable pub amf_value_is_like : AmfValue → ℕ → Bool
unfolding amf_value_type amf_type_compare
amf_value_is_like value type = leb 1 (amf_type_compare (amf_value_type value) type)

-- The vectors of members.
unfoldable pub member_count : Members → ℕ
member_count no_members = 0
member_count (member name v ms) = suc (member_count ms)

-- VEC_PUSH and VEC_POP.
unfoldable pub push_back : Members → List ℕ → AmfValue → Members
push_back no_members name v = member name v no_members
push_back (member n w ms) name v = member n w (push_back ms name v)

unfoldable pub pop_back : Members → Members
pop_back no_members = no_members
pop_back (member n w no_members) = no_members
pop_back (member n w (member m v ms)) = member n w (pop_back (member m v ms))

abbrev pub map_option : {A B : Type 0} → (A → B) → Option A → Option B
map_option f none = none
map_option f (some x) = some (f x)

-- An update through a pointer to the last value, where there is one.
unfoldable pub edit_back : (AmfValue → Option AmfValue) → Members → Option Members
edit_back f no_members = none
edit_back f (member n w no_members) = map_option (λ v. member n v no_members) (f w)
edit_back f (member n w (member m v ms)) =
    map_option (λ rest. member n w rest) (edit_back f (member m v ms))

unfoldable pub edit_last : (AmfValue → Option AmfValue) → List AmfValue → Option (List AmfValue)
edit_last f [] = none
edit_last f (v ∷ []) = map_option (λ w. w ∷ []) (f v)
edit_last f (v ∷ w ∷ vs) = map_option (λ rest. v ∷ rest) (edit_last f (w ∷ vs))
