-- ===== src/Amf/Format.antt =====
-- src/amf/amf_object.c, `amf_write_value`: the AMF0 data of a value, and the values that the data can
-- be read back to. The layout is that of the AMF0 specification, but for a date: section 2.13 has the
-- time first and then the time zone, `amf0_write_date` and `amf0_get_date` have the time zone first.
use lib_open_rtmp.Base.{
  ℕ, ◌%◌, ◌^◌, ◌<◌, ◌≡◌, ◌⊎◌, List, [], ◌∷◌, ◌++◌, ltb, ◌==◌, if◌then◌else◌, length, lt→ltb,
  le→not_ltb, refl, arith,
}
use lib_open_rtmp.Util.Memutil.{ntoh_write_s, ntoh_write_ud, ntoh_memcpy, host_bytes}
use lib_open_rtmp.Amf.Kind
use lib_open_rtmp.Amf.Marker
use lib_open_rtmp.Amf.Value.{
  AmfValue, v_double, v_integer, v_boolean, v_string, v_xml, v_reference, v_date, v_object, v_array,
  v_empty, Members, no_members, member, member_count,
}

unfoldable pub double_bytes : ℕ → List ℕ
unfolding host_bytes ntoh_memcpy
double_bytes n = ntoh_memcpy (host_bytes 8 n) 8

unfoldable pub name_bytes : List ℕ → List ℕ
unfolding ntoh_write_s
name_bytes s = ntoh_write_s (length s) ++ s

pub name_nonempty : (s rest : List ℕ) → 0 < length (name_bytes s ++ rest)
unfolding name_bytes ntoh_write_s ntoh_memcpy host_bytes
name_nonempty s rest = omega arith

unfoldable pub long_bytes : List ℕ → List ℕ
unfolding ntoh_write_ud
long_bytes s = ntoh_write_ud (length s) ++ s

-- A string of more than 65535 bytes is a long string.
unfoldable pub text_bytes : List ℕ → List ℕ
unfolding name_bytes long_bytes
text_bytes s =
    if ltb 0xFFFF (length s)
    then Marker.long_string ∷ long_bytes s
    else Marker.string ∷ name_bytes s

pub text_bytes_short :
    (s : List ℕ) → length s < 2 ^ 15 → text_bytes s ≡ Marker.string ∷ name_bytes s
unfolding text_bytes
text_bytes_short s h = rw (le→not_ltb {a = 0xFFFF} {b = length s} (omega arith)) refl

pub text_bytes_long :
    (s : List ℕ) → 0xFFFF < length s → text_bytes s ≡ Marker.long_string ∷ long_bytes s
unfolding text_bytes
text_bytes_long s h = rw (lt→ltb h) refl

unfoldable pub end_bytes : List ℕ
unfolding name_bytes
end_bytes = name_bytes [] ++ Marker.object_end ∷ []

unfoldable mutual
  unfolding double_bytes name_bytes long_bytes text_bytes end_bytes ntoh_write_s ntoh_write_ud
      member_count

  pub format : AmfValue → List ℕ
  format (v_double n) = Marker.number ∷ double_bytes n
  format (v_integer n) = []
  format (v_boolean b) = Marker.boolean ∷ (b % 256) ∷ []
  format (v_string s) = text_bytes s
  format (v_xml s) = Marker.xml_document ∷ long_bytes s
  format (v_reference n r) = []
  format (v_date t z) = Marker.date ∷ (ntoh_write_s z ++ double_bytes t)
  format (v_object ms) = Marker.object ∷ format_members ms end_bytes
  format (v_array assoc len ordinal) =
      Marker.ecma_array
      ∷ (ntoh_write_ud (member_count assoc)
          ++ format_members assoc (format_members ordinal end_bytes))
  format (v_empty type) = (if type == Kind.null then Marker.null else Marker.undefined) ∷ []

  -- The members, in front of what follows them.
  pub format_members : Members → List ℕ → List ℕ
  format_members no_members rest = rest
  format_members (member name v ms) rest = name_bytes name ++ (format v ++ format_members ms rest)

-- The values that come back as they were: an integer comes back as a double, and a reference
-- depends on the objects in front of it. The length of a name or of a short string is a signed
-- 16-bit number.
unfoldable mutual
  unfolding member_count

  pub Plain : AmfValue → Type 0
  Plain (v_double n) = n < 2 ^ 64
  Plain (v_integer n) = ⊥
  Plain (v_boolean b) = b < 2
  Plain (v_string s) = (length s < 2 ^ 15) ⊎ (0xFFFF < length s)
  Plain (v_xml s) = Unit {0}
  Plain (v_reference n r) = ⊥
  Plain (v_date t z) = (t < 2 ^ 64) × (z < 2 ^ 16)
  Plain (v_object ms) = PlainMembers ms
  Plain (v_array assoc len ordinal) =
      (len ≡ member_count assoc) × PlainMembers assoc × PlainMembers ordinal
  Plain (v_empty type) = (type ≡ Kind.null) ⊎ (type ≡ Kind.undefined)

  pub PlainMembers : Members → Type 0
  PlainMembers no_members = Unit {0}
  PlainMembers (member name v ms) = (length name < 2 ^ 15) × Plain v × PlainMembers ms
