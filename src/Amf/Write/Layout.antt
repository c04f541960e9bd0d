-- ===== src/Amf/Write/Layout.antt =====
-- src/amf/amf_object.c: `amf_write_value` and `amf_write` write the AMF0 format of the values.
use lib_open_rtmp.Base.{
  ℕ, ◌+◌, ◌-◌, ◌%◌, ◌^◌, ◌≤◌, ◌<◌, ◌≡◌, ◌≢◌, refl, sym, ap, ap₂, ◌∙◌, subst, ◌⊎◌, inl, inr, some,
  List, [], ◌∷◌, ◌++◌, append-nil, append_assoc, arith, ltb, ◌==◌, if◌then◌else◌, length, take,
  drop, length-append, length-drop, drop-drop, lt→not_leb, Bool-cases, u8, bit_and, bit_and-low,
  drop_at, take-append_front, drop-append_front,
}
use lib_open_rtmp.Util.Memutil.{ntoh_write_s, ntoh_write_ud, ntoh_memcpy, host_bytes}
use lib_open_rtmp.Amf.{complete}
use lib_open_rtmp.Amf.Kind
use lib_open_rtmp.Amf.Marker
use lib_open_rtmp.Amf.Shorthand.{
  put_boolean, put_integer, put_integer16, put_double, put_string, describe_encode, amf_bytes,
  write_double_ieee, amf_size_of2,
}
use lib_open_rtmp.Amf.Value.{
  AmfValue, v_double, v_integer, v_boolean, v_string, v_xml, v_reference, v_date, v_object, v_array,
  v_empty, Members, no_members, member, member_count,
}
use lib_open_rtmp.Amf.Encode.{
  amf0_write_number, amf0_write_boolean, amf0_write_string, amf0_write_object, amf0_write_prop_name,
  amf0_write_null, amf0_write_undefined, amf0_write_ecma_array, amf0_write_object_end,
  amf0_write_date, amf0_write_xmldocument,
}
use lib_open_rtmp.Amf.Encode.Layout.{
  Writes, AllExact, describe_encode-Writes, AllExact, describe_encode_unmarked-Writes, amf_wire,
  put_double_exact, put_string_exact, take_all, length-ntoh_memcpy,
}
use lib_open_rtmp.Amf.Write.{Writer, amf_write_value, write_members, write_empty, write_end, ◌▷◌}
use lib_open_rtmp.Amf.Format.{
  double_bytes, name_bytes, long_bytes, text_bytes, end_bytes, format, format_members, Plain,
  PlainMembers,
}

-- The two parts of the memory, put together again.
pub rejoined :
    (a b mem : List ℕ)
    → take (length a) (a ++ drop (length a) mem) ++ (b ++ drop (length b) (drop (length a) mem))
      ≡ (a ++ b) ++ drop (length (a ++ b)) mem
rejoined a b mem =
    ap₂ ◌++◌ (take-append_front (length a) a (drop (length a) mem) refl) (
      ap (λ t. b ++ t)
        (drop-drop (length a) (length b) mem
          ∙ drop_at (length a + length b) (length (a ++ b)) mem (omega (arith, length-append a b))))
    ∙ sym (append_assoc a b (drop (length (a ++ b)) mem))

▷-Writes : (f g : Writer) (a b : List ℕ) → Writes f a → Writes g b → Writes (f ▷ g) (a ++ b)
▷-Writes f g a b first second mem fits small =
    rw
      (
        first mem (omega (arith, length-append a b)) (omega (arith, length-append a b)),
        lt→not_leb (a_small (length-append a b)),
        drop-append_front (length a) a (drop (length a) mem) refl,
        second (drop (length a) mem) (b_fits (length-append a b) (length-drop (length a) mem))
            (omega (arith, length-append a b)),
      )
      (ap₂ (λ (k : ℕ) m. complete (k, some m)) (omega (arith, length-append a b))
        (rejoined a b mem))
  where
    a_small : length (a ++ b) ≡ length a + length b → length a < 2 ^ 31
    a_small e = omega arith

    b_fits :
        length (a ++ b) ≡ length a + length b
        → length (drop (length a) mem) ≡ length mem - length a
        → length b ≤ length (drop (length a) mem)
    b_fits e e' = omega arith

name-Writes : (name : List ℕ) → Writes (λ m. amf0_write_prop_name m name) (name_bytes name)
unfolding name_bytes amf0_write_prop_name amf_bytes amf_size_of2 amf_wire AllExact
name-Writes name =
    subst (Writes (λ m. amf0_write_prop_name m name))
      (ap (λ t. ntoh_write_s (length name) ++ t) (append-nil _ ∙ take_all name))
      (describe_encode_unmarked-Writes
        (put_integer16 (length name) ∷ put_string (length name) (length name) name ∷ [])
        (length-ntoh_memcpy (host_bytes 2 (length name)) 2, (put_string_exact name, tt)))

one_byte-Writes :
    (type : ℕ) → type ≢ Marker.absent → Writes (λ m. describe_encode m type []) (type ∷ [])
unfolding amf_wire AllExact
one_byte-Writes type present = describe_encode-Writes [] type present tt

end-Writes : Writes write_end end_bytes
unfolding write_end end_bytes amf0_write_object_end
end-Writes =
    ▷-Writes (λ m. amf0_write_prop_name m []) amf0_write_object_end (name_bytes [])
      (Marker.object_end ∷ []) (name-Writes []) (one_byte-Writes Marker.object_end (omega arith))

long-Writes :
    (type : ℕ) (s : List ℕ)
    → type ≢ Marker.absent
    → Writes
        (λ m.
          describe_encode m type (put_integer (length s) ∷ put_string (length s) (length s) s ∷ []))
        (type ∷ long_bytes s)
unfolding long_bytes amf_bytes amf_size_of2 amf_wire AllExact
long-Writes type s present =
    subst
      (Writes (λ m.
        describe_encode m type (put_integer (length s) ∷ put_string (length s) (length s) s ∷ [])))
      (ap (λ t. type ∷ (ntoh_write_ud (length s) ++ t)) (append-nil _ ∙ take_all s))
      (describe_encode-Writes (put_integer (length s) ∷ put_string (length s) (length s) s ∷ [])
        type present (length-ntoh_memcpy (host_bytes 4 (length s)) 4, (put_string_exact s, tt)))

short-Writes :
    (s : List ℕ)
    → Writes
        (λ m.
          describe_encode m Marker.string
            (put_integer16 (length s) ∷ put_string (length s) (length s) s ∷ []))
        (Marker.string ∷ name_bytes s)
unfolding name_bytes amf_bytes amf_size_of2 amf_wire AllExact
short-Writes s =
    subst
      (Writes (λ m.
        describe_encode m Marker.string
          (put_integer16 (length s) ∷ put_string (length s) (length s) s ∷ [])))
      (ap (λ t. Marker.string ∷ (ntoh_write_s (length s) ++ t)) (append-nil _ ∙ take_all s))
      (describe_encode-Writes (put_integer16 (length s) ∷ put_string (length s) (length s) s ∷ [])
        Marker.string (omega arith)
        (length-ntoh_memcpy (host_bytes 2 (length s)) 2, (put_string_exact s, tt)))

pub string-Writes : (s : List ℕ) → Writes (λ m. amf0_write_string m s) (text_bytes s)
unfolding amf0_write_string text_bytes
string-Writes s = elim (Bool-cases (ltb 0xFFFF (length s))) [
  | inl e ↦ λ mem. rw e (long-Writes Marker.long_string s (omega arith) mem)
  | inr e ↦ λ mem. rw e (short-Writes s mem)
]

number-Writes : (n : ℕ) → Writes (λ m. amf0_write_number m n) (Marker.number ∷ double_bytes n)
unfolding amf0_write_number double_bytes amf_bytes amf_size_of2 amf_wire AllExact write_double_ieee
number-Writes n =
    describe_encode-Writes (put_double n ∷ []) Marker.number (omega arith) (put_double_exact n, tt)

boolean-Writes : (b : ℕ) → Writes (λ m. amf0_write_boolean m b) (Marker.boolean ∷ (b % 256) ∷ [])
unfolding amf0_write_boolean amf_bytes amf_size_of2 amf_wire AllExact
boolean-Writes b =
    subst (λ c. Writes (λ m. amf0_write_boolean m b) (Marker.boolean ∷ c ∷ []))
      (ap u8 (bit_and-low 8 b) ∙ omega arith)
      (describe_encode-Writes (put_boolean (bit_and b 255) ∷ []) Marker.boolean (omega arith)
        (refl, tt))

date-Writes :
    (t z : ℕ)
    → Writes (λ m. amf0_write_date m z t) (Marker.date ∷ (ntoh_write_s z ++ double_bytes t))
unfolding amf0_write_date double_bytes amf_bytes amf_size_of2 amf_wire AllExact write_double_ieee
date-Writes t z =
    describe_encode-Writes (put_integer16 z ∷ put_double t ∷ []) Marker.date (omega arith)
      (length-ntoh_memcpy (host_bytes 2 z) 2, (put_double_exact t, tt))

array-Writes :
    (n : ℕ) → Writes (λ m. amf0_write_ecma_array m n) (Marker.ecma_array ∷ ntoh_write_ud n)
unfolding amf0_write_ecma_array amf_bytes amf_size_of2 amf_wire AllExact ntoh_write_ud ntoh_memcpy
array-Writes n =
    describe_encode-Writes (put_integer n ∷ []) Marker.ecma_array (omega arith) (refl, tt)

empty-Writes :
    (type : ℕ)
    → (type ≡ Kind.null) ⊎ (type ≡ Kind.undefined)
    → Writes (write_empty type) ((if type == Kind.null then Marker.null else Marker.undefined) ∷ [])
unfolding write_empty amf0_write_null amf0_write_undefined
empty-Writes type (inl e) =
    subst
      (λ t.
        Writes (write_empty t) ((if t == Kind.null then Marker.null else Marker.undefined) ∷ []))
      (sym e) (one_byte-Writes Marker.null (omega arith))
empty-Writes type (inr e) =
    subst
      (λ t.
        Writes (write_empty t) ((if t == Kind.null then Marker.null else Marker.undefined) ∷ []))
      (sym e) (one_byte-Writes Marker.undefined (omega arith))

mutual
  unfolding amf_write_value format Plain amf0_write_object amf0_write_xmldocument

  pub amf_write_value-Writes : (v : AmfValue) → Plain v → Writes (amf_write_value v) (format v)
  amf_write_value-Writes (v_double n) h = number-Writes n
  amf_write_value-Writes (v_integer n) h = absurd h
  amf_write_value-Writes (v_boolean b) h = boolean-Writes b
  amf_write_value-Writes (v_string s) h = string-Writes s
  amf_write_value-Writes (v_xml s) h = long-Writes Marker.xml_document s (omega arith)
  amf_write_value-Writes (v_reference n r) h = absurd h
  amf_write_value-Writes (v_date t z) h = date-Writes t z
  amf_write_value-Writes (v_object ms) h =
      ▷-Writes amf0_write_object (write_members ms write_end) (Marker.object ∷ [])
        (format_members ms end_bytes) (one_byte-Writes Marker.object (omega arith))
        (write_members-Writes ms h write_end end_bytes end-Writes)
  amf_write_value-Writes (v_array assoc len ordinal) h =
      ▷-Writes (λ m. amf0_write_ecma_array m (member_count assoc))
        (write_members assoc (write_members ordinal write_end))
        (Marker.ecma_array ∷ ntoh_write_ud (member_count assoc))
        (format_members assoc (format_members ordinal end_bytes))
        (array-Writes (member_count assoc))
        (write_members-Writes assoc h.1 (write_members ordinal write_end)
          (format_members ordinal end_bytes)
          (write_members-Writes ordinal h.2 write_end end_bytes end-Writes))
  amf_write_value-Writes (v_empty type) h = empty-Writes type h

  write_members-Writes :
      (ms : Members)
      → PlainMembers ms
      → (next : Writer) (bs : List ℕ) → Writes next bs
      → Writes (write_members ms next) (format_members ms bs)
  write_members-Writes no_members h next bs w = w
  write_members-Writes (member name v ms) h next bs w =
      ▷-Writes (λ m. amf0_write_prop_name m name) (amf_write_value v ▷ write_members ms next)
        (name_bytes name) (format v ++ format_members ms bs) (name-Writes name)
        (▷-Writes (amf_write_value v) (write_members ms next) (format v) (format_members ms bs)
          (amf_write_value-Writes v h.1) (write_members-Writes ms h.2 next bs w))
