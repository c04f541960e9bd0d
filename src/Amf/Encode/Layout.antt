-- ===== src/Amf/Encode/Layout.antt =====
-- src/amf/amf0_encode.c: what a writer does to its buffer.
use lib_open_rtmp.Base.{
  ℕ, zero, suc, ◌+◌, ◌^◌, ◌≤◌, ◌<◌, ◌≡◌, ◌≢◌, refl, sym, ap, ap₂, ◌∙◌, min, some, List, [], ◌∷◌,
  ◌++◌, append-nil, append_assoc, arith, ltb, if◌then◌else◌, length, take, drop, blit,
  length-append, length-drop, drop-drop, take_of_le, blit_front, blit_behind, drop_at, le→not_ltb,
  ne→not_==,
}
use lib_open_rtmp.Util.Memutil.{ntoh_memcpy}
use lib_open_rtmp.Amf.{Outcome, complete, amf_size}
use lib_open_rtmp.Amf.Marker
use lib_open_rtmp.Amf.Shorthand.{
  Item, put_double, put_string, describe_encode, amf_bytes, amf_size_of2, amf_sizes2, amf_write,
  write_double_ieee, marker_size,
}
use lib_open_rtmp.Amf.Encode.{Memory}

unfoldable pub amf_wire : List Item → List ℕ
unfolding amf_bytes
amf_wire [] = []
amf_wire (i ∷ is) = amf_bytes i ++ amf_wire is

-- Each item stores as many bytes as its size says.
unfoldable pub AllExact : List Item → Type 0
unfolding amf_bytes amf_size_of2
AllExact [] = Unit
AllExact (i ∷ is) = (length (amf_bytes i) ≡ amf_size_of2 i) × AllExact is

pub length-amf_wire : (is : List Item) → AllExact is → length (amf_wire is) ≡ amf_sizes2 is
unfolding amf_sizes2 amf_wire AllExact
length-amf_wire [] h = refl
length-amf_wire (i ∷ is) h =
    length-append (amf_bytes i) (amf_wire is) ∙ omega (arith, h.0, length-amf_wire is h.1)

pub amf_write_lem :
    (is : List Item) (front xs : List ℕ)
    → AllExact is
    → amf_sizes2 is ≤ length xs
    → amf_write (front ++ xs) (length front) is ≡ (front ++ amf_wire is) ++ drop (amf_sizes2 is) xs
unfolding amf_sizes2 amf_write amf_wire AllExact
amf_write_lem [] front xs h fits = ap (λ t. t ++ xs) (sym (append-nil front))
amf_write_lem (i ∷ is) front xs h fits =
    ap₂ (λ m o. amf_write m o is) (blit_behind front xs (amf_bytes i) (omega (arith, h.0)))
      (omega (arith, h.0, length-append front (amf_bytes i)))
    ∙ amf_write_lem is (front ++ amf_bytes i) (drop (length (amf_bytes i)) xs) h.1
        (omega (arith, h.0, length-drop (length (amf_bytes i)) xs))
    ∙ ap₂ ◌++◌ (append_assoc front (amf_bytes i) (amf_wire is)) (
        drop-drop (length (amf_bytes i)) (amf_sizes2 is) xs
        ∙ ap (λ (k : ℕ). drop (k + amf_sizes2 is) xs) h.0)

-- A writer with room for these bytes stores them at the front of its buffer, and says how many.
abbrev pub Writes : (Memory → Outcome (ℕ × Memory)) → List ℕ → Type 0
Writes f bs =
    (mem : List ℕ)
    → length bs ≤ length mem
    → length bs < 2 ^ 31
    → f (some mem) ≡ complete (length bs, some (bs ++ drop (length bs) mem))

describe_encode_fits :
    (is : List Item) (type n : ℕ) (mem : List ℕ)
    → (n ≡ amf_sizes2 is + marker_size type)
    → n ≤ length mem
    → describe_encode (some mem) type is
      ≡ complete (
        amf_size n,
        some (
            amf_write
              (if ltb 0 (marker_size type) then blit mem 0 (type ∷ []) else mem)
              (marker_size type)
              is),
      )
unfolding describe_encode
describe_encode_fits is type n mem e fits = rw (le→not_ltb (leq_subst fits)) (
    ap
      (λ (k : ℕ). complete (
        amf_size k,
        some (
            amf_write (if ltb 0 (marker_size type) then blit mem 0 (type ∷ []) else mem)
              (marker_size type) is),
      ))
      (sym e))
  where
    leq_subst : n ≤ length mem → amf_sizes2 is + marker_size type ≤ length mem
    leq_subst h = omega (arith, e)

-- An item with a marker is the marker and its fields.
pub describe_encode-Writes :
    (is : List Item) (type : ℕ)
    → type ≢ Marker.absent
    → AllExact is
    → Writes (λ mem. describe_encode mem type is) (type ∷ amf_wire is)
describe_encode-Writes is type present exact mem fits small =
    describe_encode_fits is type (suc (length (amf_wire is))) mem
      (rw (ne→not_== present) (omega (arith, length-amf_wire is exact))) fits
    ∙ rw (ne→not_== present) (
        ap₂ (λ (k : ℕ) m. complete (k, some m)) (omega arith)
          (ap (λ m. amf_write m 1 is) (blit_front mem (type ∷ []) (omega arith))
            ∙ amf_write_lem is (type ∷ []) (drop 1 mem) exact
                (omega (arith, length-amf_wire is exact, length-drop 1 mem))
            ∙ ap (λ t. (type ∷ amf_wire is) ++ t) (drop-drop 1 (amf_sizes2 is) mem ∙ drop_wire)))
  where
    drop_wire : drop (1 + amf_sizes2 is) mem ≡ drop (length (type ∷ amf_wire is)) mem
    drop_wire =
        drop_at (1 + amf_sizes2 is) (length (type ∷ amf_wire is)) mem
          (omega (arith, length-amf_wire is exact))

pub describe_encode_unmarked-Writes :
    (is : List Item)
    → AllExact is
    → Writes (λ mem. describe_encode mem Marker.absent is) (amf_wire is)
describe_encode_unmarked-Writes is exact mem fits small =
    describe_encode_fits is Marker.absent (length (amf_wire is)) mem
      (length-amf_wire is exact ∙ omega arith) fits
    ∙ ap₂ (λ (k : ℕ) m. complete (k, some m)) (omega arith)
        (amf_write_lem is [] mem exact (omega (arith, length-amf_wire is exact))
          ∙ ap (λ (k : ℕ). amf_wire is ++ drop k mem) (sym (length-amf_wire is exact)))

-- The sizes of the fields that the writers use.
pub length-ntoh_memcpy : (src : List ℕ) (n : ℕ) → length (ntoh_memcpy src n) ≡ n
unfolding ntoh_memcpy
length-ntoh_memcpy src zero = refl
length-ntoh_memcpy src (suc n) = ap suc (length-ntoh_memcpy src n)

pub put_double_exact : (v : ℕ) → length (amf_bytes (put_double v)) ≡ amf_size_of2 (put_double v)
unfolding amf_bytes amf_size_of2
put_double_exact v = length-ntoh_memcpy (write_double_ieee v) 8

pub take_all : (s : List ℕ) → take (min (length s) (length s)) s ≡ s
take_all s = take_of_le (min (length s) (length s)) s (omega arith)

pub put_string_exact :
    (s : List ℕ)
    → length (amf_bytes (put_string (length s) (length s) s))
      ≡ amf_size_of2 (put_string (length s) (length s) s)
unfolding amf_bytes amf_size_of2
put_string_exact s = ap length (take_all s)
