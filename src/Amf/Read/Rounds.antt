-- ===== src/Amf/Read/Rounds.antt =====
-- src/amf/amf_object.c: a round of `amf_read` on the data of a value.
use lib_open_rtmp.Base.{
  ℕ, suc, ◌+◌, ◌^◌, ◌≤◌, ◌<◌, ◌≡◌, refl, ap, Bool, true, false, not, ◌&&◌, none, some, List, [],
  ◌∷◌, ◌++◌, arith, add64, ltb, length, replicate, lt→ltb, le→not_ltb, lt→not_leb, le→leb,
  drop-append_front,
}
use lib_open_rtmp.Util.Memutil.{ntoh_write_s, ntoh_memcpy, host_bytes}
use lib_open_rtmp.Amf.{Outcome, complete}
use lib_open_rtmp.Amf.Kind
use lib_open_rtmp.Amf.Shorthand.{Value, number, bytes}
use lib_open_rtmp.Amf.Decode.{amf0_next_type}
use lib_open_rtmp.Amf.Decode.Items.{name_length-Decodes, name-Decodes}
use lib_open_rtmp.Amf.Format.{name_bytes}
use lib_open_rtmp.Amf.Value.{AmfValue, v_empty, Members, member_count, push_back}
use lib_open_rtmp.Amf.Builder.{
  Amf, pushed, push_value, push_str, amf_push_string_alloc, amf_push_member, own,
}
use lib_open_rtmp.Amf.Builder.Slots.{Slot}
use lib_open_rtmp.Amf.Builder.Containers.{Container, named_slot}
use lib_open_rtmp.Amf.Read.{
  Reader, Step, stepped, decoded, read_item, read_member_name, read_text, scan, push, is_text,
  text_length, text,
}

-- The object between two pushes, and the reader with the data that is left.
abbrev pub building : ℕ → ℕ → List AmfValue → ℕ → Bool → Amf
building refs d items objects ready = record {
  references = refs;
  depth = d;
  items = items;
  ref_count = objects;
  allocation = none;
  member_ready = ready;
}

abbrev pub reading : Amf → List ℕ → ℕ → ℕ → Reader
reading amf rest offset size = record { amf = amf; rest = rest; offset = offset; temp_size = size }

-- A value goes into its slot.
pub push_value-Slot :
    (refs d : ℕ) (items : List AmfValue) (objects : ℕ) (ready : Bool)
    (slot : AmfValue → List AmfValue)
    → Slot d items slot
    → (ltb 0 d && not ready) ≡ false
    → (x : AmfValue)
    → push_value x (building refs d items objects ready)
      ≡ pushed (building refs d (slot x) objects false)
unfolding push_value
push_value-Slot refs d items objects ready slot here named x = rw (named, here x) refl

-- The same for a string, which is in the object's buffer.
pub push_text-Slot :
    (refs d : ℕ) (items : List AmfValue) (objects : ℕ) (ready : Bool)
    (slot : AmfValue → List AmfValue)
    → Slot d items slot
    → (ltb 0 d && not ready) ≡ false
    → (malloc : ℕ → Bool) (make : List ℕ → AmfValue) (s : List ℕ)
    → push_str malloc make own
        (record (building refs d items objects ready) { allocation = some s })
      ≡ pushed (building refs d (slot (make s)) objects false)
unfolding push_str push_value
push_text-Slot refs d items objects ready slot here named malloc make s =
    rw (named, here (make s)) refl

pub next_type_lem : (type : ℕ) (rest : List ℕ) → type ≤ 17 → amf0_next_type (type ∷ rest) ≡ type
unfolding amf0_next_type
next_type_lem type rest h = rw (le→leb h, le→not_ltb (at_least_one rest)) refl
  where
    at_least_one : (bs : List ℕ) → 1 ≤ suc (length bs)
    at_least_one bs = omega arith

decoded_lem :
    (r : Reader) (o : Outcome (ℕ × List Value)) (f : ℕ → List Value → Step) (k : ℕ)
    (vs : List Value)
    → o ≡ complete (k, vs)
    → k < 2 ^ 31
    → decoded r o f ≡ f k vs
decoded_lem r o f k vs e small = rw (e, lt→not_leb small) refl

module _ (malloc : ℕ → Bool) (memory : (n : ℕ) → n ≤ 2 ^ 31 → malloc n ≡ true) where
  -- An item that is no string.
  pub read_item_lem :
      (type : ℕ) (a a' : Amf) (bs rest : List ℕ) (vs : List Value) (offset size : ℕ)
      → scan type (bs ++ rest) ≡ complete (length bs, vs)
      → length bs < 2 ^ 31
      → is_text type ≡ false
      → push malloc type vs a ≡ pushed a'
      → read_item malloc type (reading a (bs ++ rest) offset size)
        ≡ stepped (reading a' rest (offset + length bs) size)
  unfolding read_item
  read_item_lem type a a' bs rest vs offset size scans small plain pushes =
      rw (scans, lt→not_leb small, plain, pushes, drop-append_front (length bs) bs rest refl) refl

  alloc_lem :
      (size : ℕ) (a : Amf)
      → size < 2 ^ 31
      → amf_push_string_alloc malloc size a
        ≡ pushed (record a { allocation = some (replicate size 0) })
  unfolding amf_push_string_alloc
  alloc_lem size a small = rw (memory (add64 size 1) (omega arith), lt→not_leb fits) refl
    where
      fits : suc size < 2 ^ 64
      fits = omega arith

  -- A string, in the buffer that was made for it.
  pub read_text_lem :
      (type : ℕ) (a a' : Amf) (bs s rest : List ℕ) (k : ℕ) (ws : List Value) (offset size : ℕ)
      → scan type (bs ++ rest) ≡ complete (0, [])
      → is_text type ≡ true
      → text_length type (bs ++ rest) ≡ complete (k, number (length s) ∷ [])
      → text type (bs ++ rest) (length s) ≡ complete (length bs, bytes s ∷ ws)
      → length s < 2 ^ 31
      → length bs < 2 ^ 31
      → push malloc type [] (record a { allocation = some s }) ≡ pushed a'
      → read_item malloc type (reading a (bs ++ rest) offset size)
        ≡ stepped (reading a' rest (offset + length bs) (length s))
  unfolding read_item read_text
  read_text_lem type a a' bs s rest k ws offset size scans is_a_text measures copies short small
        pushes =
      rw
        (
          scans,
          is_a_text,
          measures,
          alloc_lem (length s) a short,
          copies,
          lt→not_leb small,
          pushes,
          drop-append_front (length bs) bs rest refl,
        )
        (ap (λ (o : ℕ). stepped (reading a' rest o (length s))) (omega arith))

  name_bytes-lt : (name : List ℕ) → length name < 2 ^ 15 → length (name_bytes name) < 2 ^ 31
  unfolding name_bytes ntoh_write_s ntoh_memcpy host_bytes
  name_bytes-lt name short = omega arith

  -- The name of a member of the container in a slot.
  pub read_name_lem :
      (refs d : ℕ) (items : List AmfValue) (objects : ℕ) (slot : AmfValue → List AmfValue)
      (make : Members → AmfValue) (bound : ℕ)
      → Slot d items slot
      → Container make bound
      → (ms : Members) (name rest : List ℕ) (offset size : ℕ) → member_count ms < bound
      → length name < 2 ^ 15
      → read_member_name malloc (
          reading
            (building refs (suc d) (slot (make ms)) objects false)
            (name_bytes name ++ rest)
            offset
            size)
        ≡ stepped (
            reading
              (building refs
                (suc d)
                (slot (make (push_back ms name (v_empty Kind.undefined))))
                objects
                true)
              rest
              (offset + length (name_bytes name))
              (length name))
  unfolding read_member_name amf_push_member
  read_name_lem refs d items objects slot make bound here container ms name rest offset size room
        short =
      rw
        (
          lt→ltb (below d),
          name_length-Decodes name rest short,
          alloc_lem (length name) (building refs (suc d) (slot (make ms)) objects false)
              (omega arith),
          name-Decodes name short rest,
          lt→not_leb (name_bytes-lt name short),
          drop-append_front (length (name_bytes name)) (name_bytes name) rest refl,
          named_slot d items slot make bound here container ms name room,
        )
        refl
    where
      below : (n : ℕ) → 0 < suc n
      below n = omega arith
