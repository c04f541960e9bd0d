-- ===== src/Amf/Read/Values.antt =====
-- src/amf/amf_object.c: `amf_read` on the data of a value without members.
use lib_open_rtmp.Base.{
  ℕ, ◌+◌, ◌%◌, ◌^◌, ◌≤◌, ◌<◌, ◌≡◌, refl, sym, ap, ◌∙◌, subst, ◌⊎◌, inl, inr, Bool, true, false, not,
  ◌&&◌, List, [], ◌∷◌, ◌++◌, append-nil, arith, u16, ltb, length, length-append,
}
use lib_open_rtmp.Util.Memutil.{ntoh_write_s, ntoh_write_ud, ntoh_memcpy, host_bytes, ntoh_read_s}
use lib_open_rtmp.Amf.{sign_extend}
use lib_open_rtmp.Amf.Kind
use lib_open_rtmp.Amf.Marker
use lib_open_rtmp.Amf.Shorthand.{number}
use lib_open_rtmp.Amf.Decode.{
  amf0_get_null, amf0_get_undefined, amf0_get_string, amf0_get_string_length, amf0_get_long_string,
  amf0_get_long_string_length, amf0_get_xmldocument, amf0_get_xmldocument_length,
}
use lib_open_rtmp.Amf.Decode.Fields.{u16-sign_extend}
use lib_open_rtmp.Amf.Decode.Items.{
  marker-Decodes, number-Decodes, boolean-Decodes, date-Decodes, length-Decodes, string-Decodes,
  long_length-Decodes, long-Decodes,
}
use lib_open_rtmp.Amf.Format.{
  double_bytes, name_bytes, long_bytes, format, text_bytes_short, text_bytes_long,
}
use lib_open_rtmp.Amf.Value.{AmfValue, v_double, v_boolean, v_string, v_xml, v_date, v_empty}
use lib_open_rtmp.Amf.Builder.{
  Amf, pushed, amf_push_double, amf_push_boolean, amf_push_null, amf_push_undefined, amf_push_date,
  amf_push_string, amf_push_long_string, amf_push_xml,
}
use lib_open_rtmp.Amf.Builder.Slots.{Slot}
use lib_open_rtmp.Amf.Read.{scan, push, text_length, text}
use lib_open_rtmp.Amf.Read.Rounds.{building, push_value-Slot, push_text-Slot}
use lib_open_rtmp.Amf.Read.Reach.{Reaches, at_item, scalar, string_item}

module _ (malloc : ℕ → Bool) (memory : (n : ℕ) → n ≤ 2 ^ 31 → malloc n ≡ true) where
  -- The state in which an item is read, and what is left of the data.
  module _ (refs d : ℕ) (items : List AmfValue) (count0 : ℕ) (ready : Bool)
      (slot : AmfValue → List AmfValue) (here : Slot d items slot)
      (named : (ltb 0 d && not ready) ≡ false) (rest : List ℕ) (o size fuel : ℕ) where
    abbrev pub before : Amf
    before = building refs d items count0 ready

    abbrev pub after : AmfValue → Amf
    after v = building refs d (slot v) count0 false

    pub number_read :
        (n : ℕ)
        → n < 2 ^ 64
        → length (format (v_double n) ++ rest) < 2 ^ 31
        → Reaches malloc memory
            (at_item malloc memory fuel before (format (v_double n) ++ rest) o size)
            fuel
            (after (v_double n))
            rest
            (o + length (format (v_double n) ++ rest))
    unfolding format scan push amf_push_double
    number_read n h small =
        scalar malloc memory Marker.number before (after (v_double n)) (double_bytes n) rest
          (number n ∷ []) o size fuel (omega arith) (number-Decodes n h rest) small refl
          (push_value-Slot refs d items count0 ready slot here named (v_double n))

    pub boolean_read :
        (b : ℕ)
        → b < 2
        → length (format (v_boolean b) ++ rest) < 2 ^ 31
        → Reaches malloc memory
            (at_item malloc memory fuel before (format (v_boolean b) ++ rest) o size)
            fuel
            (after (v_boolean b))
            rest
            (o + length (format (v_boolean b) ++ rest))
    unfolding format scan push amf_push_boolean
    boolean_read b h small =
        scalar malloc memory Marker.boolean before (after (v_boolean b)) ((b % 256) ∷ []) rest
          (number (b % 256) ∷ []) o size fuel (omega arith) (boolean-Decodes (b % 256) rest) small
          refl
          (push_value-Slot refs d items count0 ready slot here named _
            ∙ ap (λ (c : ℕ). pushed (after (v_boolean c))) (ground arith))

    pub date_read :
        (t z : ℕ)
        → t < 2 ^ 64
        → z < 2 ^ 16
        → length (format (v_date t z) ++ rest) < 2 ^ 31
        → Reaches malloc memory
            (at_item malloc memory fuel before (format (v_date t z) ++ rest) o size)
            fuel
            (after (v_date t z))
            rest
            (o + length (format (v_date t z) ++ rest))
    unfolding format scan push amf_push_date
    date_read t z ht hz small =
        scalar malloc memory Marker.date before (after (v_date t z))
          (ntoh_write_s z ++ double_bytes t) rest
          (number t ∷ number (sign_extend 32 (ntoh_read_s (ntoh_write_s z))) ∷ []) o size fuel
          (omega arith) (date-Decodes t z ht rest) small refl
          (push_value-Slot refs d items count0 ready slot here named _
            ∙ ap (λ (c : ℕ). pushed (after (v_date t c)))
                (ap (λ bs. u16 (sign_extend 32 (ntoh_read_s bs)))
                    (sym (append-nil (ntoh_write_s z)))
                  ∙ u16-sign_extend z [] hz))

    pub empty_read :
        (type : ℕ)
        → (type ≡ Kind.null) ⊎ (type ≡ Kind.undefined)
        → length (format (v_empty type) ++ rest) < 2 ^ 31
        → Reaches malloc memory
            (at_item malloc memory fuel before (format (v_empty type) ++ rest) o size)
            fuel
            (after (v_empty type))
            rest
            (o + length (format (v_empty type) ++ rest))
    unfolding format scan push amf_push_null amf_push_undefined amf0_get_null amf0_get_undefined
    empty_read type (inl e) small = rw e (
        scalar malloc memory Marker.null before (after (v_empty Kind.null)) [] rest [] o size fuel
          (omega arith) (marker-Decodes Marker.null (omega arith) rest) (omega arith) refl
          (push_value-Slot refs d items count0 ready slot here named (v_empty Kind.null)))
    empty_read type (inr e) small = rw e (
        scalar malloc memory Marker.undefined before (after (v_empty Kind.undefined)) [] rest [] o
          size fuel (omega arith) (marker-Decodes Marker.undefined (omega arith) rest) (omega arith)
          refl (push_value-Slot refs d items count0 ready slot here named (v_empty Kind.undefined)))

    -- The bytes of a string, and what the reader comes to behind them.
    abbrev pub ReadsText : AmfValue → List ℕ → Type 0
    ReadsText v bs =
        length (bs ++ rest) < 2 ^ 31
        → Reaches malloc memory (at_item malloc memory fuel before (bs ++ rest) o size) fuel
            (after v) rest (o + length (bs ++ rest))

    short_read :
        (s : List ℕ) → length s < 2 ^ 15 → ReadsText (v_string s) (Marker.string ∷ name_bytes s)
    unfolding scan push text_length text amf_push_string amf0_get_string amf0_get_string_length
    short_read s h small =
        string_item malloc memory Marker.string before (after (v_string s)) (name_bytes s) s rest 3
          (number (length s) ∷ []) o size fuel (omega arith) refl refl (length-Decodes s rest h)
          (string-Decodes s h rest) (omega arith) small
          (push_text-Slot refs d items count0 ready slot here named malloc v_string s)

    long_size :
        (type : ℕ) (s : List ℕ)
        → length (type ∷ (long_bytes s ++ rest)) < 2 ^ 31
        → length s + 5 < 2 ^ 31
    unfolding long_bytes ntoh_write_ud ntoh_memcpy host_bytes
    long_size type s small = omega (arith, length-append s rest)

    long_read : (s : List ℕ) → ReadsText (v_string s) (Marker.long_string ∷ long_bytes s)
    unfolding scan push text_length text amf_push_long_string amf0_get_long_string
        amf0_get_long_string_length
    long_read s small =
        string_item malloc memory Marker.long_string before (after (v_string s)) (long_bytes s) s
          rest 5 (number (length s) ∷ []) o size fuel (omega arith) refl refl
          (long_length-Decodes Marker.long_string s rest (omega arith)
            (omega (arith, long_size Marker.long_string s small)))
          (long-Decodes Marker.long_string s (omega arith) (long_size Marker.long_string s small)
            rest)
          (omega (arith, long_size Marker.long_string s small)) small
          (push_text-Slot refs d items count0 ready slot here named malloc v_string s)

    pub xml_read : (s : List ℕ) → ReadsText (v_xml s) (format (v_xml s))
    unfolding format scan push text_length text amf_push_xml amf0_get_xmldocument
        amf0_get_xmldocument_length
    xml_read s small =
        string_item malloc memory Marker.xml_document before (after (v_xml s)) (long_bytes s) s rest
          5 (number (length s) ∷ []) o size fuel (omega arith) refl refl
          (long_length-Decodes Marker.xml_document s rest (omega arith)
            (omega (arith, long_size Marker.xml_document s small)))
          (long-Decodes Marker.xml_document s (omega arith) (long_size Marker.xml_document s small)
            rest)
          (omega (arith, long_size Marker.xml_document s small)) small
          (push_text-Slot refs d items count0 ready slot here named malloc v_xml s)

    pub string_read :
        (s : List ℕ)
        → (length s < 2 ^ 15) ⊎ (0xFFFF < length s)
        → ReadsText (v_string s) (format (v_string s))
    unfolding format
    string_read s (inl h) =
        subst (ReadsText (v_string s)) (sym (text_bytes_short s h)) (short_read s h)
    string_read s (inr h) = subst (ReadsText (v_string s)) (sym (text_bytes_long s h)) (long_read s)
