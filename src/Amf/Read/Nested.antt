-- ===== src/Amf/Read/Nested.antt =====
-- src/amf/amf_object.c: `amf_read` on the data of any value, by recursion on the value.
use lib_open_rtmp.Base.{
  ℕ, suc, ◌+◌, ◌^◌, ◌≤◌, ◌<◌, ◌≡◌, refl, sym, ap, ap₂, ◌∙◌, Bool, true, false, not, ◌&&◌, List, [],
  ◌∷◌, ◌++◌, arith, ltb, length, length-append,
}
use lib_open_rtmp.Util.Memutil.{ntoh_write_ud}
use lib_open_rtmp.Amf.Marker
use lib_open_rtmp.Amf.Shorthand.{number}
use lib_open_rtmp.Amf.Decode.{amf0_get_object}
use lib_open_rtmp.Amf.Decode.Items.{marker-Decodes, array-Decodes}
use lib_open_rtmp.Amf.Format.{name_bytes, end_bytes, format, format_members, Plain, PlainMembers}
use lib_open_rtmp.Amf.Value.{
  AmfValue, v_double, v_integer, v_boolean, v_string, v_xml, v_reference, v_date, v_object, v_array,
  v_empty, Members, no_members, member, member_count, push_back,
}
use lib_open_rtmp.Amf.Value.Vectors.{member_count-push_back}
use lib_open_rtmp.Amf.Builder.{Amf}
use lib_open_rtmp.Amf.Builder.Slots.{Slot}
use lib_open_rtmp.Amf.Builder.Containers.{
  Container, object-Container, assoc-Container, ordinal-Container, member-Slot,
}
use lib_open_rtmp.Amf.Read.{read_loop, scan, push}
use lib_open_rtmp.Amf.Read.Rounds.{building, reading}
use lib_open_rtmp.Amf.Read.Reach.{Reaches, at_item, scalar, follows, starts}
use lib_open_rtmp.Amf.Read.Measure.{
  objects, objects_in, rounds, rounds_in, join, join-push_back, join_empty, format_members-append,
}
use lib_open_rtmp.Amf.Read.Values.{
  number_read, boolean_read, date_read, empty_read, string_read, xml_read,
}
use lib_open_rtmp.Amf.Read.Ends.{
  leaf, is_named, member_round, object_start, array_start, closes, object_drops, array_drops,
  end-le,
}

module _ (malloc : ℕ → Bool) (memory : (n : ℕ) → n ≤ 2 ^ 31 → malloc n ≡ true) where
  mutual
    unfolding Plain rounds objects format join member_count amf0_get_object scan push

    pub value_read :
        (v : AmfValue)
        → Plain v
        → (refs d : ℕ) (items : List AmfValue) (count0 : ℕ) (ready : Bool)
          (slot : AmfValue → List AmfValue)
        → Slot d items slot
        → (ltb 0 d && not ready) ≡ false
        → (rest : List ℕ) (o size fuel : ℕ) → length (format v ++ rest) < 2 ^ 31
        → Reaches malloc memory
            (at_item malloc memory
              (rounds v + fuel)
              (building refs d items count0 ready)
              (format v ++ rest)
              o
              size)
            fuel
            (building refs d (slot v) (count0 + objects v) false)
            rest
            (o + length (format v ++ rest))
    value_read (v_double n) h refs d items count0 ready slot here named rest o size fuel small =
        leaf malloc memory (v_double n) refs d items count0 ready slot rest o size fuel (
          number_read malloc memory refs d items count0 ready slot here named rest o size fuel n h
            small)
    value_read (v_integer n) h refs d items count0 ready slot here named rest o size fuel small =
        absurd h
    value_read (v_boolean b) h refs d items count0 ready slot here named rest o size fuel small =
        leaf malloc memory (v_boolean b) refs d items count0 ready slot rest o size fuel (
          boolean_read malloc memory refs d items count0 ready slot here named rest o size fuel b h
            small)
    value_read (v_string s) h refs d items count0 ready slot here named rest o size fuel small =
        leaf malloc memory (v_string s) refs d items count0 ready slot rest o size fuel (
          string_read malloc memory refs d items count0 ready slot here named rest o size fuel s h
            small)
    value_read (v_xml s) h refs d items count0 ready slot here named rest o size fuel small =
        leaf malloc memory (v_xml s) refs d items count0 ready slot rest o size fuel (
          xml_read malloc memory refs d items count0 ready slot here named rest o size fuel s small)
    value_read (v_reference n r) h refs d items count0 ready slot here named rest o size fuel
          small =
        absurd h
    value_read (v_date t z) h refs d items count0 ready slot here named rest o size fuel small =
        leaf malloc memory (v_date t z) refs d items count0 ready slot rest o size fuel (
          date_read malloc memory refs d items count0 ready slot here named rest o size fuel t z h.0
            h.1 small)
    value_read (v_empty type) h refs d items count0 ready slot here named rest o size fuel small =
        leaf malloc memory (v_empty type) refs d items count0 ready slot rest o size fuel (
          empty_read malloc memory refs d items count0 ready slot here named rest o size fuel type h
            small)
    value_read (v_object ms) h refs d items count0 ready slot here named rest o size fuel small =
        follows malloc memory _ (suc (rounds_in ms) + fuel) fuel inside final
          (format_members ms end_bytes ++ rest) rest _
          (scalar malloc memory Marker.object (building refs d items count0 ready) inside []
            (format_members ms end_bytes ++ rest) [] o size (suc (rounds_in ms) + fuel)
            (omega arith)
            (marker-Decodes Marker.object (omega arith) (format_members ms end_bytes ++ rest)) small
            refl (object_start malloc memory refs d items count0 ready slot here named))
          (λ o' size' at.
            starts malloc memory _ _ fuel final _ rest _ _
              (ap₂ (λ (k : ℕ) bs. read_loop malloc k (reading inside bs o' size')) (omega arith)
                (format_members-append ms end_bytes rest))
              (ap (λ bs. o' + length bs) (sym (format_members-append ms end_bytes rest)) ∙ at)
              (ap (λ (k : ℕ). building refs d (slot (v_object ms)) k false) (omega arith))
              (closes malloc memory _ refs d items (suc count0 + objects_in ms) slot v_object
                (suc (member_count ms)) here (object-Container (suc (member_count ms))) ms
                (object_drops malloc memory ms) (omega arith) rest fuel _
                (omega (
                  arith,
                  end-le malloc memory ms (end_bytes ++ rest),
                  ap length (format_members-append ms end_bytes rest),
                ))
                (members_read ms h refs d items (suc count0) slot v_object (suc (member_count ms))
                  here (object-Container (suc (member_count ms))) no_members (omega arith)
                  (end_bytes ++ rest) o' size' (suc fuel)
                  (omega (arith, ap length (format_members-append ms end_bytes rest))))))
      where
        inside : Amf
        inside = building refs (suc d) (slot (v_object no_members)) (suc count0) false

        final : Amf
        final = building refs d (slot (v_object ms)) (count0 + suc (objects_in ms)) false
    value_read (v_array assoc len ordinal) h refs d items count0 ready slot here named rest o size
          fuel small =
        follows malloc memory _ (rounds_in assoc + suc (rounds_in ordinal) + fuel) fuel inside final
          (format_members assoc (format_members ordinal end_bytes) ++ rest) rest _
          (scalar malloc memory Marker.ecma_array (building refs d items count0 ready) inside
            (ntoh_write_ud (member_count assoc))
            (format_members assoc (format_members ordinal end_bytes) ++ rest)
            (number (member_count assoc) ∷ []) o size
            (rounds_in assoc + suc (rounds_in ordinal) + fuel) (omega arith)
            (array-Decodes (member_count assoc)
              (omega (
                arith,
                end-le malloc memory assoc (format_members ordinal (end_bytes ++ rest)),
                ap length whole,
              ))
              (format_members assoc (format_members ordinal end_bytes) ++ rest))
            small refl
            (array_start malloc memory refs d items count0 ready slot here named
              (member_count assoc)))
          (λ o' size' at.
            starts malloc memory _ _ fuel final _ rest _ _
              (ap₂ (λ (k : ℕ) bs. read_loop malloc k (reading inside bs o' size')) (omega arith)
                whole)
              (ap (λ bs. o' + length bs) (sym whole) ∙ at)
              (ap₂ (λ (n k : ℕ). building refs d (slot (v_array assoc n ordinal)) k false) (sym h.0)
                (omega arith))
              (closes malloc memory _ refs d items
                (suc count0 + objects_in assoc + objects_in ordinal) slot
                (λ ms. v_array assoc (member_count assoc) ms) (suc (member_count ordinal)) here
                (ordinal-Container assoc (suc (member_count ordinal))) ordinal
                (array_drops malloc memory assoc (member_count assoc) ordinal) (omega arith) rest
                fuel _
                (omega (
                  arith,
                  end-le malloc memory assoc (format_members ordinal (end_bytes ++ rest)),
                  end-le malloc memory ordinal (end_bytes ++ rest),
                  ap length whole,
                ))
                (follows malloc memory _ (rounds_in ordinal + suc fuel) (suc fuel) between _
                  (format_members ordinal (end_bytes ++ rest)) (end_bytes ++ rest) _
                  (members_read assoc h.1 refs d items (suc count0) slot
                    (λ ms. v_array ms (member_count assoc) no_members) (member_count assoc) here
                    (assoc-Container (member_count assoc)) no_members (omega arith)
                    (format_members ordinal (end_bytes ++ rest)) o' size'
                    (rounds_in ordinal + suc fuel) (omega (arith, ap length whole)))
                  (λ o2 size2 at2.
                    starts malloc memory _ _ (suc fuel) _ _ (end_bytes ++ rest) _ _ refl at2 refl (
                      members_read ordinal h.2 refs d items (suc count0 + objects_in assoc) slot
                        (λ ms. v_array assoc (member_count assoc) ms) (suc (member_count ordinal))
                        here (ordinal-Container assoc (suc (member_count ordinal))) no_members
                        (omega arith) (end_bytes ++ rest) o2 size2 (suc fuel)
                        (omega (
                          arith,
                          end-le malloc memory assoc (format_members ordinal (end_bytes ++ rest)),
                          ap length whole,
                        )))))))
      where
        inside : Amf
        inside =
            building refs (suc d) (slot (v_array no_members (member_count assoc) no_members))
              (suc count0) false

        between : Amf
        between =
            building refs (suc d) (slot (v_array assoc (member_count assoc) no_members))
              (suc count0 + objects_in assoc) false

        final : Amf
        final =
            building refs d (slot (v_array assoc len ordinal))
              (count0 + suc (objects_in assoc + objects_in ordinal)) false

        whole :
            format_members assoc (format_members ordinal end_bytes) ++ rest
            ≡ format_members assoc (format_members ordinal (end_bytes ++ rest))
        whole =
            format_members-append assoc (format_members ordinal end_bytes) rest
            ∙ ap (format_members assoc) (format_members-append ordinal end_bytes rest)

    pub members_read :
        (ms : Members)
        → PlainMembers ms
        → (refs d : ℕ) (items : List AmfValue) (count0 : ℕ) (slot : AmfValue → List AmfValue)
          (make : Members → AmfValue) (bound : ℕ)
        → Slot d items slot
        → Container make bound
        → (done : Members) → member_count done + member_count ms ≤ bound
        → (rest : List ℕ) (o size fuel : ℕ) → length (format_members ms rest) < 2 ^ 31
        → Reaches malloc memory
            (read_loop malloc (rounds_in ms + fuel) (
              reading
                (building refs (suc d) (slot (make done)) count0 false)
                (format_members ms rest)
                o
                size))
            fuel
            (building refs (suc d) (slot (make (join done ms))) (count0 + objects_in ms) false)
            rest
            (o + length (format_members ms rest))
    members_read no_members h refs d items count0 slot make bound here container done room rest o
          size fuel small =
        (
          o,
          size,
          refl,
          ap₂ (λ (k : ℕ) a. read_loop malloc k (reading a rest o size)) (omega arith)
              (ap₂ (λ ns (k : ℕ). building refs (suc d) (slot (make ns)) k false)
                (sym (join_empty done)) (omega arith)),
        )
    members_read (member name v ms) h refs d items count0 slot make bound here container done room
          rest o size fuel small =
        starts malloc memory _ _ fuel _ final rest _ _
          (ap
              (λ (k : ℕ). read_loop malloc k (
                reading (building refs (suc d) (slot (make done)) count0 false)
                  (format_members (member name v ms) rest) o size))
              (omega arith)
            ∙ member_round malloc memory refs d items count0 slot make bound here container done
                name (format v ++ format_members ms rest) o size (rounds v + (rounds_in ms + fuel))
                (omega arith) h.0)
          (omega (arith, length-append (name_bytes name) (format v ++ format_members ms rest)))
          (ap₂ (λ ns (k : ℕ). building refs (suc d) (slot (make ns)) k false)
            (join-push_back done name v ms) (omega arith))
          (follows malloc memory _ _ fuel _ final (format_members ms rest) rest _
            (value_read v h.1 refs (suc d) _ count0 true _
              (member-Slot d items slot make bound here container done name (omega arith))
              (is_named malloc memory d) (format_members ms rest) (o + length (name_bytes name))
              (length name) (rounds_in ms + fuel)
              (omega (arith, length-append (name_bytes name) (format v ++ format_members ms rest))))
            (λ o' size' at. starts malloc memory _ _ fuel _ final rest _ _ refl at refl (
              members_read ms h.2 refs d items (count0 + objects v) slot make bound here container
                (push_back done name v) (omega (arith, member_count-push_back done name v)) rest o'
                size' fuel
                (omega (
                  arith,
                  length-append (name_bytes name) (format v ++ format_members ms rest),
                  length-append (format v) (format_members ms rest),
                )))))
      where
        final : Amf
        final =
            building refs (suc d) (slot (make (join (push_back done name v) ms)))
              (count0 + objects v + objects_in ms) false
