-- ===== src/Amf/Read/Ends.antt =====
-- src/amf/amf_object.c: how `amf_read` begins and ends the objects, and names their members.
use lib_open_rtmp.Base.{
  ℕ, suc, ◌+◌, ◌^◌, ◌≤◌, ◌<◌, ◌≡◌, refl, ap, Bool, true, false, not, ◌&&◌, some, List, [], ◌∷◌,
  ◌++◌, arith, ltb, length, lt→ltb, length-append,
}
use lib_open_rtmp.Amf.Kind
use lib_open_rtmp.Amf.Marker
use lib_open_rtmp.Amf.Shorthand.{number}
use lib_open_rtmp.Amf.Decode.{amf0_get_object_end}
use lib_open_rtmp.Amf.Decode.Items.{marker-Decodes}
use lib_open_rtmp.Amf.Format.{name_bytes, end_bytes, format, format_members, name_nonempty}
use lib_open_rtmp.Amf.Value.{
  AmfValue, v_object, v_array, v_empty, Members, no_members, member, member_count, push_back,
}
use lib_open_rtmp.Amf.Value.Vectors.{member_count-push_back, pop_back-push_back}
use lib_open_rtmp.Amf.Builder.{
  pushed, also, opened, amf_push_object_start, amf_push_ecma_start, amf_push_object_end,
  drop_member,
}
use lib_open_rtmp.Amf.Builder.Slots.{Slot, amf_v_get_object-Slot}
use lib_open_rtmp.Amf.Builder.Containers.{Container}
use lib_open_rtmp.Amf.Read.{read_loop, read_round, scan, push, ReadEnd}
use lib_open_rtmp.Amf.Read.Rounds.{building, reading, push_value-Slot, read_name_lem}
use lib_open_rtmp.Amf.Read.Reach.{Reaches, at_item, scalar, follows, starts}

module _ (malloc : ℕ → Bool) (memory : (n : ℕ) → n ≤ 2 ^ 31 → malloc n ≡ true) where
  pub leaf :
      (v : AmfValue) (refs d : ℕ) (items : List AmfValue) (count0 : ℕ) (ready : Bool)
      (slot : AmfValue → List AmfValue) (rest : List ℕ) (o size fuel : ℕ)
      → Reaches malloc memory
          (at_item malloc memory fuel
            (building refs d items count0 ready)
            (format v ++ rest)
            o
            size)
          fuel
          (building refs d (slot v) count0 false)
          rest
          (o + length (format v ++ rest))
      → Reaches malloc memory
          (at_item malloc memory
            (0 + fuel)
            (building refs d items count0 ready)
            (format v ++ rest)
            o
            size)
          fuel
          (building refs d (slot v) (count0 + 0) false)
          rest
          (o + length (format v ++ rest))
  leaf v refs d items count0 ready slot rest o size fuel r =
      starts malloc memory _ _ fuel _ (building refs d (slot v) count0 false) rest _ _
        (ap
          (λ (k : ℕ).
            at_item malloc memory k (building refs d items count0 ready) (format v ++ rest) o size)
          (omega arith))
        refl (ap (λ (k : ℕ). building refs d (slot v) k false) (omega arith)) r

  pub is_named : (d : ℕ) → (ltb 0 (suc d) && not true) ≡ false
  is_named d = either (ltb 0 (suc d))
    where
      either : (b : Bool) → (b && false) ≡ false
      either true = refl
      either false = refl

  -- A round of the loop on a member: its name, and then its value.
  pub member_round :
      (refs d : ℕ) (items : List AmfValue) (count0 : ℕ) (slot : AmfValue → List AmfValue)
      (make : Members → AmfValue) (bound : ℕ)
      → Slot d items slot
      → Container make bound
      → (ms : Members) (name rest : List ℕ) (o size fuel : ℕ) → member_count ms < bound
      → length name < 2 ^ 15
      → read_loop malloc (suc fuel) (
          reading
            (building refs (suc d) (slot (make ms)) count0 false)
            (name_bytes name ++ rest)
            o
            size)
        ≡ at_item malloc memory fuel
            (building refs
              (suc d)
              (slot (make (push_back ms name (v_empty Kind.undefined))))
              count0
              true)
            rest
            (o + length (name_bytes name))
            (length name)
  unfolding read_loop read_round
  member_round refs d items count0 slot make bound here container ms name rest o size fuel room
        short =
      rw
        (
          lt→ltb (name_nonempty name rest),
          read_name_lem malloc memory refs d items count0 slot make bound here container ms name
              rest o size room short,
        )
        refl

  pub object_end_lem :
      (refs d : ℕ) (items : List AmfValue) (count0 : ℕ) (slot : AmfValue → List AmfValue)
      (make : Members → AmfValue) (bound : ℕ)
      → Slot d items slot
      → Container make bound
      → (ms : Members)
      → drop_member (make (push_back ms [] (v_empty Kind.undefined))) ≡ some (make ms)
      → amf_push_object_end (
          building refs
            (suc d)
            (slot (make (push_back ms [] (v_empty Kind.undefined))))
            count0
            true)
        ≡ pushed (building refs d (slot (make ms)) count0 false)
  unfolding amf_push_object_end
  object_end_lem refs d items count0 slot make bound here container ms drops =
      rw
        (
          amf_v_get_object-Slot d items slot here drop_member
              (make (push_back ms [] (v_empty Kind.undefined))) (make ms)
              (container.complex (push_back ms [] (v_empty Kind.undefined))) drops,
          lt→ltb (below d),
        )
        (ap (λ (k : ℕ). pushed (building refs k (slot (make ms)) count0 false)) (omega arith))
    where
      below : (n : ℕ) → 0 < suc n
      below n = omega arith

  -- The end of an object: a name of no bytes, which is dropped again, and the marker.
  pub end_read :
      (refs d : ℕ) (items : List AmfValue) (count0 : ℕ) (slot : AmfValue → List AmfValue)
      (make : Members → AmfValue) (bound : ℕ)
      → Slot d items slot
      → Container make bound
      → (ms : Members)
      → drop_member (make (push_back ms [] (v_empty Kind.undefined))) ≡ some (make ms)
      → member_count ms < bound
      → (rest : List ℕ) (o size fuel : ℕ) → length (end_bytes ++ rest) < 2 ^ 31
      → Reaches malloc memory
          (read_loop malloc (suc fuel) (
            reading
              (building refs (suc d) (slot (make ms)) count0 false)
              (end_bytes ++ rest)
              o
              size))
          fuel
          (building refs d (slot (make ms)) count0 false)
          rest
          (o + length (end_bytes ++ rest))
  unfolding end_bytes name_bytes scan amf0_get_object_end push
  end_read refs d items count0 slot make bound here container ms drops room rest o size fuel small =
      starts malloc memory _ _ fuel _ _ rest _ _
        (member_round refs d items count0 slot make bound here container ms []
          (Marker.object_end ∷ rest) o size fuel room (omega arith))
        (omega arith) refl
        (scalar malloc memory Marker.object_end _ (building refs d (slot (make ms)) count0 false) []
          rest [] (o + length (name_bytes [])) 0 fuel (omega arith)
          (marker-Decodes Marker.object_end (omega arith) rest) (omega arith) refl
          (object_end_lem refs d items count0 slot make bound here container ms drops))

  pub object_start :
      (refs d : ℕ) (items : List AmfValue) (count0 : ℕ) (ready : Bool)
      (slot : AmfValue → List AmfValue)
      → Slot d items slot
      → (ltb 0 d && not ready) ≡ false
      → push malloc Marker.object [] (building refs d items count0 ready)
        ≡ pushed (building refs (suc d) (slot (v_object no_members)) (suc count0) false)
  unfolding push amf_push_object_start
  object_start refs d items count0 ready slot here named =
      ap (also opened)
        (push_value-Slot refs d items count0 ready slot here named (v_object no_members))

  pub array_start :
      (refs d : ℕ) (items : List AmfValue) (count0 : ℕ) (ready : Bool)
      (slot : AmfValue → List AmfValue)
      → Slot d items slot
      → (ltb 0 d && not ready) ≡ false
      → (n : ℕ)
      → push malloc Marker.ecma_array (number n ∷ []) (building refs d items count0 ready)
        ≡ pushed (building refs (suc d) (slot (v_array no_members n no_members)) (suc count0) false)
  unfolding push amf_push_ecma_start
  array_start refs d items count0 ready slot here named n =
      ap (also opened) (
        push_value-Slot refs d items count0 ready slot here named (v_array no_members n no_members))

  -- The end of an object behind its members.
  pub closes :
      (end : ReadEnd) (refs d : ℕ) (items : List AmfValue) (count0 : ℕ)
      (slot : AmfValue → List AmfValue) (make : Members → AmfValue) (bound : ℕ)
      → Slot d items slot
      → Container make bound
      → (ms : Members)
      → drop_member (make (push_back ms [] (v_empty Kind.undefined))) ≡ some (make ms)
      → member_count ms < bound
      → (rest : List ℕ) (fuel sum : ℕ) → length (end_bytes ++ rest) < 2 ^ 31
      → Reaches malloc memory end
          (suc fuel)
          (building refs (suc d) (slot (make ms)) count0 false)
          (end_bytes ++ rest)
          sum
      → Reaches malloc memory end fuel (building refs d (slot (make ms)) count0 false) rest sum
  closes end refs d items count0 slot make bound here container ms drops room rest fuel sum small
        r =
      follows malloc memory end (suc fuel) fuel _ _ (end_bytes ++ rest) rest sum r (λ o size at.
        starts malloc memory _ _ fuel _ _ rest _ _ refl at refl (
          end_read refs d items count0 slot make bound here container ms drops room rest o size fuel
            small))

  pub object_drops :
      (ms : Members)
      → drop_member (v_object (push_back ms [] (v_empty Kind.undefined))) ≡ some (v_object ms)
  unfolding drop_member
  object_drops ms = ap (λ t. some (v_object t)) (pop_back-push_back ms [] (v_empty Kind.undefined))

  pub array_drops :
      (assoc : Members) (len : ℕ) (ms : Members)
      → drop_member (v_array assoc len (push_back ms [] (v_empty Kind.undefined)))
        ≡ some (v_array assoc len ms)
  unfolding drop_member
  array_drops assoc len ms =
      rw
        (
          lt→ltb (some_member (member_count-push_back ms [] (v_empty Kind.undefined))),
          pop_back-push_back ms [] (v_empty Kind.undefined),
        )
        refl
    where
      some_member :
          member_count (push_back ms [] (v_empty Kind.undefined)) ≡ suc (member_count ms)
          → 0 < member_count (push_back ms [] (v_empty Kind.undefined))
      some_member e = omega arith

  pub end-le :
      (ms : Members) (bs : List ℕ) → member_count ms + length bs ≤ length (format_members ms bs)
  unfolding format_members member_count
  end-le no_members bs = omega arith
  end-le (member name v ms) bs = omega (
    arith,
    end-le ms bs,
    name_nonempty name (format v ++ format_members ms bs),
    length-append (name_bytes name) (format v ++ format_members ms bs),
    length-append (format v) (format_members ms bs),
    name_nonempty name [],
    length-append (name_bytes name) [],
  )
