-- ===== src/Amf/Write.antt =====
-- src/amf/amf_object.c: an AMF object as AMF0 data.
pub mod Layout
pub mod Items
pub mod Query
pub mod Integers
use lib_open_rtmp.Base.{
  ℕ, zero, suc, ◌+◌, ◌-◌, ◌^◌, Option, none, some, List, [], ◌∷◌, ◌++◌, u32, ltb, leb, ◌==◌,
  if◌then◌else◌, length, take, drop,
}
use lib_open_rtmp.Amf.{Outcome, complete, fails, beyond, ◌>>=◌, amf_size}
use lib_open_rtmp.Amf.Kind
use lib_open_rtmp.Amf.Value.{
  AmfValue, v_double, v_integer, v_boolean, v_string, v_xml, v_reference, v_date, v_object, v_array,
  v_empty, Members, no_members, member, member_count,
}
use lib_open_rtmp.Amf.Builder.{Amf}
use lib_open_rtmp.Amf.Access.{double_of_int}
use lib_open_rtmp.Amf.Encode.{
  Memory, amf0_write_number, amf0_write_boolean, amf0_write_string, amf0_write_object,
  amf0_write_prop_name, amf0_write_movieclip, amf0_write_null, amf0_write_undefined,
  amf0_write_reference, amf0_write_ecma_array, amf0_write_object_end, amf0_write_date,
  amf0_write_xmldocument, amf0_write_nothing,
}

-- A writer takes the memory from `dest` on, of which `size` bytes are left.
abbrev pub Writer : Type 0
Writer = Memory → Outcome (ℕ × Memory)

abbrev pub advance : ℕ → Memory → Memory
advance n none = none
advance n (some mem) = some (drop n mem)

-- All the memory again, after the part from `n` on was written.
abbrev pub rejoin : ℕ → Memory → Memory → Memory
rejoin n (some mem) (some rest) = some (take n mem ++ rest)
rejoin n mem rest = mem

-- DO, twice: a size that is negative as an `int` is returned at once.
infixr 20 ◌▷◌
abbrev pub ◌▷◌ : Writer → Writer → Writer
(f ▷ g) mem = f mem >>= λ (n, once).
    if leb (2 ^ 31) n
    then complete (n, once)
    else g (advance n once) >>= λ (m, rest). complete (u32 (n + m), rejoin n once rest)

-- The end of an object or an array.
abbrev pub write_end : Writer
unfolding amf0_write_prop_name amf0_write_object_end
write_end = (λ mem. amf0_write_prop_name mem []) ▷ amf0_write_object_end

-- The `default` of the switch writes nothing.
unfoldable pub write_empty : ℕ → Writer
unfolding amf0_write_nothing amf0_write_movieclip amf0_write_null amf0_write_undefined
write_empty type mem =
    if type == Kind.null
    then amf0_write_null mem
    else if type == Kind.undefined
    then amf0_write_undefined mem
    else if type == Kind.movieclip
    then amf0_write_movieclip mem
    else amf0_write_nothing mem

unfoldable mutual
  unfolding amf0_write_number amf0_write_boolean amf0_write_string amf0_write_object
      amf0_write_reference amf0_write_ecma_array amf0_write_date amf0_write_xmldocument write_empty
      member_count double_of_int amf0_write_prop_name amf0_write_object_end

  pub amf_write_value : AmfValue → Writer
  amf_write_value (v_double n) mem = amf0_write_number mem n
  amf_write_value (v_integer n) mem = amf0_write_number mem (double_of_int n)
  amf_write_value (v_boolean b) mem = amf0_write_boolean mem b
  amf_write_value (v_string s) mem = amf0_write_string mem s
  amf_write_value (v_xml s) mem = amf0_write_xmldocument mem s
  amf_write_value (v_reference n r) mem = amf0_write_reference mem (u32 n)
  amf_write_value (v_date t z) mem = amf0_write_date mem z t
  amf_write_value (v_object ms) mem = (amf0_write_object ▷ write_members ms write_end) mem
  amf_write_value (v_array assoc len ordinal) mem =
      ((λ m. amf0_write_ecma_array m (member_count assoc))
          ▷ write_members assoc (write_members ordinal write_end))
        mem
  amf_write_value (v_empty type) mem = write_empty type mem

  -- The loop over the members, and what comes after it.
  pub write_members : Members → Writer → Writer
  write_members no_members next mem = next mem
  write_members (member name v ms) next mem =
      ((λ m. amf0_write_prop_name m name) ▷ amf_write_value v ▷ write_members ms next) mem

-- The items written until one fails: the memory, the total length, and the number of them. What
-- an item that fails leaves behind the others is not kept.
abbrev pub item_written :
    (Memory → Memory × ℕ × ℕ) → Memory → ℕ → Outcome (ℕ × Memory) → Memory × ℕ × ℕ
item_written next mem i (complete (n, once)) =
    if leb (2 ^ 31) n
    then (mem, 0, i)
    else (let (rest, total, j) = next (advance n once) in (rejoin n once rest, n + total, j))
item_written next mem i (fails e) = (mem, 0, i)
item_written next mem i beyond = (mem, 0, i)

unfoldable pub write_items : List AmfValue → Memory → ℕ → Memory × ℕ × ℕ
unfolding amf_write_value
write_items [] mem i = (mem, 0, i)
write_items (v ∷ vs) mem i =
    item_written (λ m. write_items vs m (suc i)) mem i (amf_write_value v mem)

-- The size returned, the number of items that were written, and the memory.
unfoldable pub amf_write : Amf → Memory → ℕ × ℕ × Memory
unfolding write_items
amf_write amf mem =
    let (written, total, i) = write_items amf.items mem 0 in (amf_size total, i, written)
