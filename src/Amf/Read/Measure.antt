-- ===== src/Amf/Read/Measure.antt =====
-- src/amf/amf_object.c: how much of a value `amf_read` reads in a round, and vectors put together.
use lib_open_rtmp.Base.{ℕ, suc, ◌+◌, ◌≡◌, refl, ap, ◌∙◌, List, ◌++◌, append_assoc}
use lib_open_rtmp.Amf.Format.{name_bytes, format, format_members}
use lib_open_rtmp.Amf.Value.{AmfValue, v_object, v_array, Members, no_members, member, push_back}

-- How many objects and arrays a value holds, and how many rounds the loop takes after the one that
-- reads the value's marker.
unfoldable mutual
  pub objects : AmfValue → ℕ
  objects (v_object ms) = suc (objects_in ms)
  objects (v_array assoc len ordinal) = suc (objects_in assoc + objects_in ordinal)
  objects _ = 0

  pub objects_in : Members → ℕ
  objects_in no_members = 0
  objects_in (member name v ms) = objects v + objects_in ms

unfoldable mutual
  pub rounds : AmfValue → ℕ
  rounds (v_object ms) = suc (rounds_in ms)
  rounds (v_array assoc len ordinal) = rounds_in assoc + suc (rounds_in ordinal)
  rounds _ = 0

  pub rounds_in : Members → ℕ
  rounds_in no_members = 0
  rounds_in (member name v ms) = suc (rounds v + rounds_in ms)

-- One vector behind the other.
unfoldable pub join : Members → Members → Members
join no_members ns = ns
join (member name v ms) ns = member name v (join ms ns)

pub join-push_back :
    (ms : Members) (name : List ℕ) (v : AmfValue) (ns : Members)
    → join (push_back ms name v) ns ≡ join ms (member name v ns)
unfolding join push_back
join-push_back no_members name v ns = refl
join-push_back (member m w ms) name v ns = ap (λ t. member m w t) (join-push_back ms name v ns)

pub join_empty : (ms : Members) → join ms no_members ≡ ms
unfolding join
join_empty no_members = refl
join_empty (member m w ms) = ap (λ t. member m w t) (join_empty ms)

pub format_members-append :
    (ms : Members) (bs rest : List ℕ)
    → format_members ms bs ++ rest ≡ format_members ms (bs ++ rest)
unfolding format_members
format_members-append no_members bs rest = refl
format_members-append (member name v ms) bs rest =
    append_assoc (name_bytes name) (format v ++ format_members ms bs) rest
    ∙ ap (λ t. name_bytes name ++ t)
        (append_assoc (format v) (format_members ms bs) rest
          ∙ ap (λ t. format v ++ t) (format_members-append ms bs rest))
