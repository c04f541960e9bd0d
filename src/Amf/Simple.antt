-- ===== src/Amf/Simple.antt =====
-- src/amf/amf_object.c: `amf_push_simple_list`, an AMF object from a list of arguments.
use lib_open_rtmp.Base.{
  ℕ, zero, suc, ◌-◌, ◌^◌, Bool, true, false, ◌||◌, Option, none, some, List, ◌∷◌, ◌==◌,
  if◌then◌else◌, length,
}
use lib_open_rtmp.Amf.{invalid_data}
use lib_open_rtmp.Amf.Kind
use lib_open_rtmp.Amf.Builder.{
  Amf, Pushed, pushed, refused, crashed, and_then, own, amf_push_double, amf_push_integer,
  amf_push_boolean, amf_push_null, amf_push_undefined, amf_push_unsupported, amf_push_string,
  amf_push_string_alloc, amf_push_object_start, amf_push_ecma_start, amf_push_member,
  amf_push_object_end, amf_push_assoc_end,
}

-- The arguments of a call, one after the other; a string may be null.
pub data Arg : Type 0 where
  int : ℕ → Arg
  double : ℕ → Arg
  string : Option (List ℕ) → Arg

abbrev pub filled_buffer : List ℕ → Amf → Amf
filled_buffer s amf = record amf { allocation = some s }

module _ (malloc : ℕ → Bool) where
  unfoldable pub amf_push_simple_list_memb : Option (List ℕ) → Amf → Pushed
  unfolding amf_push_string_alloc amf_push_member
  amf_push_simple_list_memb none amf = pushed amf
  amf_push_simple_list_memb (some name) amf =
      and_then (amf_push_string_alloc malloc (length name) amf)
        (λ a. amf_push_member malloc own (filled_buffer name a))

  abbrev push_text : List ℕ → Amf → Pushed
  unfolding amf_push_string_alloc amf_push_string
  push_text s amf =
      and_then (amf_push_string_alloc malloc (length s) amf)
        (λ a. amf_push_string malloc own (filled_buffer s a))

  -- The result of pushing the name is not looked at.
  unfoldable pub amf_push_simple_list_str : Option (List ℕ) → List ℕ → Amf → Pushed
  unfolding amf_push_simple_list_memb amf_push_string_alloc amf_push_string
  amf_push_simple_list_str name value amf = elim (amf_push_simple_list_memb name amf) [
    | pushed a ↦ push_text value a
    | refused e a ↦ push_text value a
    | crashed ↦ crashed
  ]

  unfoldable pub amf_push_simple_list_bool : Option (List ℕ) → ℕ → Amf → Pushed
  unfolding amf_push_simple_list_memb amf_push_boolean
  amf_push_simple_list_bool name value amf =
      and_then (amf_push_simple_list_memb name amf) (amf_push_boolean value)

  unfoldable pub amf_push_simple_list_dbl : Option (List ℕ) → ℕ → Amf → Pushed
  unfolding amf_push_simple_list_memb amf_push_double
  amf_push_simple_list_dbl name value amf =
      and_then (amf_push_simple_list_memb name amf) (amf_push_double value)

  unfoldable pub amf_push_simple_list_int : Option (List ℕ) → ℕ → Amf → Pushed
  unfolding amf_push_simple_list_memb amf_push_integer
  amf_push_simple_list_int name value amf =
      and_then (amf_push_simple_list_memb name amf) (amf_push_integer value)

  unfoldable pub amf_push_simple_list_null : Option (List ℕ) → Amf → Pushed
  unfolding amf_push_simple_list_memb amf_push_null
  amf_push_simple_list_null name amf = and_then (amf_push_simple_list_memb name amf) amf_push_null

  unfoldable pub amf_push_simple_list_start_obj : Option (List ℕ) → Amf → Pushed
  unfolding amf_push_simple_list_memb amf_push_object_start
  amf_push_simple_list_start_obj name amf =
      and_then (amf_push_simple_list_memb name amf) amf_push_object_start

  unfoldable pub amf_push_simple_list_start_arr : Option (List ℕ) → Amf → Pushed
  unfolding amf_push_simple_list_memb amf_push_ecma_start
  amf_push_simple_list_start_arr name amf =
      and_then (amf_push_simple_list_memb name amf) (amf_push_ecma_start (2 ^ 32 - 1))

  unfoldable pub amf_push_simple_list_end : Option (List ℕ) → Amf → Pushed
  unfolding amf_push_simple_list_memb amf_push_object_end
  amf_push_simple_list_end name amf =
      and_then (amf_push_simple_list_memb name amf) amf_push_object_end

  -- One entry of the list with its name: what comes after it, and the push. `none` is an argument
  -- that is missing or of another type.
  unfoldable pub push_entry : ℕ → Option (List ℕ) → List Arg → Amf → Option (List Arg × Pushed)
  unfolding amf_push_simple_list_str amf_push_simple_list_bool amf_push_simple_list_dbl
      amf_push_simple_list_int amf_push_simple_list_null amf_push_simple_list_start_obj
      amf_push_simple_list_start_arr amf_push_simple_list_end amf_push_undefined
      amf_push_unsupported amf_push_assoc_end
  push_entry arg name list amf =
      if arg == Kind.boolean
      then with_int (λ b. amf_push_simple_list_bool name b amf) list
      else if arg == Kind.string
      then with_text (λ s. amf_push_simple_list_str name s amf) list
      else if arg == Kind.double
      then with_double (λ d. amf_push_simple_list_dbl name d amf) list
      else if arg == Kind.integer
      then with_int (λ n. amf_push_simple_list_int name n amf) list
      else some (
        list,
        if arg == Kind.null
            then amf_push_simple_list_null name amf
            else if arg == Kind.undefined
            then amf_push_undefined amf
            else if arg == Kind.unsupported
            then amf_push_unsupported amf
            else if arg == Kind.object
            then amf_push_simple_list_start_obj name amf
            else if arg == Kind.array
            then amf_push_simple_list_start_arr name amf
            else if arg == Kind.ecma_array_assoc_end
            then amf_push_assoc_end amf
            else if arg == Kind.object_end
            then amf_push_simple_list_end name amf
            else refused invalid_data amf,
      )
    where
      with_int : (ℕ → Pushed) → List Arg → Option (List Arg × Pushed)
      with_int f (int n ∷ rest) = some (rest, f n)
      with_int f other = none

      with_double : (ℕ → Pushed) → List Arg → Option (List Arg × Pushed)
      with_double f (double d ∷ rest) = some (rest, f d)
      with_double f other = none

      with_text : (List ℕ → Pushed) → List Arg → Option (List Arg × Pushed)
      with_text f (string (some s) ∷ rest) = some (rest, f s)
      with_text f other = none

  -- The depth is below 0 after one object too many was ended.
  abbrev pub new_depth : ℕ → ℕ → Option ℕ
  new_depth arg depth =
      if arg == Kind.object || arg == Kind.array
      then some (suc depth)
      else if arg == Kind.object_end
      then (if depth == 0 then none else some (depth - 1))
      else some depth

  -- The name of an entry and the arguments after it: at depth 0 the null has one, which is not
  -- used.
  unfoldable pub entry_name : ℕ → ℕ → List Arg → Option (Option (List ℕ) × List Arg)
  entry_name arg zero list = if arg == Kind.null then after_name list else some (none, list)
    where
      after_name : List Arg → Option (Option (List ℕ) × List Arg)
      after_name (string s ∷ rest) = some (none, rest)
      after_name other = none
  entry_name arg (suc depth) (string s ∷ rest) = some (s, rest)
  entry_name arg (suc depth) other = none

  -- What the call returns; `ret` is none when nothing has been stored in it. Undefined behaviour
  -- is `crashed`.
  abbrev pub finished : Bool → Amf → Option Pushed
  finished stored amf = if stored then some (pushed amf) else none

  -- The loop, on the arguments; it takes one from the list in each round.
  unfoldable pub push_loop : ℕ → Bool → Option ℕ → List Arg → Amf → Option Pushed
  unfolding entry_name push_entry
  push_loop zero stored depth list amf = some crashed
  push_loop (suc fuel) stored depth (int arg ∷ list) amf =
      if arg == Kind.absent then finished stored amf else elim depth [
        | none ↦ some crashed
        | some d ↦ elim (entry_name arg d list) [
          | none ↦ some crashed
          | some (name, rest) ↦ elim (push_entry arg name rest amf) [
            | none ↦ some crashed
            | some (others, pushed a) ↦ push_loop fuel true (new_depth arg d) others a
            | some (others, refused e a) ↦ some (refused e a)
            | some (others, crashed) ↦ some crashed
          ]
        ]
      ]
  push_loop (suc fuel) stored depth other amf = some crashed

  -- `none` is a result that was never stored.
  unfoldable pub amf_push_simple_list : List Arg → Amf → Option Pushed
  unfolding push_loop
  amf_push_simple_list list amf = push_loop (suc (length list)) false (some 0) list amf
