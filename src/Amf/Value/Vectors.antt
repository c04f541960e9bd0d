-- ===== src/Amf/Value/Vectors.antt =====
-- src/amf/amf_object.c: updates of the last value of a vector.
use lib_open_rtmp.Base.{
  ℕ, suc, ◌≡◌, refl, ap, ◌∙◌, Option, none, some, List, [], ◌∷◌, ◌++◌, arith, length,
}
use lib_open_rtmp.Amf.Value.{
  AmfValue, Members, no_members, member, member_count, push_back, pop_back, map_option, edit_back,
  edit_last,
}

abbrev pub and_edit : {A B : Type 0} → Option A → (A → Option B) → Option B
and_edit none f = none
and_edit (some x) f = f x

pub and_edit-map_option :
    {A B C : Type 0} (o : Option A) (f : A → B) (g : B → Option C)
    → and_edit (map_option f o) g ≡ and_edit o (λ x. g (f x))
and_edit-map_option none f g = refl
and_edit-map_option (some x) f g = refl

pub map_option-and_edit :
    {A B C : Type 0} (o : Option A) (g : A → Option B) (f : B → C)
    → map_option f (and_edit o g) ≡ and_edit o (λ x. map_option f (g x))
map_option-and_edit none g f = refl
map_option-and_edit (some x) g f = refl

behind :
    (u : AmfValue) (vs : List AmfValue) (o : Option AmfValue)
    → map_option (λ rest. u ∷ rest) (map_option (λ w. vs ++ w ∷ []) o)
      ≡ map_option (λ w. u ∷ (vs ++ w ∷ [])) o
behind u vs none = refl
behind u vs (some w) = refl

pub member_count-push_back :
    (ms : Members) (name : List ℕ) (v : AmfValue)
    → member_count (push_back ms name v) ≡ suc (member_count ms)
unfolding member_count push_back
member_count-push_back no_members name v = refl
member_count-push_back (member n w ms) name v = ap suc (member_count-push_back ms name v)

pub pop_back-push_back :
    (ms : Members) (name : List ℕ) (v : AmfValue) → pop_back (push_back ms name v) ≡ ms
unfolding pop_back push_back
pop_back-push_back no_members name v = refl
pop_back-push_back (member n w no_members) name v = refl
pop_back-push_back (member n w (member m x ms)) name v =
    ap (λ t. member n w t) (pop_back-push_back (member m x ms) name v)

pub edit_back-push_back :
    (f : AmfValue → Option AmfValue) (ms : Members) (name : List ℕ) (v : AmfValue)
    → edit_back f (push_back ms name v) ≡ map_option (λ w. push_back ms name w) (f v)
unfolding edit_back push_back
edit_back-push_back f no_members name v = refl
edit_back-push_back f (member n w no_members) name v = twice (f v)
  where
    twice :
        (o : Option AmfValue)
        → map_option (λ rest. member n w rest) (map_option (λ x. member name x no_members) o)
          ≡ map_option (λ x. member n w (member name x no_members)) o
    twice none = refl
    twice (some x) = refl
edit_back-push_back f (member n w (member m x ms)) name v =
    ap (map_option (λ rest. member n w rest)) (edit_back-push_back f (member m x ms) name v)
    ∙ twice (f v)
  where
    twice :
        (o : Option AmfValue)
        → map_option
            (λ rest. member n w rest)
            (map_option (λ y. push_back (member m x ms) name y) o)
          ≡ map_option (λ y. push_back (member n w (member m x ms)) name y) o
    twice none = refl
    twice (some y) = refl

pub edit_back_congr :
    (f g : AmfValue → Option AmfValue) (ms : Members)
    → ((v : AmfValue) → f v ≡ g v)
    → edit_back f ms ≡ edit_back g ms
unfolding edit_back
edit_back_congr f g no_members h = refl
edit_back_congr f g (member n w no_members) h = ap (map_option (λ v. member n v no_members)) (h w)
edit_back_congr f g (member n w (member m v ms)) h =
    ap (map_option (λ rest. member n w rest)) (edit_back_congr f g (member m v ms) h)

-- An update leaves the number of members.
unfoldable pub HasCount : ℕ → Option Members → Type 0
unfolding member_count
HasCount n none = Unit
HasCount n (some ms) = member_count ms ≡ n

pub edit_back-HasCount :
    (f : AmfValue → Option AmfValue) (ms : Members) → HasCount (member_count ms) (edit_back f ms)
unfolding HasCount member_count edit_back
edit_back-HasCount f no_members = tt
edit_back-HasCount f (member n w no_members) = one (f w)
  where
    one : (o : Option AmfValue) → HasCount 1 (map_option (λ v. member n v no_members) o)
    one none = tt
    one (some v) = refl
edit_back-HasCount f (member n w (member m v ms)) =
    more (edit_back f (member m v ms)) (edit_back-HasCount f (member m v ms))
  where
    more :
        (o : Option Members)
        → HasCount (suc (member_count ms)) o
        → HasCount (suc (suc (member_count ms))) (map_option (λ rest. member n w rest) o)
    more none h = tt
    more (some ns) h = ap suc h

-- Two updates of the last value are one.
pub edit_back-edit_back :
    (f g : AmfValue → Option AmfValue) (ms : Members)
    → and_edit (edit_back f ms) (edit_back g) ≡ edit_back (λ v. and_edit (f v) g) ms
unfolding edit_back HasCount member_count
edit_back-edit_back f g no_members = refl
edit_back-edit_back f g (member n w no_members) = one (f w)
  where
    one :
        (o : Option AmfValue)
        → and_edit (map_option (λ v. member n v no_members) o) (edit_back g)
          ≡ map_option (λ v. member n v no_members) (and_edit o g)
    one none = refl
    one (some v) = refl
edit_back-edit_back f g (member n w (member m v ms)) =
    more (edit_back f (member m v ms)) (edit_back-HasCount f (member m v ms))
    ∙ ap (map_option (λ rest. member n w rest)) (edit_back-edit_back f g (member m v ms))
  where
    more :
        (o : Option Members)
        → HasCount (suc (member_count ms)) o
        → and_edit (map_option (λ rest. member n w rest) o) (edit_back g)
          ≡ map_option (λ rest. member n w rest) (and_edit o (edit_back g))
    more none h = refl
    more (some no_members) h = absurd (omega (arith, h))
    more (some (member a b ns)) h = refl

pub edit_last-append :
    (f : AmfValue → Option AmfValue) (vs : List AmfValue) (v : AmfValue)
    → edit_last f (vs ++ v ∷ []) ≡ map_option (λ w. vs ++ w ∷ []) (f v)
unfolding edit_last
edit_last-append f [] v = refl
edit_last-append f (u ∷ []) v = behind u [] (f v)
edit_last-append f (u ∷ t ∷ vs) v =
    ap (map_option (λ rest. u ∷ rest)) (edit_last-append f (t ∷ vs) v) ∙ behind u (t ∷ vs) (f v)

pub edit_last_congr :
    (f g : AmfValue → Option AmfValue) (vs : List AmfValue)
    → ((v : AmfValue) → f v ≡ g v)
    → edit_last f vs ≡ edit_last g vs
unfolding edit_last
edit_last_congr f g [] h = refl
edit_last_congr f g (u ∷ []) h = ap (map_option (λ w. w ∷ [])) (h u)
edit_last_congr f g (u ∷ t ∷ vs) h =
    ap (map_option (λ rest. u ∷ rest)) (edit_last_congr f g (t ∷ vs) h)

abbrev Longer : ℕ → Option (List AmfValue) → Type 0
Longer n none = Unit
Longer n (some vs) = length vs ≡ n

edit_last-Longer :
    (f : AmfValue → Option AmfValue) (vs : List AmfValue) → Longer (length vs) (edit_last f vs)
unfolding edit_last
edit_last-Longer f [] = tt
edit_last-Longer f (u ∷ []) = one (f u)
  where
    one : (o : Option AmfValue) → Longer 1 (map_option (λ w. w ∷ []) o)
    one none = tt
    one (some w) = refl
edit_last-Longer f (u ∷ t ∷ vs) = more (edit_last f (t ∷ vs)) (edit_last-Longer f (t ∷ vs))
  where
    more :
        (o : Option (List AmfValue))
        → Longer (suc (length vs)) o
        → Longer (suc (suc (length vs))) (map_option (λ rest. u ∷ rest) o)
    more none h = tt
    more (some ws) h = ap suc h

pub edit_last-edit_last :
    (f g : AmfValue → Option AmfValue) (vs : List AmfValue)
    → and_edit (edit_last f vs) (edit_last g) ≡ edit_last (λ v. and_edit (f v) g) vs
unfolding edit_last
edit_last-edit_last f g [] = refl
edit_last-edit_last f g (u ∷ []) = one (f u)
  where
    one :
        (o : Option AmfValue)
        → and_edit (map_option (λ w. w ∷ []) o) (edit_last g)
          ≡ map_option (λ w. w ∷ []) (and_edit o g)
    one none = refl
    one (some w) = refl
edit_last-edit_last f g (u ∷ t ∷ vs) =
    more (edit_last f (t ∷ vs)) (edit_last-Longer f (t ∷ vs))
    ∙ ap (map_option (λ rest. u ∷ rest)) (edit_last-edit_last f g (t ∷ vs))
  where
    more :
        (o : Option (List AmfValue))
        → Longer (suc (length vs)) o
        → and_edit (map_option (λ rest. u ∷ rest) o) (edit_last g)
          ≡ map_option (λ rest. u ∷ rest) (and_edit o (edit_last g))
    more none h = refl
    more (some []) h = absurd (omega (arith, h))
    more (some (w ∷ ws)) h = refl
