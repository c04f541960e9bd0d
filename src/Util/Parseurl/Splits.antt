-- ===== src/Util/Parseurl/Splits.antt =====
-- src/util/parseurl.c: the parts that are found, put together, are the URL.
use lib_open_rtmp.Base.{
  ℕ, true, Option, none, some, List, [], ◌∷◌, ◌++◌, ◌≡◌, refl, ap, ◌==◌, ◌||◌, inl, inr, Bool-cases,
  ==→eq,
}
use lib_open_rtmp.Util.Parseurl.{
  is_alpha, is_alnum, colon, is_among, strpbrk, verify_scheme, scheme_loop, parseurl_scheme,
}

-- The URL is the part that was found, what stands between, and the rest.
unfoldable pub Splits : List ℕ → List ℕ → Option (List ℕ × List ℕ) → Type 0
Splits between url none = Unit
Splits between url (some (front, rest)) = url ≡ front ++ (between ++ rest)

cons-Splits :
    (between : List ℕ) (c : ℕ) (cs : List ℕ) (o : Option (List ℕ × List ℕ))
    → Splits between cs o
    → Splits between (c ∷ cs) (elim o [ none ↦ none | some (front, rest) ↦ some (c ∷ front, rest) ])
unfolding Splits
cons-Splits between c cs none h = tt
cons-Splits between c cs (some (front, rest)) h = ap (λ t. c ∷ t) h

pub strpbrk-Splits : (url set : List ℕ) → Splits [] url (strpbrk url set)
unfolding strpbrk Splits
strpbrk-Splits [] set = tt
strpbrk-Splits (c ∷ cs) set = elim (Bool-cases (is_among c set)) [
  | inl e ↦ rw e refl
  | inr e ↦ rw e (cons-Splits [] c cs (strpbrk cs set) (strpbrk-Splits cs set))
]

scheme_loop-Splits : (url : List ℕ) → Splits (colon ∷ []) url (scheme_loop url)
unfolding scheme_loop Splits
scheme_loop-Splits [] = tt
scheme_loop-Splits (c ∷ cs) = elim (Bool-cases (c == colon)) [
  | inl e ↦ rw e (elim (Bool-cases (verify_scheme true cs)) [
    | inl v ↦ rw v (ap (λ (d : ℕ). d ∷ cs) (==→eq e))
    | inr v ↦ rw v tt
  ])
  | inr e ↦ rw e (elim (Bool-cases (is_alnum c || c == 43 || c == 46 || c == 45)) [
    | inl v ↦ rw v (cons-Splits (colon ∷ []) c cs (scheme_loop cs) (scheme_loop-Splits cs))
    | inr v ↦ rw v tt
  ])
]

-- A scheme that is found, a colon, and the rest of the URL are the URL.
pub parseurl_scheme-Splits : (url : List ℕ) → Splits (colon ∷ []) url (parseurl_scheme url)
unfolding parseurl_scheme Splits
parseurl_scheme-Splits [] = tt
parseurl_scheme-Splits (c ∷ cs) = elim (Bool-cases (is_alpha c)) [
  | inl e ↦ rw e (cons-Splits (colon ∷ []) c cs (scheme_loop cs) (scheme_loop-Splits cs))
  | inr e ↦ rw e tt
]
