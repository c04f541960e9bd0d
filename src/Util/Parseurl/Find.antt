-- ===== src/Util/Parseurl/Find.antt =====
-- src/util/parseurl.c: what `strpbrk` finds in a text whose front avoids the set.
use lib_open_rtmp.Base.{
  ℕ, Bool, true, false, not, ◌&&◌, ◌||◌, none, some, List, [], ◌∷◌, ◌++◌, ◌≡◌, refl, ◌==◌, arith,
}
use lib_open_rtmp.Util.Parseurl.{
  is_digit, is_alpha, is_alnum, colon, slash, question, hash, at_sign, is_among, strpbrk,
  verify_scheme, scheme_loop, parseurl_scheme,
}
use lib_open_rtmp.Util.Parseurl.Parser.{all_digits}

-- None of the bytes is in the set.
unfoldable pub avoids : List ℕ → List ℕ → Bool
avoids set [] = true
avoids set (c ∷ cs) = not (is_among c set) && avoids set cs

pub and_parts : (a b : Bool) → (a && b) ≡ true → (a ≡ true) × (b ≡ true)
and_parts true b h = (refl, h)
and_parts false b h = cc

not_parts : (a : Bool) → not a ≡ true → a ≡ false
not_parts true h = cc
not_parts false h = refl

avoids_parts :
    (set : List ℕ) (c : ℕ) (cs : List ℕ)
    → avoids set (c ∷ cs) ≡ true
    → (is_among c set ≡ false) × (avoids set cs ≡ true)
unfolding avoids
avoids_parts set c cs h =
    let both = and_parts (not (is_among c set)) (avoids set cs) h in
    (not_parts (is_among c set) both.0, both.1)

pub strpbrk-append :
    (set xs : List ℕ) (c : ℕ) (ys : List ℕ)
    → avoids set xs ≡ true
    → is_among c set ≡ true
    → strpbrk (xs ++ (c ∷ ys)) set ≡ some (xs, c ∷ ys)
unfolding strpbrk
strpbrk-append set [] c ys h e = rw e
strpbrk-append set (x ∷ xs) c ys h e =
    rw (avoids_parts set x xs h).0 (rw (strpbrk-append set xs c ys (avoids_parts set x xs h).1 e))

pub strpbrk-eq-none : (set xs : List ℕ) → avoids set xs ≡ true → strpbrk xs set ≡ none
unfolding strpbrk
strpbrk-eq-none set [] h = refl
strpbrk-eq-none set (x ∷ xs) h =
    rw (avoids_parts set x xs h).0 (rw (strpbrk-eq-none set xs (avoids_parts set x xs h).1))

pub avoids-append :
    (set xs ys : List ℕ)
    → avoids set xs ≡ true
    → avoids set ys ≡ true
    → avoids set (xs ++ ys) ≡ true
unfolding avoids
avoids-append set [] ys h k = k
avoids-append set (x ∷ xs) ys h k =
    rw (avoids_parts set x xs h).0 (avoids-append set xs ys (avoids_parts set x xs h).1 k)

-- What avoids a set avoids every smaller one.
pub avoids_smaller :
    (big small xs : List ℕ)
    → ((c : ℕ) → is_among c big ≡ false → is_among c small ≡ false)
    → avoids big xs ≡ true
    → avoids small xs ≡ true
unfolding avoids
avoids_smaller big small [] sub h = refl
avoids_smaller big small (x ∷ xs) sub h =
    rw (sub x (avoids_parts big x xs h).0)
      (avoids_smaller big small xs sub (avoids_parts big x xs h).1)

abbrev pub marks : List ℕ
marks = colon ∷ at_sign ∷ slash ∷ question ∷ hash ∷ []

is_digit-marks : (c : ℕ) → is_digit c ≡ true → is_among c marks ≡ false
unfolding is_among
is_digit-marks c h = ground arith

pub all_digits-avoids : (ds : List ℕ) → all_digits ds ≡ true → avoids marks ds ≡ true
unfolding all_digits avoids
all_digits-avoids [] h = refl
all_digits-avoids (d ∷ ds) h =
    let both = and_parts (is_digit d) (all_digits ds) h in
    rw (is_digit-marks d both.0) (all_digits-avoids ds both.1)

-- The characters of a scheme behind the first.
abbrev pub scheme_char : ℕ → Bool
scheme_char c = is_alnum c || c == 43 || c == 46 || c == 45

unfoldable pub all_scheme_chars : List ℕ → Bool
all_scheme_chars [] = true
all_scheme_chars (c ∷ cs) = scheme_char c && all_scheme_chars cs

scheme_char-colon : (c : ℕ) → scheme_char c ≡ true → (c == colon) ≡ false
scheme_char-colon c h = ground arith

scheme_loop-append :
    (cs rest : List ℕ)
    → all_scheme_chars cs ≡ true
    → verify_scheme true rest ≡ true
    → scheme_loop (cs ++ (colon ∷ rest)) ≡ some (cs, rest)
unfolding all_scheme_chars scheme_loop
scheme_loop-append [] rest h v = rw v
scheme_loop-append (c ∷ cs) rest h v =
    let both = and_parts (scheme_char c) (all_scheme_chars cs) h in
    rw (scheme_char-colon c both.0, both.0, scheme_loop-append cs rest both.1 v)

pub parseurl_scheme-append :
    (c : ℕ) (cs rest : List ℕ)
    → is_alpha c ≡ true
    → all_scheme_chars cs ≡ true
    → verify_scheme true rest ≡ true
    → parseurl_scheme (c ∷ (cs ++ (colon ∷ rest))) ≡ some (c ∷ cs, rest)
unfolding parseurl_scheme
parseurl_scheme-append c cs rest a h v = rw a (rw (scheme_loop-append cs rest h v))
