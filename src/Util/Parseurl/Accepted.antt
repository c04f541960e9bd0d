-- ===== src/Util/Parseurl/Accepted.antt =====
-- src/util/parseurl.c: what `parseurl_parse` promises of a URL that it accepts.
use lib_open_rtmp.Base.{
  ℕ, ◌+◌, Bool, true, false, ◌||◌, Option, none, some, List, [], ◌∷◌, ◌≡◌, refl, length, Bool-cases,
  inl, inr,
}
use lib_open_rtmp.Util.Parseurl.{parseurl_scheme, has_authority}
use lib_open_rtmp.Util.Parseurl.RoundTrip.{or_parts}
use lib_open_rtmp.Util.Parseurl.Held.{Stable, parse_authority_keeps, parse_path_keeps}
use lib_open_rtmp.Util.Parseurl.Parser.{
  Part, unset, owned, borrowed, freed, Parser, free_part, PartId, is_strict, is_forgiving, pointee,
  is_freed, is_null, is_blank, digits, verify_parts, verify, parse_path, parse_authority,
  behind_authority, behind_scheme, scheme_cases, space_cases, parse_text, handle_space,
  free_allocated, parseurl_parse,
}

-- The pointer leads to a text.
abbrev pub HasText : Part → Type 0
HasText x = (t : List ℕ) × (pointee x ≡ some t)

-- A scheme and a path, a port of digits or none, and no user or one that is not empty; none of these
-- was freed, and no text of the URL is kept.
pub record IsAccepted (p : Parser) : Type 0 where
  pub scheme : HasText p.scheme
  pub path : HasText p.path
  pub port : digits p.port ≡ some true
  pub user : is_freed p.user ≡ false
  pub has_name : is_blank (pointee p.user) ≡ false
  pub url : p.url ≡ none

-- What is accepted.
abbrev pub Accepts : Option (Bool × Parser) → Type 0
Accepts none = Unit {0}
Accepts (some (false, p)) = Unit {0}
Accepts (some (true, p)) = IsAccepted p

-- The scheme and the path were not freed.
abbrev pub Placed : Parser → Type 0
Placed p = (is_freed p.scheme ≡ false) × (is_freed p.path ≡ false)

Placed-Stable : Stable Placed
Placed-Stable = record {
  user = λ p t h. h;
  password = λ p t h. h;
  host = λ p t h. h;
  port = λ p t h. h;
  path = λ p t h. (h.0, refl);
  query = λ p t h. h;
  fragment = λ p t h. h;
}

unfreed-HasText : (x : Part) → is_freed x ≡ false → is_null x ≡ false → HasText x
unfreed-HasText unset f n = cc
unfreed-HasText (owned t) f n = (t, refl)
unfreed-HasText (borrowed t) f n = (t, refl)
unfreed-HasText freed f n = cc

-- The checks at the end, in front of the port.
record Checked (p : Parser) : Type 0 where
  user : is_freed p.user ≡ false
  has_name : is_blank (pointee p.user) ≡ false
  url : p.url ≡ none

port_cases :
    (p : Parser)
    → Checked p
    → HasText p.scheme
    → HasText p.path
    → (o : Option Bool) → digits p.port ≡ o
    → Accepts (elim o [ none ↦ none | some valid ↦ some (valid, p) ])
port_cases p c s q none e = tt
port_cases p c s q (some false) e = tt
port_cases p c s q (some true) e = record {
  scheme = s;
  path = q;
  port = e;
  user = c.user;
  has_name = c.has_name;
  url = c.url;
}

verify_parts-Accepts : (p : Parser) → Placed p → Checked p → Accepts (verify_parts p)
unfolding verify_parts
verify_parts-Accepts p placed c = elim (Bool-cases (is_null p.scheme || is_null p.path)) [
  | inl missing ↦ rw missing tt
  | inr there ↦
      let set = or_parts (is_null p.scheme) (is_null p.path) there in
      rw there (
        port_cases p c (unfreed-HasText p.scheme placed.0 set.0)
          (unfreed-HasText p.path placed.1 set.1) (digits p.port) refl)
]

verify-Accepts :
    (clear : Bool) (enforce : PartId) (p : Parser) → Placed p → Accepts (verify clear enforce p)
unfolding verify
verify-Accepts true enforce p placed = tt
verify-Accepts false enforce p placed = elim (Bool-cases (is_freed p.user)) [
  | inl f ↦ rw f tt
  | inr f ↦ rw f (elim (Bool-cases (is_blank (pointee p.user))) [
    | inl b ↦ rw b (elim (Bool-cases (is_strict enforce)) [
      | inl s ↦ rw s tt
      | inr s ↦ rw s (
          verify_parts-Accepts (record p { user = unset; password = unset; url = none }) placed
            (record { user = refl; has_name = refl; url = refl }))
    ])
    | inr b ↦ rw b (
        verify_parts-Accepts (record p { url = none }) placed
          (record { user = f; has_name = b; url = refl }))
  ])
]

behind_authority-Accepts :
    (enforce : PartId) (found : Parser × Option (List ℕ))
    → Placed found.0
    → Accepts (behind_authority enforce found)
unfolding behind_authority
behind_authority-Accepts enforce (p, none) placed = verify-Accepts true enforce p placed
behind_authority-Accepts enforce (p, some []) placed = verify-Accepts false enforce p placed
behind_authority-Accepts enforce (p, some (c ∷ cs)) placed =
    verify-Accepts false enforce (parse_path p (c ∷ cs))
      (parse_path_keeps Placed Placed-Stable p (c ∷ cs) placed)

authority-Accepts :
    (enforce : PartId) (p : Parser) (buf : List ℕ)
    → Placed p
    → Accepts (behind_authority enforce (parse_authority enforce p buf))
authority-Accepts enforce p buf placed =
    behind_authority-Accepts enforce (parse_authority enforce p buf)
      (parse_authority_keeps Placed Placed-Stable enforce p buf placed)

behind_scheme-Accepts :
    (enforce : PartId) (p : Parser) (rest : List ℕ)
    → Placed p
    → Accepts (behind_scheme enforce p rest)
unfolding behind_scheme
behind_scheme-Accepts enforce p rest placed = elim (Bool-cases (has_authority rest)) [
  | inl a ↦ rw a (authority-Accepts enforce p rest placed)
  | inr a ↦ rw a (
      verify-Accepts false enforce (parse_path p rest)
        (parse_path_keeps Placed Placed-Stable p rest placed))
]

scheme_cases-Accepts :
    (enforce : PartId) (p : Parser) (buf : List ℕ) (o : Option (List ℕ × List ℕ))
    → Placed p
    → Accepts (scheme_cases enforce p buf o)
unfolding scheme_cases
scheme_cases-Accepts enforce p buf none placed = elim (Bool-cases (is_forgiving enforce)) [
  | inl f ↦ rw f (authority-Accepts enforce p buf placed)
  | inr f ↦ rw f (verify-Accepts true enforce p placed)
]
scheme_cases-Accepts enforce p buf (some (scheme, rest)) placed =
    behind_scheme-Accepts enforce (record p { scheme = owned scheme }) rest (refl, placed.1)

space_cases-Accepts :
    (enforce : PartId) (p : Parser) (o : Option (Bool × List ℕ))
    → Placed p
    → Accepts (space_cases enforce p o)
unfolding space_cases parse_text
space_cases-Accepts enforce p none placed = tt
space_cases-Accepts enforce p (some (false, buf)) placed = verify-Accepts true enforce p placed
space_cases-Accepts enforce p (some (true, buf)) placed =
    scheme_cases-Accepts enforce p buf (parseurl_scheme buf) placed

-- A parser whose scheme and path are neither in its own block nor freed, as a new one's, accepts a
-- URL, whatever the text and the way to parse it, only when afterwards the scheme and the path lead
-- to texts, there is no port or it is digits, and there is no user or one that was not freed and is
-- not empty; the text that was built before is then forgotten.
pub parseurl_parse-Accepts :
    (room : ℕ → Bool) (p : Parser) (url : Option (List ℕ)) (enforce : PartId)
    → is_freed (free_part p.scheme) ≡ false
    → is_freed (free_part p.path) ≡ false
    → Accepts (parseurl_parse room p url enforce)
unfolding parseurl_parse free_allocated
parseurl_parse-Accepts room p none enforce s q = tt
parseurl_parse-Accepts room p (some url) enforce s q = elim (Bool-cases (room (3 + length url))) [
  | inl r ↦ rw r (space_cases-Accepts enforce (free_allocated p) (handle_space enforce url) (s, q))
  | inr r ↦ rw r tt
]
