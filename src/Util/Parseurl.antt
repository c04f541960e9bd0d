-- ===== src/Util/Parseurl.antt =====
-- src/util/parseurl.c: the functions that find the parts of a URL. A string is the list of its bytes
-- without the final 0; a byte that is set to 0 ends one string and starts the next behind it.
pub mod Splits
pub mod Parser
pub mod Text
pub mod Find
pub mod Proper
pub mod Authority
pub mod Pieces
pub mod RoundTrip
pub mod Accepted
pub mod Held
pub mod Defined
pub mod Update
pub mod Stale
pub mod Bounds
use lib_open_rtmp.Base.{
  ℕ, Bool, true, false, ◌&&◌, ◌||◌, Option, none, some, List, [], ◌∷◌, ◌++◌, leb, ◌==◌,
  if◌then◌else◌,
}

-- `isdigit`, `isalpha` and `isalnum` in the C locale.
abbrev pub is_digit : ℕ → Bool
is_digit c = leb 48 c && leb c 57

abbrev pub is_alpha : ℕ → Bool
is_alpha c = leb 65 c && leb c 90 || leb 97 c && leb c 122

abbrev pub is_alnum : ℕ → Bool
is_alnum c = is_digit c || is_alpha c

abbrev pub colon : ℕ
colon = 58

abbrev pub slash : ℕ
slash = 47

abbrev pub question : ℕ
question = 63

abbrev pub hash : ℕ
hash = 35

abbrev pub at_sign : ℕ
at_sign = 64

unfoldable pub is_among : ℕ → List ℕ → Bool
is_among c [] = false
is_among c (d ∷ ds) = c == d || is_among c ds

-- `strpbrk`: the part in front of the first byte of the set, and the string from that byte on.
unfoldable pub strpbrk : List ℕ → List ℕ → Option (List ℕ × List ℕ)
unfolding is_among
strpbrk [] set = none
strpbrk (c ∷ cs) set =
    let rest = strpbrk cs set in
    if is_among c set
    then some ([], c ∷ cs)
    else elim rest [ none ↦ none | some (front, found) ↦ some (c ∷ front, found) ]

-- The flag is the variable `ret`.
unfoldable pub verify_scheme : Bool → List ℕ → Bool
verify_scheme ret [] = ret
verify_scheme ret (c ∷ cs) =
    let rest = verify_scheme false cs in
    if is_digit c then rest else if c == slash then ret else true

-- The loop over the characters of a scheme, behind the first.
unfoldable pub scheme_loop : List ℕ → Option (List ℕ × List ℕ)
unfolding verify_scheme
scheme_loop [] = none
scheme_loop (c ∷ cs) =
    let rest = scheme_loop cs in
    if c == colon
    then if verify_scheme true cs then some ([], cs) else none
    else if is_alnum c || c == 43 || c == 46 || c == 45
    then elim rest [ none ↦ none | some (scheme, url) ↦ some (c ∷ scheme, url) ]
    else none

-- The scheme and the rest behind its colon.
unfoldable pub parseurl_scheme : List ℕ → Option (List ℕ × List ℕ)
unfolding scheme_loop
parseurl_scheme [] = none
parseurl_scheme (c ∷ cs) =
    if is_alpha c
    then elim (scheme_loop cs) [ none ↦ none | some (scheme, url) ↦ some (c ∷ scheme, url) ]
    else none

unfoldable pub has_authority : List ℕ → Bool
has_authority (c ∷ d ∷ cs) = c == slash && d == slash
has_authority _ = false

abbrev starts_with : ℕ → Option (List ℕ × List ℕ) → Bool
starts_with c (some (front, d ∷ ds)) = d == c
starts_with c _ = false

-- What was found, cut off and without its first byte.
abbrev pub cut_at : Option (List ℕ × List ℕ) → Option (List ℕ × List ℕ)
cut_at (some (front, d ∷ ds)) = some (front, ds)
cut_at _ = none

abbrev authority_ends : List ℕ
authority_ends = at_sign ∷ slash ∷ question ∷ hash ∷ []

unfoldable pub parseurl_user : List ℕ → Option (List ℕ × List ℕ)
unfolding strpbrk
parseurl_user url =
    if starts_with at_sign (strpbrk url authority_ends)
    then cut_at (strpbrk url (colon ∷ at_sign ∷ []))
    else none

unfoldable pub parseurl_password : List ℕ → Option (List ℕ × List ℕ)
unfolding strpbrk
parseurl_password url =
    if starts_with at_sign (strpbrk url authority_ends)
    then cut_at (strpbrk url authority_ends)
    else none

abbrev host_delims : List ℕ
host_delims = colon ∷ slash ∷ question ∷ hash ∷ []

-- The host, which is not cut off, and the string from the byte behind it on. A host in brackets
-- ends behind the closing one, where a delimiter or the end has to follow.
unfoldable pub parseurl_host : List ℕ → Option (List ℕ × List ℕ)
unfolding strpbrk is_among
parseurl_host url =
    if begins url then closed (strpbrk url (93 ∷ [])) else elim (strpbrk url host_delims) [
      | none ↦ some (url, [])
      | some (host, found) ↦ some (host, found)
    ]
  where
    begins : List ℕ → Bool
    begins [] = false
    begins (c ∷ cs) = c == 91

    closed : Option (List ℕ × List ℕ) → Option (List ℕ × List ℕ)
    closed (some (front, c ∷ [])) = some (front ++ c ∷ [], [])
    closed (some (front, c ∷ d ∷ ds)) =
        if is_among d host_delims then some (front ++ c ∷ [], d ∷ ds) else none
    closed _ = none

unfoldable pub parseurl_port : List ℕ → Option (List ℕ × List ℕ)
unfolding strpbrk
parseurl_port url = strpbrk url (slash ∷ question ∷ hash ∷ [])

unfoldable pub parseurl_path : List ℕ → Option (List ℕ × List ℕ)
unfolding strpbrk
parseurl_path url = strpbrk url (question ∷ hash ∷ [])

unfoldable pub parseurl_query : List ℕ → Option (List ℕ × List ℕ)
unfolding strpbrk
parseurl_query url = cut_at (strpbrk url (hash ∷ []))
