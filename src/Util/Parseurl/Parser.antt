-- ===== src/Util/Parseurl/Parser.antt =====
-- src/util/parseurl.c: the parser, from the blanks around a URL to the check of its parts. A
-- pointer of the struct points into `allocated`, to a string of the caller's, or to a block that
-- was freed; what reads a freed block or in front of a block has no result. A string of the
-- caller's is outside of the parser's blocks and is kept.
use lib_open_rtmp.Base.{
  ℕ, ◌+◌, Bool, true, false, not, ◌&&◌, ◌||◌, Option, none, some, List, [], ◌∷◌, leb, ◌==◌,
  if◌then◌else◌, length,
}
use lib_open_rtmp.Util.Parseurl.{
  is_digit, colon, question, hash, parseurl_scheme, has_authority, parseurl_user, parseurl_password,
  parseurl_host, parseurl_port, parseurl_path, parseurl_query,
}

pub data Part : Type 0 where
  unset : Part
  owned : List ℕ → Part
  borrowed : List ℕ → Part
  freed : Part

-- `struct parseurl`. That `allocated` is set is not read; `url` is the text that was built last.
pub record Parser : Type 0 where
  pub scheme : Part
  pub user : Part
  pub password : Part
  pub host : Part
  pub port : Part
  pub path : Part
  pub query : Part
  pub fragment : Part
  pub url : Option (List ℕ)

-- `parseurl_part_t`; the first three are also the ways to parse.
pub data PartId : Type 0 where
  whole : PartId
  forgiving : PartId
  strict : PartId
  scheme_part : PartId
  user_part : PartId
  pass_part : PartId
  host_part : PartId
  port_part : PartId
  path_part : PartId
  query_part : PartId
  fragment_part : PartId

abbrev pub is_strict : PartId → Bool
is_strict strict = true
is_strict _ = false

abbrev pub is_forgiving : PartId → Bool
is_forgiving forgiving = true
is_forgiving _ = false

-- `parseurl_create`; the struct is also zeroed when a URL is given up.
abbrev pub parseurl_create : Parser
parseurl_create = record {
  scheme = unset;
  user = unset;
  password = unset;
  host = unset;
  port = unset;
  path = unset;
  query = unset;
  fragment = unset;
  url = none;
}

-- The string that a pointer leads to.
abbrev pub pointee : Part → Option (List ℕ)
pointee (owned t) = some t
pointee (borrowed t) = some t
pointee _ = none

abbrev pub is_freed : Part → Bool
is_freed freed = true
is_freed _ = false

abbrev pub is_null : Part → Bool
is_null unset = true
is_null _ = false

-- `free(out->allocated)`.
abbrev pub free_part : Part → Part
free_part (owned t) = freed
free_part p = p

unfoldable pub free_allocated : Parser → Parser
free_allocated p = record p {
  scheme = free_part p.scheme;
  user = free_part p.user;
  password = free_part p.password;
  host = free_part p.host;
  port = free_part p.port;
  path = free_part p.path;
  query = free_part p.query;
  fragment = free_part p.fragment;
}

-- `isspace` in the C locale.
abbrev pub is_space : ℕ → Bool
is_space c = c == 32 || leb 9 c && leb c 13

unfoldable pub any_space : List ℕ → Bool
any_space [] = false
any_space (c ∷ cs) = is_space c || any_space cs

unfoldable pub trim_front : List ℕ → List ℕ
trim_front [] = []
trim_front (c ∷ cs) = let rest = trim_front cs in if is_space c then rest else c ∷ cs

abbrev pub keep_before : ℕ → List ℕ → List ℕ
keep_before c [] = if is_space c then [] else c ∷ []
keep_before c (d ∷ ds) = c ∷ d ∷ ds

unfoldable pub trim_back : List ℕ → List ℕ
trim_back [] = []
trim_back (c ∷ cs) = keep_before c (trim_back cs)

-- Inner blanks are an error, unless the parser forgives them.
abbrev pub check_inner : PartId → List ℕ → Bool × List ℕ
check_inner enforce url = (is_forgiving enforce || not (any_space url), url)

-- Behind the blanks in front. If nothing is left, the loop over the blanks at the end runs on in
-- front of the block.
abbrev pub trim_rest : PartId → List ℕ → Option (Bool × List ℕ)
trim_rest enforce [] = none
trim_rest enforce (c ∷ cs) = some (check_inner enforce (trim_back (c ∷ cs)))

-- Whether to go on, and the trimmed text.
unfoldable pub handle_space : PartId → List ℕ → Option (Bool × List ℕ)
unfolding any_space trim_front trim_back
handle_space enforce [] = some (true, [])
handle_space enforce (c ∷ cs) =
    if is_strict enforce
    then some (not (any_space (c ∷ cs)), c ∷ cs)
    else trim_rest enforce (trim_front (c ∷ cs))

abbrev pub set_port : List ℕ → Parser → Parser
set_port [] out = out
set_port (c ∷ cs) out = record out { port = owned (c ∷ cs) }

unfoldable pub parse_port : Parser → List ℕ → Parser × Option (List ℕ)
parse_port out rest = elim (parseurl_port rest) [
  | none ↦ (set_port rest out, some [])
  | some (port, found) ↦ (set_port port out, some found)
]

-- A separator that is not the colon is put back in front of the rest.
unfoldable pub behind_host : Parser → List ℕ → Parser × Option (List ℕ)
behind_host out [] = (out, some [])
behind_host out (sep ∷ rest) =
    if sep == colon then parse_port out rest else (out, some (sep ∷ rest))

unfoldable pub parse_host : Parser × List ℕ → Parser × Option (List ℕ)
parse_host (out, buf) = elim (parseurl_host buf) [
  | none ↦ (record out { host = owned buf }, none)
  | some (host, found) ↦ behind_host (record out { host = owned host }) found
]

unfoldable pub parse_password : Parser → List ℕ → Parser × List ℕ
parse_password out buf = elim (parseurl_password buf) [
  | none ↦ (out, buf)
  | some (password, rest) ↦ (record out { password = owned password }, rest)
]

unfoldable pub parse_user : Parser → List ℕ → Parser × List ℕ
parse_user out buf = elim (parseurl_user buf) [
  | none ↦ (out, buf)
  | some (user, rest) ↦ parse_password (record out { user = owned user }) rest
]

abbrev pub skip_slashes : PartId → List ℕ → Option (List ℕ)
skip_slashes enforce (c ∷ d ∷ cs) =
    if has_authority (c ∷ d ∷ cs)
    then some cs
    else if is_forgiving enforce
    then some (c ∷ d ∷ cs)
    else none
skip_slashes enforce buf = if is_forgiving enforce then some buf else none

unfoldable pub parse_authority : PartId → Parser → List ℕ → Parser × Option (List ℕ)
parse_authority enforce out buf = elim (skip_slashes enforce buf) [
  | none ↦ (out, none)
  | some at ↦ parse_host (parse_user out at)
]

unfoldable pub all_digits : List ℕ → Bool
all_digits [] = true
all_digits (c ∷ cs) = is_digit c && all_digits cs

abbrev pub digits : Part → Option Bool
digits unset = some true
digits (owned t) = some (all_digits t)
digits (borrowed t) = some (all_digits t)
digits freed = none

-- The end of `parseurl_verify`: scheme and path are there, and the port is a number.
unfoldable pub verify_parts : Parser → Option (Bool × Parser)
verify_parts out =
    if is_null out.scheme || is_null out.path
    then some (false, out)
    else elim (digits out.port) [ none ↦ none | some valid ↦ some (valid, out) ]

abbrev pub is_blank : Option (List ℕ) → Bool
is_blank (some []) = true
is_blank _ = false

unfoldable pub verify : Bool → PartId → Parser → Option (Bool × Parser)
verify clear enforce out =
    if clear
    then some (false, parseurl_create)
    else if is_freed out.user
    then none
    else if is_blank (pointee out.user)
    then if is_strict enforce
      then some (false, parseurl_create)
      else verify_parts (record out { user = unset; password = unset; url = none })
    else verify_parts (record out { url = none })

unfoldable pub parse_query : Parser → List ℕ → Parser
parse_query out buf = elim (parseurl_query buf) [
  | none ↦ record out { query = owned buf }
  | some (query, fragment) ↦ record out { query = owned query; fragment = owned fragment }
]

unfoldable pub behind_path : Parser → List ℕ → Parser
behind_path out [] = out
behind_path out (sep ∷ rest) =
    if sep == question
    then parse_query out rest
    else if sep == hash
    then record out { fragment = owned rest }
    else out

unfoldable pub parse_path : Parser → List ℕ → Parser
parse_path out buf = elim (parseurl_path buf) [
  | none ↦ record out { path = owned buf }
  | some (path, found) ↦ behind_path (record out { path = owned path }) found
]

unfoldable pub behind_authority : PartId → Parser × Option (List ℕ) → Option (Bool × Parser)
behind_authority enforce (out, none) = verify true enforce out
behind_authority enforce (out, some []) = verify false enforce out
behind_authority enforce (out, some (c ∷ cs)) = verify false enforce (parse_path out (c ∷ cs))

unfoldable pub behind_scheme : PartId → Parser → List ℕ → Option (Bool × Parser)
behind_scheme enforce out rest =
    if has_authority rest
    then behind_authority enforce (parse_authority enforce out rest)
    else verify false enforce (parse_path out rest)

unfoldable pub scheme_cases :
    PartId → Parser → List ℕ → Option (List ℕ × List ℕ) → Option (Bool × Parser)
unfolding behind_scheme
scheme_cases enforce out buf none =
    if is_forgiving enforce
    then behind_authority enforce (parse_authority enforce out buf)
    else verify true enforce out
scheme_cases enforce out buf (some (scheme, rest)) =
    behind_scheme enforce (record out { scheme = owned scheme }) rest

unfoldable pub parse_text : PartId → Parser → List ℕ → Option (Bool × Parser)
unfolding scheme_cases
parse_text enforce out buf = scheme_cases enforce out buf (parseurl_scheme buf)

unfoldable pub space_cases : PartId → Parser → Option (Bool × List ℕ) → Option (Bool × Parser)
unfolding parse_text
space_cases enforce out none = none
space_cases enforce out (some (true, buf)) = parse_text enforce out buf
space_cases enforce out (some (false, buf)) = verify true enforce out

-- `room` is what `malloc` answers for a request of so many bytes.
unfoldable pub parseurl_parse :
    (ℕ → Bool) → Parser → Option (List ℕ) → PartId → Option (Bool × Parser)
unfolding space_cases free_allocated
parseurl_parse room out none enforce = some (false, out)
parseurl_parse room out (some url) enforce =
    if room (3 + length url)
    then space_cases enforce (free_allocated out) (handle_space enforce url)
    else some (false, free_allocated out)
