-- ===== src/Util/Parseurl/Text.antt =====
-- src/util/parseurl.c: the text of a URL from its parts, and the functions of the interface.
-- src/util/memutil.c: `strlen_check`.
use lib_open_rtmp.Base.{
  ℕ, ◌+◌, Bool, true, false, not, ◌&&◌, ◌||◌, Option, none, some, List, [], ◌∷◌, ◌++◌, ◌==◌,
  if◌then◌else◌, length,
}
use lib_open_rtmp.Util.Parseurl.{colon, slash, question, hash, at_sign}
use lib_open_rtmp.Util.Parseurl.Parser.{
  Part, unset, owned, borrowed, Parser, PartId, whole, scheme_part, user_part, pass_part, host_part,
  port_part, path_part, query_part, fragment_part, pointee, is_freed, parseurl_parse,
}

-- What the pointers lead to.
pub record Parts : Type 0 where
  pub scheme : Option (List ℕ)
  pub user : Option (List ℕ)
  pub password : Option (List ℕ)
  pub host : Option (List ℕ)
  pub port : Option (List ℕ)
  pub path : Option (List ℕ)
  pub query : Option (List ℕ)
  pub fragment : Option (List ℕ)

abbrev pub parts : Parser → Parts
parts p = record {
  scheme = pointee p.scheme;
  user = pointee p.user;
  password = pointee p.password;
  host = pointee p.host;
  port = pointee p.port;
  path = pointee p.path;
  query = pointee p.query;
  fragment = pointee p.fragment;
}

abbrev pub is_dangling : Parser → Bool
is_dangling p =
    is_freed p.scheme
    || is_freed p.user
    || is_freed p.password
    || is_freed p.host
    || is_freed p.port
    || is_freed p.path
    || is_freed p.query
    || is_freed p.fragment

abbrev pub strlen_check : Option (List ℕ) → ℕ
strlen_check none = 0
strlen_check (some t) = length t

unfoldable pub url_length : Parts → ℕ
url_length ps =
    strlen_check ps.scheme
    + strlen_check ps.user
    + strlen_check ps.password
    + strlen_check ps.host
    + strlen_check ps.port
    + strlen_check ps.path
    + strlen_check ps.query
    + strlen_check ps.fragment
    + 9

-- `strwrite` of a mark and a part, if the part is set, in front of what is written next.
abbrev pub strwrite : List ℕ → Option (List ℕ) → List ℕ → List ℕ
strwrite mark none next = next
strwrite mark (some t) next = mark ++ (t ++ next)

abbrev pub mark_if : Bool → List ℕ → List ℕ → List ℕ
mark_if true mark next = mark ++ next
mark_if false mark next = next

abbrev pub is_set : Option (List ℕ) → Bool
is_set none = false
is_set (some t) = true

abbrev pub lacks_slash : Option (List ℕ) → Bool
lacks_slash none = true
lacks_slash (some []) = true
lacks_slash (some (c ∷ cs)) = not (c == slash)

-- From the path on.
unfoldable pub path_text : Parts → List ℕ
path_text ps =
    mark_if (not (is_set ps.path) || is_set ps.host && lacks_slash ps.path) (slash ∷ []) (
      strwrite [] ps.path (strwrite (question ∷ []) ps.query (strwrite (hash ∷ []) ps.fragment [])))

unfoldable pub url_text : Parts → List ℕ
unfolding path_text
url_text ps = strwrite [] ps.scheme (
    mark_if (is_set ps.scheme) (colon ∷ []) (
      mark_if (is_set ps.host && is_set ps.scheme) (slash ∷ slash ∷ []) (
        strwrite [] ps.user (
          strwrite (colon ∷ []) ps.password (
            mark_if (is_set ps.user || is_set ps.password) (at_sign ∷ [])
              (strwrite [] ps.host (strwrite (colon ∷ []) ps.port (path_text ps))))))))

-- `malloc` is not checked: without room the text is written to a null pointer.
unfoldable pub to_url : (ℕ → Bool) → Parser → Option Parser
unfolding url_length url_text
to_url room p =
    if is_dangling p
    then none
    else if url_length (parts p) == 9
    then some (record p { url = none })
    else if room (url_length (parts p) + 1)
    then some (record p { url = some (url_text (parts p)) })
    else none

abbrev pub or_fallback : Part → Part → Part
or_fallback fallback unset = fallback
or_fallback fallback p = p

abbrev pub url_part : Option (List ℕ) → Part
url_part none = unset
url_part (some t) = owned t

abbrev pub cached : (ℕ → Bool) → Parser → Option (List ℕ) → Option Parser
cached room p none = to_url room p
cached room p (some t) = some p

unfoldable pub parseurl_get : (ℕ → Bool) → Parser → PartId → Part → Option (Part × Parser)
unfolding to_url
parseurl_get room p whole fallback = elim (cached room p p.url) [
  | none ↦ none
  | some p' ↦ some (or_fallback fallback (url_part p'.url), p')
]
parseurl_get room p scheme_part fallback = some (or_fallback fallback p.scheme, p)
parseurl_get room p user_part fallback = some (or_fallback fallback p.user, p)
parseurl_get room p pass_part fallback = some (or_fallback fallback p.password, p)
parseurl_get room p host_part fallback = some (or_fallback fallback p.host, p)
parseurl_get room p port_part fallback = some (or_fallback fallback p.port, p)
parseurl_get room p path_part fallback = some (or_fallback fallback p.path, p)
parseurl_get room p query_part fallback = some (or_fallback fallback p.query, p)
parseurl_get room p fragment_part fallback = some (or_fallback fallback p.fragment, p)
parseurl_get room p _ fallback = some (fallback, p)

abbrev pub pointer : Option (List ℕ) → Part
pointer none = unset
pointer (some t) = borrowed t

-- The new text is built from the parts and parsed again.
unfoldable pub rebuild : (ℕ → Bool) → Parser → Option (Bool × Parser)
rebuild room p = elim (parseurl_get room p whole unset) [
  | none ↦ none
  | some (url, p') ↦ parseurl_parse room p' (pointee url) whole
]

unfoldable pub parseurl_set :
    (ℕ → Bool) → Parser → PartId → Option (List ℕ) → Option (Bool × Parser)
unfolding rebuild
parseurl_set room p scheme_part v = rebuild room (record p { scheme = pointer v; url = none })
parseurl_set room p user_part v = rebuild room (record p { user = pointer v; url = none })
parseurl_set room p pass_part v = rebuild room (record p { password = pointer v; url = none })
parseurl_set room p host_part v = rebuild room (record p { host = pointer v; url = none })
parseurl_set room p port_part v = rebuild room (record p { port = pointer v; url = none })
parseurl_set room p path_part v = rebuild room (record p { path = pointer v; url = none })
parseurl_set room p query_part v = rebuild room (record p { query = pointer v; url = none })
parseurl_set room p fragment_part v = rebuild room (record p { fragment = pointer v; url = none })
parseurl_set room p enforce v = parseurl_parse room (record p { url = none }) v enforce
