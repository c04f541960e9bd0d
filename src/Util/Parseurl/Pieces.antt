-- ===== src/Util/Parseurl/Pieces.antt =====
-- src/util/parseurl.c: the text of a URL is taken apart into the parts that it was put together from.
use lib_open_rtmp.Base.{
  ℕ, true, false, ◌||◌, Option, none, some, List, [], ◌∷◌, ◌++◌, ◌≡◌, refl, ◌∙◌, sym, ap, subst,
  append-nil,
}
use lib_open_rtmp.Util.Parseurl.{
  colon, slash, question, hash, at_sign, is_among, strpbrk, verify_scheme, has_authority,
  parseurl_path, parseurl_query,
}
use lib_open_rtmp.Util.Parseurl.Parser.{
  owned, Parser, PartId, parse_authority, verify, parse_query, behind_path, parse_path,
  behind_authority, parse_text,
}
use lib_open_rtmp.Util.Parseurl.Text.{Parts, strwrite, mark_if, is_set, url_text}
use lib_open_rtmp.Util.Parseurl.Find.{
  avoids, strpbrk-append, strpbrk-eq-none, parseurl_scheme-append,
}
use lib_open_rtmp.Util.Parseurl.Proper.{
  IsScheme, IsAuthority, IsQuery, starts_with_slash, found_or, assign,
}
use lib_open_rtmp.Util.Parseurl.Authority.{parse_host-append, host-NoUser, parse_user-append}

abbrev path_ends : List ℕ
path_ends = question ∷ hash ∷ []

-- The query and the fragment, behind the path.
abbrev tail_text : Option (List ℕ) → Option (List ℕ) → List ℕ
tail_text query fragment = strwrite (question ∷ []) query (strwrite (hash ∷ []) fragment [])

abbrev set_tail : Option (List ℕ) → Option (List ℕ) → Parser → Parser
set_tail query fragment out = record out {
  query = found_or query out.query;
  fragment = found_or fragment out.fragment;
}

behind_path-tail_text :
    (out : Parser) (query fragment : Option (List ℕ))
    → IsQuery query
    → behind_path out (tail_text query fragment) ≡ set_tail query fragment out
unfolding behind_path parse_query parseurl_query is_among
behind_path-tail_text out none none q = refl
behind_path-tail_text out none (some f) q = rw (append-nil f)
behind_path-tail_text out (some t) none q =
    rw
      (
        subst (λ u. strpbrk u (hash ∷ []) ≡ none) (sym (append-nil t))
            (strpbrk-eq-none (hash ∷ []) t q),
        parse_query,
        parseurl_query,
      )
      (rw (append-nil t))
behind_path-tail_text out (some t) (some f) q =
    rw (append-nil f, strpbrk-append (hash ∷ []) t hash f q refl, parse_query, parseurl_query)

parse_path-append :
    (out : Parser) (front : List ℕ) (c : ℕ) (rest : List ℕ)
    → avoids path_ends front ≡ true
    → is_among c path_ends ≡ true
    → parse_path out (front ++ (c ∷ rest))
      ≡ behind_path (record out { path = owned front }) (c ∷ rest)
unfolding parse_path parseurl_path
parse_path-append out front c rest a m =
    rw (strpbrk-append path_ends front c rest a m, parse_path, parseurl_path)

parse_path-tail_text :
    (out : Parser) (front : List ℕ) (query fragment : Option (List ℕ))
    → avoids path_ends front ≡ true
    → IsQuery query
    → parse_path out (front ++ tail_text query fragment)
      ≡ set_tail query fragment (record out { path = owned front })
unfolding parse_path parseurl_path is_among
parse_path-tail_text out front none none a q =
    rw
      (
        subst (λ u. strpbrk u path_ends ≡ none) (sym (append-nil front))
            (strpbrk-eq-none path_ends front a),
        parse_path,
        parseurl_path,
      )
      (rw (append-nil front))
parse_path-tail_text out front none (some f) a q =
    parse_path-append out front hash (f ++ []) a refl
    ∙ behind_path-tail_text (record out { path = owned front }) none (some f) q
parse_path-tail_text out front (some t) fragment a q =
    parse_path-append out front question (t ++ strwrite (hash ∷ []) fragment []) a refl
    ∙ behind_path-tail_text (record out { path = owned front }) (some t) fragment q

-- What stands between the slashes and the path.
abbrev authority_text :
    Option (List ℕ) → Option (List ℕ) → List ℕ → Option (List ℕ) → List ℕ → List ℕ
authority_text user password host port next = strwrite [] user (
    strwrite (colon ∷ []) password (
      mark_if (is_set user || is_set password) (at_sign ∷ [])
        (host ++ strwrite (colon ∷ []) port next)))

parse_authority-authority_text :
    (enforce : PartId) (out : Parser) (user password port : Option (List ℕ)) (host t : List ℕ)
    → IsAuthority (some host) user password port
    → parse_authority enforce out
        (slash ∷ slash ∷ authority_text user password host port (slash ∷ t))
      ≡ (
        record out {
          user = found_or user out.user;
          password = found_or password out.password;
          host = owned host;
          port = found_or port out.port;
        },
        some (slash ∷ t),
      )
unfolding parse_authority has_authority
parse_authority-authority_text enforce out user password port host t (plain, open_host, u, p) =
    rw
      (parse_user-append out user password (host ++ strwrite (colon ∷ []) port (slash ∷ t))
        (host-NoUser host port t plain p) u)
      (parse_host-append
        (record out { user = found_or user out.user; password = found_or password out.password })
        host port t plain open_host p)

abbrev pub from_fields :
    Option (List ℕ)
    → Option (List ℕ)
    → Option (List ℕ)
    → Option (List ℕ)
    → Option (List ℕ)
    → Option (List ℕ)
    → Option (List ℕ)
    → Option (List ℕ)
    → Parts
from_fields scheme user password host port path query fragment = record {
  scheme = scheme;
  user = user;
  password = password;
  host = host;
  port = port;
  path = path;
  query = query;
  fragment = fragment;
}

-- With a host.
pub parse_text-host :
    (enforce : PartId) (out : Parser) (c : ℕ) (cs : List ℕ) (user password port : Option (List ℕ))
    (host : List ℕ) (p : List ℕ) (query fragment : Option (List ℕ))
    → IsScheme (some (c ∷ cs))
    → IsAuthority (some host) user password port
    → avoids path_ends p ≡ true
    → IsQuery query
    → parse_text enforce out (
        url_text (
          from_fields
            (some (c ∷ cs))
            user
            password
            (some host)
            port
            (some (slash ∷ p))
            query
            fragment))
      ≡ verify false enforce (
          assign
            (from_fields
              (some (c ∷ cs))
              user
              password
              (some host)
              port
              (some (slash ∷ p))
              query
              fragment)
            out)
unfolding parse_text url_text has_authority verify_scheme behind_authority avoids is_among
parse_text-host enforce out c cs user password port host p query fragment s a pa q =
    rw
      (
        parseurl_scheme-append c cs
            (slash
              ∷ slash
              ∷ authority_text user password host port (slash ∷ (p ++ tail_text query fragment)))
            s.0 s.1 refl,
        parse_text,
      )
      (rw
        (parse_authority-authority_text enforce (record out { scheme = owned (c ∷ cs) }) user
          password port host (p ++ tail_text query fragment) a)
        (ap (verify false enforce) (
          parse_path-tail_text
            (record out {
              scheme = owned (c ∷ cs);
              user = found_or user out.user;
              password = found_or password out.password;
              host = owned host;
              port = found_or port out.port;
            })
            (slash ∷ p) query fragment pa q)))

single_slash :
    (p : List ℕ) (query fragment : Option (List ℕ))
    → starts_with_slash p ≡ false
    → has_authority (slash ∷ (p ++ tail_text query fragment)) ≡ false
unfolding has_authority
single_slash [] none none h = refl
single_slash [] none (some f) h = refl
single_slash [] (some t) fragment h = refl
single_slash (c ∷ cs) query fragment h = h

-- Without a host.
pub parse_text-no_host :
    (enforce : PartId) (out : Parser) (c : ℕ) (cs : List ℕ) (p : List ℕ)
    (query fragment : Option (List ℕ))
    → IsScheme (some (c ∷ cs))
    → avoids path_ends p ≡ true
    → starts_with_slash p ≡ false
    → IsQuery query
    → parse_text enforce out (
        url_text
          (from_fields (some (c ∷ cs)) none none none none (some (slash ∷ p)) query fragment))
      ≡ verify false enforce (
          assign
            (from_fields (some (c ∷ cs)) none none none none (some (slash ∷ p)) query fragment)
            out)
unfolding parse_text url_text verify_scheme avoids is_among
parse_text-no_host enforce out c cs p query fragment s pa one q =
    rw
      (
        parseurl_scheme-append c cs (slash ∷ (p ++ tail_text query fragment)) s.0 s.1 refl,
        parse_text,
      )
      (rw (single_slash p query fragment one) (
        ap (verify false enforce) (
          parse_path-tail_text (record out { scheme = owned (c ∷ cs) }) (slash ∷ p) query fragment
            pa q)))
