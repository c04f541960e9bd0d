-- ===== src/Util/Parseurl/RoundTrip.antt =====
-- src/util/parseurl.c: the text of proper parts, parsed, gives the parts back.
use lib_open_rtmp.Base.{
  ℕ, ◌+◌, Bool, true, false, not, ◌||◌, Option, none, some, List, [], ◌∷◌, ◌≡◌, refl, ◌∙◌, ap,
  length, Bool-cases, inl, inr,
}
use lib_open_rtmp.Util.Parseurl.Parser.{
  Part, unset, Parser, PartId, pointee, digits, is_strict, is_forgiving, is_null, is_freed,
  is_blank, free_part, free_allocated, is_space, any_space, check_inner, trim_rest, trim_front,
  trim_back, handle_space, verify_parts, verify, parse_text, parseurl_parse,
}
use lib_open_rtmp.Util.Parseurl.Text.{Parts, url_part, url_text}
use lib_open_rtmp.Util.Parseurl.Proper.{
  IsScheme, IsUser, IsPort, IsAuthority, IsFilePath, IsQuery, IsProper, found_or, assign,
}
use lib_open_rtmp.Util.Parseurl.Pieces.{from_fields, parse_text-host, parse_text-no_host}

parse_text-from_fields :
    (enforce : PartId) (out : Parser)
    (scheme user password host port path query fragment : Option (List ℕ))
    → IsScheme scheme
    → IsAuthority host user password port
    → IsFilePath host path
    → IsQuery query
    → parse_text enforce out
        (url_text (from_fields scheme user password host port path query fragment))
      ≡ verify false enforce
          (assign (from_fields scheme user password host port path query fragment) out)
parse_text-from_fields enforce out none us pw ho po pa qu fr s a p q = absurd s
parse_text-from_fields enforce out (some []) us pw ho po pa qu fr s a p q = absurd s
parse_text-from_fields enforce out (some (c ∷ cs)) us pw ho po none qu fr s a p q = absurd p
parse_text-from_fields enforce out (some (c ∷ cs)) us pw ho po (some []) qu fr s a p q = absurd p
parse_text-from_fields enforce out (some (c ∷ cs)) us pw none po (some (d ∷ ds)) qu fr s a p q =
    rw (p.0, a.0, a.1, a.2) (parse_text-no_host enforce out c cs ds qu fr s p.1 p.2 q)
parse_text-from_fields enforce out (some (c ∷ cs)) us pw (some h) po (some (d ∷ ds)) qu fr s a p q =
    rw p.0 (parse_text-host enforce out c cs us pw po h ds qu fr s a p.1 q)

parse_text-url_text :
    (enforce : PartId) (out : Parser) (ps : Parts)
    → IsProper ps
    → parse_text enforce out (url_text ps) ≡ verify false enforce (assign ps out)
parse_text-url_text enforce out ps v =
    parse_text-from_fields enforce out ps.scheme ps.user ps.password ps.host ps.port ps.path
      ps.query ps.fragment v.scheme v.authority v.path v.query

-- Text without blanks is taken as it is.
pub or_parts : (a b : Bool) → (a || b) ≡ false → (a ≡ false) × (b ≡ false)
or_parts true b h = cc
or_parts false b h = (refl, h)

trim_back_lem : (url : List ℕ) → any_space url ≡ false → trim_back url ≡ url
unfolding any_space trim_back
trim_back_lem [] h = refl
trim_back_lem (c ∷ []) h = rw (or_parts (is_space c) false h).0
trim_back_lem (c ∷ d ∷ ds) h =
    rw (trim_back_lem (d ∷ ds) (or_parts (is_space c) (any_space (d ∷ ds)) h).1)

forgiven : (b c : Bool) → c ≡ false → (b || not c) ≡ true
forgiven true c h = refl
forgiven false c h = rw h

trim_front_lem : (c : ℕ) (cs : List ℕ) → is_space c ≡ false → trim_front (c ∷ cs) ≡ c ∷ cs
unfolding trim_front
trim_front_lem c cs h = rw h

handle_space_lem :
    (enforce : PartId) (url : List ℕ)
    → any_space url ≡ false
    → handle_space enforce url ≡ some (true, url)
unfolding handle_space
handle_space_lem enforce [] h = refl
handle_space_lem enforce (c ∷ cs) h = elim (Bool-cases (is_strict enforce)) [
  | inl s ↦ rw s (ap (λ b. some (not b, c ∷ cs)) h)
  | inr s ↦ rw s (
      ap (trim_rest enforce) (trim_front_lem c cs (or_parts (is_space c) (any_space cs) h).0)
      ∙ ap (λ u. some (check_inner enforce u)) (trim_back_lem (c ∷ cs) h)
      ∙ ap (λ b. some (b, c ∷ cs)) (forgiven (is_forgiving enforce) (any_space (c ∷ cs)) h))
]

-- What the text of proper parts is parsed to, whatever the parser held before.
pub parseurl_parse-assign :
    (room : ℕ → Bool) (p : Parser) (ps : Parts) (enforce : PartId)
    → IsProper ps
    → room (3 + length (url_text ps)) ≡ true
    → parseurl_parse room p (some (url_text ps)) enforce
      ≡ verify false enforce (assign ps (free_allocated p))
unfolding parseurl_parse
parseurl_parse-assign room p ps enforce v r =
    rw (r, handle_space_lem enforce (url_text ps) v.no_blanks)
      (parse_text-url_text enforce (free_allocated p) ps v)

-- A part that is not in the text was not set before either.
abbrev pub Lacks : Option (List ℕ) → Part → Type 0
Lacks none old = old ≡ unset
Lacks (some t) old = Unit {0}

pub found_or-free_part :
    (o : Option (List ℕ)) (old : Part) → Lacks o old → found_or o (free_part old) ≡ url_part o
found_or-free_part none old h = rw h
found_or-free_part (some t) old h = refl

pub record LacksAll (ps : Parts) (p : Parser) : Type 0 where
  pub scheme : Lacks ps.scheme p.scheme
  pub user : Lacks ps.user p.user
  pub password : Lacks ps.password p.password
  pub host : Lacks ps.host p.host
  pub port : Lacks ps.port p.port
  pub path : Lacks ps.path p.path
  pub query : Lacks ps.query p.query
  pub fragment : Lacks ps.fragment p.fragment

-- The parser whose parts are these, each in the parser's own block.
abbrev pub from_parts : Option (List ℕ) → Parts → Parser
from_parts url ps = record {
  scheme = url_part ps.scheme;
  user = url_part ps.user;
  password = url_part ps.password;
  host = url_part ps.host;
  port = url_part ps.port;
  path = url_part ps.path;
  query = url_part ps.query;
  fragment = url_part ps.fragment;
  url = url;
}

assign-free_allocated :
    (ps : Parts) (p : Parser) → LacksAll ps p → assign ps (free_allocated p) ≡ from_parts p.url ps
unfolding free_allocated
assign-free_allocated ps p l = λ i. record {
  scheme = found_or-free_part ps.scheme p.scheme l.scheme i;
  user = found_or-free_part ps.user p.user l.user i;
  password = found_or-free_part ps.password p.password l.password i;
  host = found_or-free_part ps.host p.host l.host i;
  port = found_or-free_part ps.port p.port l.port i;
  path = found_or-free_part ps.path p.path l.path i;
  query = found_or-free_part ps.query p.query l.query i;
  fragment = found_or-free_part ps.fragment p.fragment l.fragment i;
  url = p.url;
}

pub set_scheme : (o : Option (List ℕ)) → IsScheme o → is_null (url_part o) ≡ false
set_scheme none h = absurd h
set_scheme (some t) h = refl

pub set_path : (host o : Option (List ℕ)) → IsFilePath host o → is_null (url_part o) ≡ false
set_path host none h = absurd h
set_path host (some t) h = refl

port_digits : (o : Option (List ℕ)) → IsPort o → digits (url_part o) ≡ some true
port_digits none h = refl
port_digits (some []) h = absurd h
port_digits (some (c ∷ cs)) h = ap some h

pub authority_digits :
    (host user password port : Option (List ℕ))
    → IsAuthority host user password port
    → digits (url_part port) ≡ some true
authority_digits none user password port h = rw h.2
authority_digits (some t) user password port h = port_digits port h.3

user_named :
    (o password : Option (List ℕ)) → IsUser o password → is_blank (pointee (url_part o)) ≡ false
user_named none password h = refl
user_named (some []) password h = absurd h
user_named (some (c ∷ cs)) password h = refl

pub authority_named :
    (host user password port : Option (List ℕ))
    → IsAuthority host user password port
    → is_blank (pointee (url_part user)) ≡ false
authority_named none user password port h = rw h.0
authority_named (some t) user password port h = user_named user password h.2

pub not_freed : (o : Option (List ℕ)) → is_freed (url_part o) ≡ false
not_freed none = refl
not_freed (some t) = refl

verify-from_parts :
    (enforce : PartId) (ps : Parts) (url : Option (List ℕ))
    → IsProper ps
    → verify false enforce (from_parts url ps) ≡ some (true, from_parts none ps)
unfolding verify verify_parts
verify-from_parts enforce ps url v =
    rw
      (
        not_freed ps.user,
        authority_named ps.host ps.user ps.password ps.port v.authority,
        set_scheme ps.scheme v.scheme,
        set_path ps.host ps.path v.path,
      )
      (rw (authority_digits ps.host ps.user ps.password ps.port v.authority))

-- Proper parts come back from their text, whichever way it is parsed, when the parser has room
-- for it and no part is set that the text leaves out; nothing else is left in the parser.
pub parseurl_parse-url_text :
    (room : ℕ → Bool) (p : Parser) (ps : Parts) (enforce : PartId)
    → IsProper ps
    → LacksAll ps p
    → room (3 + length (url_text ps)) ≡ true
    → parseurl_parse room p (some (url_text ps)) enforce ≡ some (true, from_parts none ps)
parseurl_parse-url_text room p ps enforce v l r =
    parseurl_parse-assign room p ps enforce v r
    ∙ ap (verify false enforce) (assign-free_allocated ps p l)
    ∙ verify-from_parts enforce ps p.url v
