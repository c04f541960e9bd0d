-- ===== src/Util/Parseurl/Update.antt =====
-- src/util/parseurl.c: `parseurl_set` of one part changes that part and no other.
use lib_open_rtmp.Base.{
  ℕ, ◌+◌, Bool, true, false, Option, none, some, List, ◌≡◌, refl, ap, arith, length, subst,
}
use lib_open_rtmp.Util.Parseurl.Parser.{
  Part, unset, owned, borrowed, freed, Parser, PartId, whole, forgiving, strict, scheme_part,
  user_part, pass_part, host_part, port_part, path_part, query_part, fragment_part, pointee,
  is_freed,
}
use lib_open_rtmp.Util.Parseurl.Text.{
  Parts, parts, is_dangling, url_length, url_text, to_url, parseurl_get, pointer, rebuild,
  parseurl_set,
}
use lib_open_rtmp.Util.Parseurl.Proper.{IsProper}
use lib_open_rtmp.Util.Parseurl.Bounds.{url_length-proper}
use lib_open_rtmp.Util.Parseurl.RoundTrip.{Lacks, LacksAll, from_parts, parseurl_parse-url_text}

unfreed-Lacks : (x : Part) → is_freed x ≡ false → Lacks (pointee x) x
unfreed-Lacks unset h = refl
unfreed-Lacks (owned t) h = tt
unfreed-Lacks (borrowed t) h = tt
unfreed-Lacks freed h = cc

-- No part leads to freed memory.
record IsHeld (p : Parser) : Type 0 where
  scheme : is_freed p.scheme ≡ false
  user : is_freed p.user ≡ false
  password : is_freed p.password ≡ false
  host : is_freed p.host ≡ false
  port : is_freed p.port ≡ false
  path : is_freed p.path ≡ false
  query : is_freed p.query ≡ false
  fragment : is_freed p.fragment ≡ false

dangling-IsHeld : (p : Parser) → is_dangling p ≡ false → IsHeld p
dangling-IsHeld p h = record {
  scheme = ground arith;
  user = ground arith;
  password = ground arith;
  host = ground arith;
  port = ground arith;
  path = ground arith;
  query = ground arith;
  fragment = ground arith;
}

dangling-LacksAll : (p : Parser) → is_dangling p ≡ false → LacksAll (parts p) p
dangling-LacksAll p d =
    let h = dangling-IsHeld p d in
    record {
      scheme = unfreed-Lacks p.scheme h.scheme;
      user = unfreed-Lacks p.user h.user;
      password = unfreed-Lacks p.password h.password;
      host = unfreed-Lacks p.host h.host;
      port = unfreed-Lacks p.port h.port;
      path = unfreed-Lacks p.path h.path;
      query = unfreed-Lacks p.query h.query;
      fragment = unfreed-Lacks p.fragment h.fragment;
    }

rebuild_lem :
    (room : ℕ → Bool) (q : Parser)
    → is_dangling q ≡ false
    → IsProper (parts q)
    → room (url_length (parts q) + 1) ≡ true
    → room (3 + length (url_text (parts q))) ≡ true
    → rebuild room (record q { url = none }) ≡ some (true, from_parts none (parts q))
unfolding rebuild parseurl_get to_url
rebuild_lem room q d v r r' =
    rw (d, url_length-proper (parts q) v, r, rebuild, parseurl_get, to_url)
      (parseurl_parse-url_text room (record q { url = some (url_text (parts q)) }) (parts q) whole v
        (dangling-LacksAll (record q { url = some (url_text (parts q)) }) d) r')

-- The same, with the parts written out.
rebuild-update :
    (room : ℕ → Bool) (q : Parser) (ps : Parts)
    → parts q ≡ ps
    → is_dangling q ≡ false
    → IsProper ps
    → room (url_length ps + 1) ≡ true
    → room (3 + length (url_text ps)) ≡ true
    → rebuild room (record q { url = none }) ≡ some (true, from_parts none ps)
rebuild-update room q ps e d =
    subst
      (λ (qs : Parts).
        IsProper qs
        → room (url_length qs + 1) ≡ true
        → room (3 + length (url_text qs)) ≡ true
        → rebuild room (record q { url = none }) ≡ some (true, from_parts none qs))
      e (rebuild_lem room q d)

-- One of the eight parts, and its new value.
abbrev pub update : PartId → Option (List ℕ) → Parts → Parts
update scheme_part v ps = record ps { scheme = v }
update user_part v ps = record ps { user = v }
update pass_part v ps = record ps { password = v }
update host_part v ps = record ps { host = v }
update port_part v ps = record ps { port = v }
update path_part v ps = record ps { path = v }
update query_part v ps = record ps { query = v }
update fragment_part v ps = record ps { fragment = v }
update _ v ps = ps

abbrev pub is_part : PartId → Bool
is_part whole = false
is_part forgiving = false
is_part strict = false
is_part _ = true

pointee-pointer : (v : Option (List ℕ)) → pointee (pointer v) ≡ v
pointee-pointer none = refl
pointee-pointer (some t) = refl

pointer_held : (v : Option (List ℕ)) → is_freed (pointer v) ≡ false
pointer_held none = refl
pointer_held (some t) = refl

module _ (room : ℕ → Bool) (p : Parser) (v : Option (List ℕ)) (held : is_dangling p ≡ false) where
  -- Setting one part of a parser that holds nothing freed, when the parts are proper with the new
  -- value and there is room for both blocks, succeeds, changes that part and no other, and leaves
  -- all the parts in the parser's own block.
  pub parseurl_set-update :
      (part : PartId)
      → is_part part ≡ true
      → IsProper (update part v (parts p))
      → room (url_length (update part v (parts p)) + 1) ≡ true
      → room (3 + length (url_text (update part v (parts p)))) ≡ true
      → parseurl_set room p part v ≡ some (true, from_parts none (update part v (parts p)))
  unfolding parseurl_set
  parseurl_set-update whole h = cc
  parseurl_set-update forgiving h = cc
  parseurl_set-update strict h = cc
  parseurl_set-update scheme_part h =
      rebuild-update room (record p { scheme = pointer v }) (update scheme_part v (parts p))
        (ap (λ o. record (parts p) { scheme = o }) (pointee-pointer v))
        (let h' = dangling-IsHeld p held in
          rw (
            pointer_held v,
            h'.user,
            h'.password,
            h'.host,
            h'.port,
            h'.path,
            h'.query,
            h'.fragment,
          ))
  parseurl_set-update user_part h =
      rebuild-update room (record p { user = pointer v }) (update user_part v (parts p))
        (ap (λ o. record (parts p) { user = o }) (pointee-pointer v))
        (let h' = dangling-IsHeld p held in
          rw (
            h'.scheme,
            pointer_held v,
            h'.password,
            h'.host,
            h'.port,
            h'.path,
            h'.query,
            h'.fragment,
          ))
  parseurl_set-update pass_part h =
      rebuild-update room (record p { password = pointer v }) (update pass_part v (parts p))
        (ap (λ o. record (parts p) { password = o }) (pointee-pointer v))
        (let h' = dangling-IsHeld p held in
          rw (h'.scheme, h'.user, pointer_held v, h'.host, h'.port, h'.path, h'.query, h'.fragment))
  parseurl_set-update host_part h =
      rebuild-update room (record p { host = pointer v }) (update host_part v (parts p))
        (ap (λ o. record (parts p) { host = o }) (pointee-pointer v))
        (let h' = dangling-IsHeld p held in
          rw (
            h'.scheme,
            h'.user,
            h'.password,
            pointer_held v,
            h'.port,
            h'.path,
            h'.query,
            h'.fragment,
          ))
  parseurl_set-update port_part h =
      rebuild-update room (record p { port = pointer v }) (update port_part v (parts p))
        (ap (λ o. record (parts p) { port = o }) (pointee-pointer v))
        (let h' = dangling-IsHeld p held in
          rw (
            h'.scheme,
            h'.user,
            h'.password,
            h'.host,
            pointer_held v,
            h'.path,
            h'.query,
            h'.fragment,
          ))
  parseurl_set-update path_part h =
      rebuild-update room (record p { path = pointer v }) (update path_part v (parts p))
        (ap (λ o. record (parts p) { path = o }) (pointee-pointer v))
        (let h' = dangling-IsHeld p held in
          rw (
            h'.scheme,
            h'.user,
            h'.password,
            h'.host,
            h'.port,
            pointer_held v,
            h'.query,
            h'.fragment,
          ))
  parseurl_set-update query_part h =
      rebuild-update room (record p { query = pointer v }) (update query_part v (parts p))
        (ap (λ o. record (parts p) { query = o }) (pointee-pointer v))
        (let h' = dangling-IsHeld p held in
          rw (
            h'.scheme,
            h'.user,
            h'.password,
            h'.host,
            h'.port,
            h'.path,
            pointer_held v,
            h'.fragment,
          ))
  parseurl_set-update fragment_part h =
      rebuild-update room (record p { fragment = pointer v }) (update fragment_part v (parts p))
        (ap (λ o. record (parts p) { fragment = o }) (pointee-pointer v))
        (let h' = dangling-IsHeld p held in
          rw (h'.scheme, h'.user, h'.password, h'.host, h'.port, h'.path, h'.query, pointer_held v))
