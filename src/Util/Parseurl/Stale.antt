-- ===== src/Util/Parseurl/Stale.antt =====
-- src/util/parseurl.c: `parseurl_parse` frees the old text and leaves the pointers into it.
use lib_open_rtmp.Base.{
  ℕ, ◌+◌, Bool, true, false, ◌||◌, Option, none, some, List, ◌≡◌, refl, ap, ◌∙◌, arith, length,
}
use lib_open_rtmp.Util.Parseurl.Parser.{
  Part, owned, freed, Parser, PartId, pointee, digits, is_null, is_freed, is_blank, free_part,
  free_allocated, verify_parts, verify, parseurl_parse,
}
use lib_open_rtmp.Util.Parseurl.Text.{Parts, to_url, url_text}
use lib_open_rtmp.Util.Parseurl.Proper.{IsScheme, IsFilePath, IsProper, found_or, assign}
use lib_open_rtmp.Util.Parseurl.RoundTrip.{
  parseurl_parse-assign, Lacks, found_or-free_part, authority_digits, authority_named, not_freed,
}

found_scheme : (o : Option (List ℕ)) (old : Part) → IsScheme o → is_null (found_or o old) ≡ false
found_scheme none old h = absurd h
found_scheme (some t) old h = refl

found_path :
    (host o : Option (List ℕ)) (old : Part) → IsFilePath host o → is_null (found_or o old) ≡ false
found_path host none old h = absurd h
found_path host (some t) old h = refl

or_true : (a b c d e f g h : Bool) → h ≡ true → (a || b || c || d || e || f || g || h) ≡ true
or_true a b c d e f g h k = ground arith

module _ (room : ℕ → Bool) (p : Parser) (ps : Parts) (enforce : PartId) where
  verify-assign :
      IsProper ps
      → Lacks ps.user p.user
      → Lacks ps.port p.port
      → verify false enforce (assign ps (free_allocated p))
        ≡ some (true, record (assign ps (free_allocated p)) { url = none })
  unfolding verify verify_parts free_allocated
  verify-assign v u o =
      let e = found_or-free_part ps.user p.user u in
      rw
        (
          ap is_freed e ∙ not_freed ps.user,
          ap (λ x. is_blank (pointee x)) e
              ∙ authority_named ps.host ps.user ps.password ps.port v.authority,
          found_scheme ps.scheme (free_part p.scheme) v.scheme,
          found_path ps.host ps.path (free_part p.path) v.path,
        )
        (rw (
          ap digits (found_or-free_part ps.port p.port o)
          ∙ authority_digits ps.host ps.user ps.password ps.port v.authority))

  -- When a parser has a fragment and then parses a proper URL without one, which it accepts, the
  -- pointer to the old fragment stays and leads to freed memory, and the text of the URL cannot be
  -- built any more without reading it.
  pub parseurl_parse_stale :
      (t : List ℕ)
      → IsProper ps
      → Lacks ps.user p.user
      → Lacks ps.port p.port
      → p.fragment ≡ owned t
      → ps.fragment ≡ none
      → room (3 + length (url_text ps)) ≡ true
      → (q : Parser) × (parseurl_parse room p (some (url_text ps)) enforce ≡ some (true, q))
        × (q.fragment ≡ freed)
        × (to_url room q ≡ none)
  unfolding to_url free_allocated
  parseurl_parse_stale t v u o f n r =
      let q = record (assign ps (free_allocated p)) { url = none } in
      let e : q.fragment ≡ freed = rw (n, f) in
      (
        q,
        parseurl_parse-assign room p ps enforce v r ∙ verify-assign v u o,
        e,
        rw (
            or_true (is_freed q.scheme) (is_freed q.user) (is_freed q.password) (is_freed q.host)
              (is_freed q.port) (is_freed q.path) (is_freed q.query) (is_freed q.fragment)
              (ap is_freed e)),
      )
