-- ===== src/Util/Parseurl/Bounds.antt =====
-- src/util/parseurl.c: the text of a URL fits into the block that is allocated for it.
use lib_open_rtmp.Base.{
  ℕ, ◌+◌, ◌≤◌, ◌<◌, Bool, true, false, ◌&&◌, ◌||◌, not, Option, none, some, List, [], ◌∷◌, ◌++◌,
  ◌≡◌, ◌==◌, length, length-append, arith, ne→not_==,
}
use lib_open_rtmp.Util.Parseurl.{colon, slash, question, hash, at_sign}
use lib_open_rtmp.Util.Parseurl.Text.{
  Parts, url_length, strwrite, strlen_check, mark_if, is_set, lacks_slash, path_text, url_text,
}
use lib_open_rtmp.Util.Parseurl.Proper.{IsScheme, IsProper}

length-strwrite :
    (mark : List ℕ) (o : Option (List ℕ)) (next : List ℕ)
    → length (strwrite mark o next) ≤ length mark + strlen_check o + length next
length-strwrite mark none next = omega arith
length-strwrite mark (some t) next =
    omega (arith, length-append mark (t ++ next), length-append t next)

length-mark_if :
    (b : Bool) (mark next : List ℕ) → length (mark_if b mark next) ≤ length mark + length next
length-mark_if true mark next = omega (arith, length-append mark next)
length-mark_if false mark next = omega arith

length-path_text :
    (ps : Parts)
    → length (path_text ps)
      ≤ 3 + strlen_check ps.path + strlen_check ps.query + strlen_check ps.fragment
unfolding path_text
length-path_text ps =
    let a = strwrite (hash ∷ []) ps.fragment [] in
    let b = strwrite (question ∷ []) ps.query a in
    let c = strwrite [] ps.path b in
    omega (
      arith,
      length-strwrite (hash ∷ []) ps.fragment [],
      length-strwrite (question ∷ []) ps.query a,
      length-strwrite [] ps.path b,
      length-mark_if (not (is_set ps.path) || is_set ps.host && lacks_slash ps.path) (slash ∷ []) c,
    )

-- The text of a URL is no longer than the length that the block is allocated for; the block has
-- one byte more, for the final 0.
pub length-url_text : (ps : Parts) → length (url_text ps) ≤ url_length ps
unfolding url_text url_length
length-url_text ps =
    let a = path_text ps in
    let b = strwrite (colon ∷ []) ps.port a in
    let c = strwrite [] ps.host b in
    let d = mark_if (is_set ps.user || is_set ps.password) (at_sign ∷ []) c in
    let e = strwrite (colon ∷ []) ps.password d in
    let f = strwrite [] ps.user e in
    let g = mark_if (is_set ps.host && is_set ps.scheme) (slash ∷ slash ∷ []) f in
    let k = mark_if (is_set ps.scheme) (colon ∷ []) g in
    omega (
      arith,
      length-path_text ps,
      length-strwrite (colon ∷ []) ps.port a,
      length-strwrite [] ps.host b,
      length-mark_if (is_set ps.user || is_set ps.password) (at_sign ∷ []) c,
      length-strwrite (colon ∷ []) ps.password d,
      length-strwrite [] ps.user e,
      length-mark_if (is_set ps.host && is_set ps.scheme) (slash ∷ slash ∷ []) f,
      length-mark_if (is_set ps.scheme) (colon ∷ []) g,
      length-strwrite [] ps.scheme k,
    )

scheme_pos : (o : Option (List ℕ)) → IsScheme o → 0 < strlen_check o
scheme_pos none h = absurd h
scheme_pos (some []) h = absurd h
scheme_pos (some (c ∷ cs)) h = omega arith

pub url_length-proper : (ps : Parts) → IsProper ps → (url_length ps == 9) ≡ false
unfolding url_length
url_length-proper ps v =
    ne→not_== (λ (e : url_length ps ≡ 9). omega (arith, scheme_pos ps.scheme v.scheme))
