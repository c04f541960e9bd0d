-- ===== src/Util/Parseurl/Authority.antt =====
-- src/util/parseurl.c: how the part between the slashes and the path is taken apart.
use lib_open_rtmp.Base.{
  ℕ, true, false, ◌||◌, Option, none, some, List, [], ◌∷◌, ◌++◌, ◌≡◌, refl, ◌==◌, sym, append_assoc,
  arith, subst,
}
use lib_open_rtmp.Util.Parseurl.{
  colon, slash, question, hash, at_sign, is_among, parseurl_user, parseurl_password, parseurl_host,
  parseurl_port,
}
use lib_open_rtmp.Util.Parseurl.Parser.{
  Parser, owned, all_digits, parse_port, behind_host, parse_host, parse_password, parse_user,
}
use lib_open_rtmp.Util.Parseurl.Text.{strwrite, mark_if, is_set}
use lib_open_rtmp.Util.Parseurl.Find.{
  avoids, marks, strpbrk-append, avoids-append, avoids_smaller, all_digits-avoids,
}
use lib_open_rtmp.Util.Parseurl.Proper.{
  starts_with_bracket, ends, IsPassword, IsUser, IsPort, found_or,
}

abbrev host_ends : List ℕ
host_ends = colon ∷ slash ∷ question ∷ hash ∷ []

marks-host_ends : (c : ℕ) → is_among c marks ≡ false → is_among c host_ends ≡ false
unfolding is_among
marks-host_ends c h = ground arith

marks-ends : (c : ℕ) → is_among c marks ≡ false → is_among c ends ≡ false
unfolding is_among
marks-ends c h = ground arith

marks-path : (c : ℕ) → is_among c marks ≡ false → is_among c (slash ∷ question ∷ hash ∷ []) ≡ false
unfolding is_among
marks-path c h = ground arith

marks-user : (c : ℕ) → is_among c marks ≡ false → is_among c (colon ∷ at_sign ∷ []) ≡ false
unfolding is_among
marks-user c h = ground arith

parseurl_host-append :
    (h : List ℕ) (c : ℕ) (rest : List ℕ)
    → avoids marks h ≡ true
    → starts_with_bracket h ≡ false
    → (c == 91) ≡ false
    → is_among c host_ends ≡ true
    → parseurl_host (h ++ (c ∷ rest)) ≡ some (h, c ∷ rest)
unfolding parseurl_host avoids
parseurl_host-append [] c rest a b e m = rw (e, strpbrk-append host_ends [] c rest a m)
parseurl_host-append (x ∷ xs) c rest a b e m = rw (
  b,
  strpbrk-append host_ends (x ∷ xs) c rest
      (avoids_smaller marks host_ends (x ∷ xs) marks-host_ends a) m,
)

parse_port-append :
    (out : Parser) (d : ℕ) (ds t : List ℕ)
    → all_digits (d ∷ ds) ≡ true
    → parse_port out ((d ∷ ds) ++ (slash ∷ t))
      ≡ (record out { port = owned (d ∷ ds) }, some (slash ∷ t))
unfolding is_among parse_port parseurl_port
parse_port-append out d ds t h = rw (
  strpbrk-append (slash ∷ question ∷ hash ∷ []) (d ∷ ds) slash t
      (avoids_smaller marks (slash ∷ question ∷ hash ∷ []) (d ∷ ds) marks-path
        (all_digits-avoids (d ∷ ds) h))
      refl,
  parse_port,
  parseurl_port,
)

-- A host, a port if there is one, and a path are found.
pub parse_host-append :
    (out : Parser) (h : List ℕ) (port : Option (List ℕ)) (t : List ℕ)
    → avoids marks h ≡ true
    → starts_with_bracket h ≡ false
    → IsPort port
    → parse_host (out, h ++ strwrite (colon ∷ []) port (slash ∷ t))
      ≡ (record out { host = owned h; port = found_or port out.port }, some (slash ∷ t))
unfolding parse_host behind_host is_among
parse_host-append out h none t a b p = rw (parseurl_host-append h slash t a b refl refl, parse_host)
parse_host-append out h (some []) t a b p = absurd p
parse_host-append out h (some (d ∷ ds)) t a b p =
    rw (parseurl_host-append h colon ((d ∷ ds) ++ (slash ∷ t)) a b refl refl, parse_host)
      (parse_port-append (record out { host = owned h }) d ds t p)

-- No user and no password stand in front of a host.
pub data NoUser (buf : List ℕ) : Type 0 where
  no_user : parseurl_user buf ≡ none → parseurl_password buf ≡ none → NoUser buf

host-NoUser_at : (front t : List ℕ) → avoids ends front ≡ true → NoUser (front ++ (slash ∷ t))
unfolding parseurl_user parseurl_password is_among
host-NoUser_at front t a = let e = strpbrk-append ends front slash t a refl in no_user (rw e) (rw e)

pub host-NoUser :
    (h : List ℕ) (port : Option (List ℕ)) (t : List ℕ)
    → avoids marks h ≡ true
    → IsPort port
    → NoUser (h ++ strwrite (colon ∷ []) port (slash ∷ t))
unfolding avoids is_among
host-NoUser h none t a p = host-NoUser_at h t (avoids_smaller marks ends h marks-ends a)
host-NoUser h (some []) t a p = absurd p
host-NoUser h (some (d ∷ ds)) t a p = subst NoUser (append_assoc h (colon ∷ d ∷ ds) (slash ∷ t)) (
    host-NoUser_at (h ++ (colon ∷ d ∷ ds)) t (
      avoids-append ends h (colon ∷ d ∷ ds) (avoids_smaller marks ends h marks-ends a)
        (avoids_smaller marks ends (d ∷ ds) marks-ends (all_digits-avoids (d ∷ ds) p))))

parse_password-append :
    (out : Parser) (w rest : List ℕ)
    → avoids ends w ≡ true
    → parse_password out (w ++ (at_sign ∷ rest)) ≡ (record out { password = owned w }, rest)
unfolding is_among parse_password parseurl_password
parse_password-append out w rest a =
    rw (strpbrk-append ends w at_sign rest a refl, parse_password, parseurl_password)

-- What `parseurl_user` finds up to the sign, with a password or without.
parseurl_user-append :
    (u : List ℕ) (password : Option (List ℕ)) (rest : List ℕ)
    → avoids marks u ≡ true
    → IsPassword password
    → parseurl_user (u ++ strwrite (colon ∷ []) password (at_sign ∷ rest))
      ≡ some (u, strwrite [] password (mark_if (is_set password) (at_sign ∷ []) rest))
unfolding parseurl_user is_among avoids
parseurl_user-append u none rest a p = rw (
  strpbrk-append ends u at_sign rest (avoids_smaller marks ends u marks-ends a) refl,
  strpbrk-append (colon ∷ at_sign ∷ []) u at_sign rest
      (avoids_smaller marks (colon ∷ at_sign ∷ []) u marks-user a) refl,
)
parseurl_user-append u (some w) rest a p = rw (
  sym (append_assoc u (colon ∷ w) (at_sign ∷ rest)),
  strpbrk-append ends (u ++ (colon ∷ w)) at_sign rest
      (avoids-append ends u (colon ∷ w) (avoids_smaller marks ends u marks-ends a) p) refl,
  append_assoc u (colon ∷ w) (at_sign ∷ rest),
  strpbrk-append (colon ∷ at_sign ∷ []) u colon (w ++ (at_sign ∷ rest))
      (avoids_smaller marks (colon ∷ at_sign ∷ []) u marks-user a) refl,
)

-- A user, a password if there is one, and the sign behind them are found, and the rest is left.
pub parse_user-append :
    (out : Parser) (user password : Option (List ℕ)) (rest : List ℕ)
    → NoUser rest
    → IsUser user password
    → parse_user out (
        strwrite [] user (
          strwrite
            (colon ∷ [])
            password
            (mark_if (is_set user || is_set password) (at_sign ∷ []) rest)))
      ≡ (
        record out { user = found_or user out.user; password = found_or password out.password },
        rest,
      )
unfolding parse_user parse_password
parse_user-append out none none rest (no_user e f) p = rw (e, parse_user)
parse_user-append out none (some w) rest n p = cc
parse_user-append out (some []) password rest n p = absurd p
parse_user-append out (some (c ∷ cs)) none rest (no_user e f) p =
    rw (parseurl_user-append (c ∷ cs) none rest p.0 p.1, parse_user) (rw (f, parse_password))
parse_user-append out (some (c ∷ cs)) (some w) rest n p =
    rw (parseurl_user-append (c ∷ cs) (some w) rest p.0 p.1, parse_user)
      (parse_password-append (record out { user = owned (c ∷ cs) }) w rest p.1)
