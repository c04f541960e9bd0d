-- ===== src/Util/Parseurl/Held.antt =====
-- src/util/parseurl.c: what holds of the parts while a URL is parsed; the user and the port are not
-- freed.
use lib_open_rtmp.Base.{
  ℕ, Bool, true, false, Option, none, some, List, [], ◌∷◌, ◌≡◌, ◌≢◌, refl, arith, Bool-cases, inl,
  inr, ◌==◌,
}
use lib_open_rtmp.Util.Parseurl.{
  has_authority, parseurl_user, parseurl_password, parseurl_host, parseurl_port, parseurl_path,
  parseurl_query, question, hash, colon,
}
use lib_open_rtmp.Util.Parseurl.Parser.{
  Part, unset, owned, borrowed, freed, Parser, PartId, is_strict, is_forgiving, pointee, is_freed,
  is_blank, digits, set_port, skip_slashes, parse_port, behind_host, parse_host, parse_password,
  parse_user, parse_authority, verify_parts, verify, parse_query, behind_path, parse_path,
  behind_authority, behind_scheme, scheme_cases,
}

-- A property that setting a part from the text keeps. The scheme is set apart from the others.
pub record Stable (P : Parser → Type 0) : Type 0 where
  pub user : (p : Parser) (t : List ℕ) → P p → P (record p { user = owned t })
  pub password : (p : Parser) (t : List ℕ) → P p → P (record p { password = owned t })
  pub host : (p : Parser) (t : List ℕ) → P p → P (record p { host = owned t })
  pub port : (p : Parser) (t : List ℕ) → P p → P (record p { port = owned t })
  pub path : (p : Parser) (t : List ℕ) → P p → P (record p { path = owned t })
  pub query : (p : Parser) (t : List ℕ) → P p → P (record p { query = owned t })
  pub fragment : (p : Parser) (t : List ℕ) → P p → P (record p { fragment = owned t })

-- A property of either result of a search holds of the one that is taken.
by_cases :
    {A B : Type 0} (P : B → Type 0) (o : Option A) (n : B) (f : A → B)
    → P n
    → ((a : A) → P (f a))
    → P (elim o [ none ↦ n | some a ↦ f a ])
by_cases P none n f p q = p
by_cases P (some a) n f p q = q a

module _ (P : Parser → Type 0) (kept : Stable P) where
  set_port_keeps : (port : List ℕ) (p : Parser) → P p → P (set_port port p)
  set_port_keeps [] p h = h
  set_port_keeps (c ∷ cs) p h = kept.port p (c ∷ cs) h

  parse_port_keeps : (p : Parser) (rest : List ℕ) → P p → P (parse_port p rest).0
  unfolding parse_port
  parse_port_keeps p rest h =
      by_cases (λ (r : Parser × Option (List ℕ)). P r.0) (parseurl_port rest)
        (set_port rest p, some []) (λ a. (set_port a.0 p, some a.1)) (set_port_keeps rest p h)
        (λ a. set_port_keeps a.0 p h)

  behind_host_keeps : (p : Parser) (found : List ℕ) → P p → P (behind_host p found).0
  unfolding behind_host
  behind_host_keeps p [] h = h
  behind_host_keeps p (sep ∷ rest) h = elim (Bool-cases (sep == colon)) [
    | inl e ↦ rw e (parse_port_keeps p rest h)
    | inr e ↦ rw e h
  ]

  parse_host_keeps : (at : Parser × List ℕ) → P at.0 → P (parse_host at).0
  unfolding parse_host
  parse_host_keeps (p, buf) h =
      by_cases (λ (r : Parser × Option (List ℕ)). P r.0) (parseurl_host buf)
        (record p { host = owned buf }, none) (λ a. behind_host (record p { host = owned a.0 }) a.1)
        (kept.host p buf h)
        (λ a. behind_host_keeps (record p { host = owned a.0 }) a.1 (kept.host p a.0 h))

  parse_password_keeps : (p : Parser) (buf : List ℕ) → P p → P (parse_password p buf).0
  unfolding parse_password
  parse_password_keeps p buf h =
      by_cases (λ (r : Parser × List ℕ). P r.0) (parseurl_password buf) (p, buf)
        (λ a. (record p { password = owned a.0 }, a.1)) h (λ a. kept.password p a.0 h)

  parse_user_keeps : (p : Parser) (buf : List ℕ) → P p → P (parse_user p buf).0
  unfolding parse_user
  parse_user_keeps p buf h =
      by_cases (λ (r : Parser × List ℕ). P r.0) (parseurl_user buf) (p, buf)
        (λ a. parse_password (record p { user = owned a.0 }) a.1) h
        (λ a. parse_password_keeps (record p { user = owned a.0 }) a.1 (kept.user p a.0 h))

  pub parse_authority_keeps :
      (enforce : PartId) (p : Parser) (buf : List ℕ) → P p → P (parse_authority enforce p buf).0
  unfolding parse_authority
  parse_authority_keeps enforce p buf h =
      by_cases (λ (r : Parser × Option (List ℕ)). P r.0) (skip_slashes enforce buf) (p, none)
        (λ a. parse_host (parse_user p a)) h
        (λ a. parse_host_keeps (parse_user p a) (parse_user_keeps p a h))

  parse_query_keeps : (p : Parser) (buf : List ℕ) → P p → P (parse_query p buf)
  unfolding parse_query
  parse_query_keeps p buf h =
      by_cases P (parseurl_query buf) (record p { query = owned buf })
        (λ a. record p { query = owned a.0; fragment = owned a.1 }) (kept.query p buf h)
        (λ a. kept.fragment (record p { query = owned a.0 }) a.1 (kept.query p a.0 h))

  behind_path_keeps : (p : Parser) (found : List ℕ) → P p → P (behind_path p found)
  unfolding behind_path
  behind_path_keeps p [] h = h
  behind_path_keeps p (sep ∷ rest) h = elim (Bool-cases (sep == question)) [
    | inl e ↦ rw e (parse_query_keeps p rest h)
    | inr e ↦
        rw e (elim (Bool-cases (sep == hash)) [
          | inl f ↦ rw f (kept.fragment p rest h)
          | inr f ↦ rw f h
        ])
  ]

  pub parse_path_keeps : (p : Parser) (buf : List ℕ) → P p → P (parse_path p buf)
  unfolding parse_path
  parse_path_keeps p buf h =
      by_cases P (parseurl_path buf) (record p { path = owned buf })
        (λ a. behind_path (record p { path = owned a.0 }) a.1) (kept.path p buf h)
        (λ a. behind_path_keeps (record p { path = owned a.0 }) a.1 (kept.path p a.0 h))

-- The parts that the check at the end reads were not freed.
abbrev pub Held : Parser → Type 0
Held p = (is_freed p.user ≡ false) × (is_freed p.port ≡ false)

Held-Stable : Stable Held
Held-Stable = record {
  user = λ p t h. (refl, h.1);
  password = λ p t h. h;
  host = λ p t h. h;
  port = λ p t h. (h.0, refl);
  path = λ p t h. h;
  query = λ p t h. h;
  fragment = λ p t h. h;
}

unfreed-digits : (x : Part) → is_freed x ≡ false → digits x ≢ none
unfreed-digits unset h e = cc
unfreed-digits (owned t) h e = cc
unfreed-digits (borrowed t) h e = cc
unfreed-digits freed h e = cc

verify_parts-ne-none : (p : Parser) → is_freed p.port ≡ false → verify_parts p ≢ none
unfolding verify_parts
verify_parts-ne-none p h = ground (arith, unfreed-digits p.port h)

pub verify-ne-none :
    (clear : Bool) (enforce : PartId) (p : Parser) → Held p → verify clear enforce p ≢ none
unfolding verify
verify-ne-none true enforce p h = λ e. cc
verify-ne-none false enforce p h = rw h.0 (elim (Bool-cases (is_blank (pointee p.user))) [
  | inl b ↦ rw b (elim (Bool-cases (is_strict enforce)) [
    | inl s ↦ rw s (λ e. cc)
    | inr s ↦
        rw s (verify_parts-ne-none (record p { user = unset; password = unset; url = none }) h.1)
  ])
  | inr b ↦ rw b (verify_parts-ne-none (record p { url = none }) h.1)
])

behind_authority-ne-none :
    (enforce : PartId) (found : Parser × Option (List ℕ))
    → Held found.0
    → behind_authority enforce found ≢ none
unfolding behind_authority
behind_authority-ne-none enforce (p, none) h = verify-ne-none true enforce p h
behind_authority-ne-none enforce (p, some []) h = verify-ne-none false enforce p h
behind_authority-ne-none enforce (p, some (c ∷ cs)) h =
    verify-ne-none false enforce (parse_path p (c ∷ cs))
      (parse_path_keeps Held Held-Stable p (c ∷ cs) h)

pub scheme_cases-ne-none :
    (enforce : PartId) (p : Parser) (buf : List ℕ) (o : Option (List ℕ × List ℕ))
    → Held p
    → scheme_cases enforce p buf o ≢ none
unfolding scheme_cases behind_scheme
scheme_cases-ne-none enforce p buf none h = elim (Bool-cases (is_forgiving enforce)) [
  | inl f ↦ rw f (
      behind_authority-ne-none enforce (parse_authority enforce p buf)
        (parse_authority_keeps Held Held-Stable enforce p buf h))
  | inr f ↦ rw f (verify-ne-none true enforce p h)
]
scheme_cases-ne-none enforce p buf (some (scheme, rest)) h =
    let p' = record p { scheme = owned scheme } in
    elim (Bool-cases (has_authority rest)) [
      | inl a ↦ rw a (
          behind_authority-ne-none enforce (parse_authority enforce p' rest)
            (parse_authority_keeps Held Held-Stable enforce p' rest h))
      | inr a ↦ rw a (
          verify-ne-none false enforce (parse_path p' rest)
            (parse_path_keeps Held Held-Stable p' rest h))
    ]
