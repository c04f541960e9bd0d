-- ===== src/Util/Parseurl/Proper.antt =====
-- src/util/parseurl.c: the parts that a URL can be put together from and taken apart into again.
use lib_open_rtmp.Base.{ℕ, Bool, true, false, Option, none, some, List, [], ◌∷◌, ◌≡◌, ◌==◌}
use lib_open_rtmp.Util.Parseurl.{is_alpha, slash, question, hash, at_sign}
use lib_open_rtmp.Util.Parseurl.Parser.{Part, owned, Parser, any_space, all_digits}
use lib_open_rtmp.Util.Parseurl.Text.{Parts, url_text}
use lib_open_rtmp.Util.Parseurl.Find.{avoids, marks, all_scheme_chars}

abbrev pub IsScheme : Option (List ℕ) → Type 0
IsScheme none = ⊥
IsScheme (some []) = ⊥
IsScheme (some (c ∷ cs)) = (is_alpha c ≡ true) × (all_scheme_chars cs ≡ true)

-- A host in brackets is left out.
abbrev pub starts_with_bracket : List ℕ → Bool
starts_with_bracket [] = false
starts_with_bracket (c ∷ cs) = c == 91

abbrev pub ends : List ℕ
ends = at_sign ∷ slash ∷ question ∷ hash ∷ []

abbrev pub IsPassword : Option (List ℕ) → Type 0
IsPassword none = Unit {0}
IsPassword (some t) = avoids ends t ≡ true

-- A password needs a user, and a user has a character.
abbrev pub IsUser : Option (List ℕ) → Option (List ℕ) → Type 0
IsUser none password = password ≡ none
IsUser (some []) password = ⊥
IsUser (some (c ∷ cs)) password = (avoids marks (c ∷ cs) ≡ true) × IsPassword password

abbrev pub IsPort : Option (List ℕ) → Type 0
IsPort none = Unit {0}
IsPort (some []) = ⊥
IsPort (some (c ∷ cs)) = all_digits (c ∷ cs) ≡ true

-- User, password and port need a host.
abbrev pub IsAuthority :
    Option (List ℕ) → Option (List ℕ) → Option (List ℕ) → Option (List ℕ) → Type 0
IsAuthority none user password port = (user ≡ none) × (password ≡ none) × (port ≡ none)
IsAuthority (some h) user password port =
    (avoids marks h ≡ true) × (starts_with_bracket h ≡ false) × IsUser user password × IsPort port

abbrev pub starts_with_slash : List ℕ → Bool
starts_with_slash [] = false
starts_with_slash (c ∷ cs) = c == slash

-- The path starts with a slash; without a host, with no more than one.
abbrev pub IsFilePath : Option (List ℕ) → Option (List ℕ) → Type 0
IsFilePath host none = ⊥
IsFilePath host (some []) = ⊥
IsFilePath none (some (c ∷ cs)) =
    (c ≡ slash) × (avoids (question ∷ hash ∷ []) cs ≡ true) × (starts_with_slash cs ≡ false)
IsFilePath (some h) (some (c ∷ cs)) = (c ≡ slash) × (avoids (question ∷ hash ∷ []) cs ≡ true)

abbrev pub IsQuery : Option (List ℕ) → Type 0
IsQuery none = Unit {0}
IsQuery (some t) = avoids (hash ∷ []) t ≡ true

-- No blanks stand anywhere; the fragment is not restricted further.
pub record IsProper (ps : Parts) : Type 0 where
  pub scheme : IsScheme ps.scheme
  pub authority : IsAuthority ps.host ps.user ps.password ps.port
  pub path : IsFilePath ps.host ps.path
  pub query : IsQuery ps.query
  pub no_blanks : any_space (url_text ps) ≡ false

-- A part that was found takes the place of the old one.
abbrev pub found_or : Option (List ℕ) → Part → Part
found_or none old = old
found_or (some t) old = owned t

abbrev pub assign : Parts → Parser → Parser
assign ps out = record out {
  scheme = found_or ps.scheme out.scheme;
  user = found_or ps.user out.user;
  password = found_or ps.password out.password;
  host = found_or ps.host out.host;
  port = found_or ps.port out.port;
  path = found_or ps.path out.path;
  query = found_or ps.query out.query;
  fragment = found_or ps.fragment out.fragment;
}
