-- ===== src/Rtmp/App/Names.antt =====
-- src/rtmp/rtmp_app.c: the list of applications as a map from names.
use lib_open_rtmp.Base.{
  ℕ, suc, ◌≡◌, refl, sym, ap, ◌∙◌, subst, ◌⊎◌, inl, inr, Bool, true, false, Option, none, some,
  List, [], ◌∷◌, ◌++◌, eq→==, if◌then◌else◌, length, Bool-cases,
}
use lib_open_rtmp.Rtmp.App.{
  App, AppList, Memory, new_app, same_string, shift, app_list_get, app_list_register,
}

same_string_refl : (name : List ℕ) → same_string name name ≡ true
unfolding same_string
same_string_refl [] = refl
same_string_refl (x ∷ xs) = rw (eq→== {a = x} refl) (same_string_refl xs)

abbrev or_else : Option ℕ → Option ℕ → Option ℕ
or_else none e = e
or_else (some i) e = some i

abbrev at_end : AppList → List ℕ → App → Option ℕ
unfolding same_string
at_end apps name app = if same_string name app.name then some (length apps) else none

app_list_get-append :
    (apps : AppList) (app : App) (name : List ℕ)
    → app_list_get (apps ++ app ∷ []) name ≡ or_else (app_list_get apps name) (at_end apps name app)
unfolding app_list_get at_end
app_list_get-append [] app name = refl
app_list_get-append (a ∷ apps) app name = elim (Bool-cases (same_string name a.name)) [
  | inl e ↦ rw e refl
  | inr e ↦ rw e (
      ap shift (app_list_get-append apps app name)
      ∙ shifted (app_list_get apps name) (same_string name app.name))
]
  where
    shifted :
        (o : Option ℕ) (same : Bool)
        → shift (or_else o (if same then some (length apps) else none))
          ≡ or_else (shift o) (if same then some (suc (length apps)) else none)
    shifted none true = refl
    shifted none false = refl
    shifted (some i) same = refl

abbrev pub enough_memory : Memory
enough_memory = record { for_app = true; for_name = true; for_list = true }

Found-cases : (o : Option ℕ) → (o ≡ none) ⊎ ((i : ℕ) × (o ≡ some i))
Found-cases none = inl refl
Found-cases (some i) = inr (i, refl)

-- What a list of applications answers after an application was registered under a name.
unfoldable pub Registered : AppList → List ℕ → Option ℕ × AppList → Type 0
unfolding app_list_get app_list_register same_string
Registered apps name (found, after) =
    ((i : ℕ) × (found ≡ some i))
    × (app_list_get after name ≡ found)
    × ((memory : Memory) → app_list_register memory after name ≡ (found, after))
    × ((other : List ℕ)
        → same_string other name ≡ false
        → app_list_get after other ≡ app_list_get apps other)

again :
    (memory : Memory) (apps : AppList) (name : List ℕ) (i : ℕ)
    → app_list_get apps name ≡ some i
    → app_list_register memory apps name ≡ (some i, apps)
unfolding app_list_register
again memory apps name i e = rw (app_list_register, e) refl

-- With memory, an application is registered: its name is found from then on, to register it once
-- more gives the same application and changes nothing, and the other names keep their applications.
pub app_list_register-Registered :
    (apps : AppList) (name : List ℕ)
    → Registered apps name (app_list_register enough_memory apps name)
unfolding Registered app_list_register at_end
app_list_register-Registered apps name = elim (Found-cases (app_list_get apps name)) [
  | inr (i, e) ↦
      subst (Registered apps name) (sym (again enough_memory apps name i e))
        ((i, refl), e, (λ memory. again memory apps name i e), (λ other h. refl))
  | inl e ↦ subst (Registered apps name) (sym (added e)) (
    (length apps, refl),
    found e,
    (λ memory. again memory extended name (length apps) (found e)),
    (λ other h.
        app_list_get-append apps (new_app name) other ∙ rw h (kept (app_list_get apps other))),
  )
]
  where
    extended : AppList
    extended = apps ++ new_app name ∷ []

    added :
        app_list_get apps name ≡ none
        → app_list_register enough_memory apps name ≡ (some (length apps), extended)
    added e = rw (app_list_register, e) refl

    found : app_list_get apps name ≡ none → app_list_get extended name ≡ some (length apps)
    found e = app_list_get-append apps (new_app name) name ∙ rw (e, same_string_refl name) refl

    kept : (o : Option ℕ) → or_else o none ≡ o
    kept none = refl
    kept (some i) = refl
