-- ===== src/Server/Filter.antt =====
-- internal/server/server.go: which services the variable SERVICES leaves on.
use mathlib.Core.Bool.{false≢true}
use miniblue.Prelude.{
  String, ◌≡◌, refl, ap, sym, ◌∙◌, Bool, true, false, List, [], ◌∷◌, ◌==◌, ◌&&◌, ◌||◌, arith,
  eq_iff, if◌then◌else◌, Bool-cases, inl, inr,
}
use mathlib.Core.List
use miniblue.Prelude.Lists.{contains}
use miniblue.Prelude.Split.{split}
use miniblue.StorageAuth.Text.{trim_space}
use miniblue.Server.{
  Allowed, service_enabled, names_of, parse_services_filter, filterable, select_services,
  chosen_services, setup_routes,
}

-- a part of the variable is the name, but for spaces around it
abbrev pub names_service : (name : String) → List String → Bool
names_service name [] = false
names_service name (p ∷ ps) = (trim_space p == name) || names_service name ps

contains-names_of :
    (name : String) (ps : List String)
    → (name == "") ≡ false
    → contains name (names_of ps) ≡ names_service name ps
unfolding names_of
contains-names_of name [] h = refl
contains-names_of name (p ∷ ps) h =
    ground
      (arith, contains-names_of name ps h, eq_iff (trim_space p) "", eq_iff (trim_space p) name, h)

contains-select_services :
    (allowed : Allowed) (name : String) (names : List String)
    → contains name (select_services allowed names)
      ≡ (contains name names && service_enabled name allowed)
unfolding select_services
contains-select_services allowed name [] = refl
contains-select_services allowed name (n ∷ ns) =
    ground (arith, contains-select_services allowed name ns, eq_iff n name)

contains-append :
    (name : String) (xs ys : List String)
    → contains name (List.◌++◌ xs ys) ≡ (contains name xs || contains name ys)
contains-append name [] ys = refl
contains-append name (x ∷ xs) ys = ground (arith, contains-append name xs ys)

-- what stands before and after the chosen services is no service of the table
contains-between :
    (name : String) (before chosen after : List String)
    → contains name before ≡ false
    → contains name after ≡ false
    → contains name (List.◌++◌ before (List.◌++◌ chosen after)) ≡ contains name chosen
contains-between name before chosen after h h' = ground (
  arith,
  contains-append name before (List.◌++◌ chosen after),
  contains-append name chosen after,
  h,
  h',
)

outside :
    (x name : String) (names : List String)
    → contains x names ≡ false
    → contains name names ≡ true
    → (x == name) ≡ false
outside x name names h h' = elim (Bool-cases (x == name)) [
  | inl e ↦ absurd (false≢true (sym (rw ((eq_iff x name).0 e) at h) ∙ h'))
  | inr e ↦ e
]

differs_outside :
    (name x : String) (names : List String)
    → contains name names ≡ true
    → contains x names ≡ false
    → (name == x) ≡ false
differs_outside name x names h h' = elim (Bool-cases (name == x)) [
  | inl e ↦ absurd (false≢true (sym h' ∙ (rw ((eq_iff name x).0 e) at h)))
  | inr e ↦ e
]

-- a list of names outside the table, which may be left out
contains-optional :
    (test : Bool) (x name : String)
    → (x == name) ≡ false
    → contains name (if test then x ∷ [] else []) ≡ false
contains-optional true x name h = rw h refl
contains-optional false x name h = refl

service_enabled-filter :
    (env name : String)
    → (name == "") ≡ false
    → service_enabled name (parse_services_filter env)
      ≡ (env == "" || names_service name (split b',' env))
unfolding service_enabled parse_services_filter
service_enabled-filter env name h =
    ground (arith, contains-names_of name (split b',' env) h, Bool-cases (env == ""))

contains-optional_twice :
    (test test' : Bool) (x name : String)
    → (x == name) ≡ false
    → contains name (if test then (if test' then x ∷ [] else []) else []) ≡ false
contains-optional_twice true test' x name h = contains-optional test' x name h
contains-optional_twice false test' x name h = refl

contains-pair :
    (x y name : String)
    → (x == name) ≡ false
    → (y == name) ≡ false
    → contains name (x ∷ y ∷ []) ≡ false
contains-pair x y name h h' = rw (h, h') refl

contains-chosen_services :
    (env name : String)
    → contains name filterable ≡ true
    → contains name (chosen_services (parse_services_filter env))
      ≡ (env == "" || names_service name (split b',' env))
unfolding chosen_services
contains-chosen_services env name there =
    let allowed = parse_services_filter env in
    let named : (name == "") ≡ false = differs_outside name "" filterable there refl in
    contains-select_services allowed name filterable
    ∙ ap (λ b. b && service_enabled name allowed) there
    ∙ service_enabled-filter env name named

-- A service of the table is listed by the health check, and its routes are registered, if and only if
-- SERVICES is empty or one of its parts, cut at commas, is the name with spaces around it.
pub setup_routes-enabled :
    (env name : String)
    → contains name filterable ≡ true
    → (contains name (setup_routes env).services
        ≡ (env == "" || names_service name (split b',' env)))
      × (contains name (setup_routes env).registered
          ≡ (env == "" || names_service name (split b',' env)))
unfolding setup_routes
setup_routes-enabled env name there =
    let allowed = parse_services_filter env in
    let chosen = chosen_services allowed in
    let apart : (x : String) → contains x filterable ≡ false → (x == name) ≡ false =
      λ x h. outside x name filterable h there in
    let enabled = contains-chosen_services env name there in
    let account = apart "storageaccounts" refl in
    (
      contains-between name ("subscriptions" ∷ "tenants" ∷ []) chosen _
            (contains-pair "subscriptions" "tenants" name (apart "subscriptions" refl)
              (apart "tenants" refl))
            (contains-optional_twice _ _ "storageaccounts" name account)
          ∙ enabled,
      contains-between name ("metadata" ∷ "auth" ∷ "subscriptions" ∷ []) chosen _
            (rw (apart "metadata" refl) (
              contains-pair "auth" "subscriptions" name (apart "auth" refl)
                (apart "subscriptions" refl)))
            (contains-optional _ "storageaccounts" name account)
          ∙ enabled,
    )
