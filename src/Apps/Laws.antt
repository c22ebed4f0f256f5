-- ===== src/Apps/Laws.antt =====
-- What the handlers of internal/services/apps/containerapps.go promise of empty strings, of the state
-- of an app and of its secrets.
use mathlib.Core.Bool.{false≢true}
use miniblue.Prelude.{
  arith, not, String, Bool, true, ◌≡◌, refl, ap, some, ◌==◌, ◌&&◌, List, [], ◌∷◌, eq_refl,
  Bool-cases, inl, inr,
}
use miniblue.Store
use miniblue.Store.{Store}
use miniblue.Store.Laws.{get-set_same}
use miniblue.Value.{
  Value, Fields, Items, str, array, maps, obj, no_fields, field, no_items, item, lookup_field,
  set_field, dict,
}
use miniblue.Http.{json_response}
use miniblue.Arm.{object_or, properties_of, get_resource}
use miniblue.Arm.Properties.{lookup-set_same}
use miniblue.Apps.{
  sanitize_empty_strings, sanitize_fields, sanitize_items, container_app_key, state_set, set_state,
  start_container_app, stop_container_app, get_container_app,
}
use miniblue.Apps.Secrets.{
  secrets_of, shown_secrets, secrets_listed, secrets_stored, secrets_created, map_items,
  list_container_app_secrets, create_container_app_secrets,
}

-- no empty string in a value, as deep as sanitizeEmptyStrings looks
mutual
  pub is_clean : Value → Bool
  is_clean (obj fs) = are_clean_fields fs
  is_clean (array vs) = are_clean_items vs
  is_clean (str t) = not (t == "")
  is_clean v = true

  pub are_clean_fields : Fields → Bool
  are_clean_fields no_fields = true
  are_clean_fields (field k v rest) = is_clean v && are_clean_fields rest

  pub are_clean_items : Items → Bool
  are_clean_items no_items = true
  are_clean_items (item v rest) = is_clean v && are_clean_items rest

mutual
  unfolding sanitize_empty_strings is_clean

  sanitize-is_clean : (v : Value) → is_clean (sanitize_empty_strings v) ≡ true
  sanitize-is_clean (str t) = elim (Bool-cases (t == "")) [
    | inl e ↦ rw e refl
    | inr e ↦ rw (e, e) refl
  ]
  sanitize-is_clean (obj fs) = sanitize_fields-are_clean fs
  sanitize-is_clean (array vs) = sanitize_items-are_clean vs
  sanitize-is_clean _ = refl

  sanitize_fields-are_clean : (fs : Fields) → are_clean_fields (sanitize_fields fs) ≡ true
  sanitize_fields-are_clean no_fields = refl
  sanitize_fields-are_clean (field k v rest) =
      rw (sanitize-is_clean v) (sanitize_fields-are_clean rest)

  sanitize_items-are_clean : (vs : Items) → are_clean_items (sanitize_items vs) ≡ true
  sanitize_items-are_clean no_items = refl
  sanitize_items-are_clean (item v rest) = rw (sanitize-is_clean v) (sanitize_items-are_clean rest)

both : {a b : Bool} → (a && b) ≡ true → (a ≡ true) × (b ≡ true)
both {a} {b} h = ground (arith, h)

mutual
  unfolding sanitize_empty_strings is_clean

  sanitize-of_clean : (v : Value) → is_clean v ≡ true → sanitize_empty_strings v ≡ v
  sanitize-of_clean (str t) h = elim (Bool-cases (t == "")) [
    | inl e ↦ absurd (false≢true (rw e at h))
    | inr e ↦ rw e refl
  ]
  sanitize-of_clean (obj fs) h = ap obj (sanitize_fields-of_clean fs h)
  sanitize-of_clean (array vs) h = ap array (sanitize_items-of_clean vs h)
  sanitize-of_clean _ h = refl

  sanitize_fields-of_clean : (fs : Fields) → are_clean_fields fs ≡ true → sanitize_fields fs ≡ fs
  sanitize_fields-of_clean no_fields h = refl
  sanitize_fields-of_clean (field k v rest) h =
      let (a, b) = both h in rw (sanitize-of_clean v a, sanitize_fields-of_clean rest b) refl

  sanitize_items-of_clean : (vs : Items) → are_clean_items vs ≡ true → sanitize_items vs ≡ vs
  sanitize_items-of_clean no_items h = refl
  sanitize_items-of_clean (item v rest) h =
      let (a, b) = both h in rw (sanitize-of_clean v a, sanitize_items-of_clean rest b) refl

-- sanitizeEmptyStrings leaves no empty string, changes nothing where there is none, and is the same
-- done twice.
pub sanitize_lem :
    (v : Value)
    → (is_clean (sanitize_empty_strings v) ≡ true)
      × (is_clean v ≡ true → sanitize_empty_strings v ≡ v)
      × (sanitize_empty_strings (sanitize_empty_strings v) ≡ sanitize_empty_strings v)
sanitize_lem v = (
  sanitize-is_clean v,
  sanitize-of_clean v,
  sanitize-of_clean (sanitize_empty_strings v) (sanitize-is_clean v),
)

-- An app is there, with a map of properties: then, after its secrets are created, the list of its
-- secrets is empty, whatever was created.
pub created_unlisted :
    (s : Store Value) (sub rg name : String) (app props : Fields) (given : List Fields)
    → Store.get s (container_app_key sub rg name) ≡ some (obj app)
    → lookup_field "properties" app ≡ some (obj props)
    → list_container_app_secrets (create_container_app_secrets s sub rg name given).0 sub rg name
      ≡ some (json_response 200 (dict (("value", maps no_items) ∷ [])))
unfolding list_container_app_secrets create_container_app_secrets secrets_created secrets_stored
    secrets_listed secrets_of shown_secrets object_or properties_of
created_unlisted s sub rg name app props given h hp =
    let config =
      set_field "secrets" (maps (map_items given))
        (object_or no_fields (lookup_field "configuration" props)) in
    let props' = set_field "configuration" (obj config) props in
    rw
      (
        h,
        hp,
        get-set_same s (container_app_key sub rg name)
            (obj (set_field "properties" (obj props') app)),
        lookup-set_same "properties" (obj props') app,
        lookup-set_same "configuration" (obj config) props,
        lookup-set_same "secrets" (maps (map_items given))
            (object_or no_fields (lookup_field "configuration" props)),
      )
      refl

set_field-twice :
    (k : String) (v w : Value) (m : Fields) → set_field k w (set_field k v m) ≡ set_field k w m
unfolding set_field
set_field-twice k v w no_fields = rw (eq_refl k) refl
set_field-twice k v w (field j u rest) = elim (Bool-cases (j == k)) [
  | inl e ↦ rw (e, eq_refl k) refl
  | inr e ↦ rw (e, e, set_field-twice k v w rest) refl
]

-- An app is there, with a map of properties: then it is stopped and started like it is started, and
-- the answer of the start is what a read shows.
pub start-stop :
    (s : Store Value) (sub rg name : String) (app props : Fields)
    → Store.get s (container_app_key sub rg name) ≡ some (obj app)
    → lookup_field "properties" app ≡ some (obj props)
    → ((start_container_app (stop_container_app s sub rg name).0 sub rg name).1
        ≡ (start_container_app s sub rg name).1)
      × (start_container_app s sub rg name).1
        ≡ some (get_container_app (start_container_app s sub rg name).0 sub rg name)
unfolding start_container_app stop_container_app set_state state_set get_container_app get_resource
start-stop s sub rg name app props h hp =
    let k = container_app_key sub rg name in
    let degraded = set_field "provisioningState" (str "Degraded") props in
    let running = set_field "provisioningState" (str "Succeeded") props in
    (
      rw
          (
            h,
            hp,
            get-set_same s k (obj (set_field "properties" (obj degraded) app)),
            lookup-set_same "properties" (obj degraded) app,
            set_field-twice "provisioningState" (str "Degraded") (str "Succeeded") props,
            set_field-twice "properties" (obj degraded) (obj running) app,
          )
          refl,
      rw (h, hp, get-set_same s k (obj (set_field "properties" (obj running) app))) refl,
    )
