-- ===== src/Apps/Secrets.antt =====
-- internal/services/apps/containerapps.go: the secrets of a container app, its token and its domain.
-- `given` is what Decode leaves in the slice of the body.
use miniblue.Prelude.{String, true, Option, none, some, ◌++◌, List, [], ◌∷◌, is_some, if◌then◌else◌}
use miniblue.Store
use miniblue.Store.{Store}
use miniblue.Value.{
  Value, Fields, Items, nil, bool, str, array, maps, obj, no_fields, no_items, item, dict,
  lookup_field, set_field,
}
use miniblue.Http.{Response, json_response, not_found}
use miniblue.Arm.{any_of, string_or, object_or, properties_of}
use miniblue.Apps.{type, container_app_key}

unfoldable pub shown_secret : Fields → Value
unfolding any_of lookup_field
shown_secret secret = dict (
    ("name", any_of (lookup_field "name" secret))
    ∷ ("value", str "***")
    ∷ ("type", any_of (lookup_field "type" secret))
    ∷ [])

unfoldable pub shown_secrets : Items → Items
shown_secrets no_items = no_items
shown_secrets (item (obj secret) rest) = item (shown_secret secret) (shown_secrets rest)
shown_secrets (item v rest) = shown_secrets rest

-- `config["secrets"].([]any)`
unfoldable pub secrets_of : Option Value → Items
secrets_of (some (array vs)) = vs
secrets_of _ = no_items

unfoldable pub secrets_listed : (name : String) → Option Value → Option Response
unfolding secrets_of lookup_field object_or properties_of
secrets_listed name none = some (not_found type name)
secrets_listed name (some (obj app)) =
    let config = object_or no_fields (lookup_field "configuration" (properties_of app)) in
    some (
      json_response 200
        (dict (("value", maps (shown_secrets (secrets_of (lookup_field "secrets" config)))) ∷ [])))
secrets_listed name (some v) = none

unfoldable pub list_container_app_secrets : Store Value → (sub rg name : String) → Option Response
unfolding secrets_listed
list_container_app_secrets s sub rg name =
    secrets_listed name (Store.get s (container_app_key sub rg name))

unfoldable pub map_items : List Fields → Items
map_items [] = no_items
map_items (m ∷ ms) = item (obj m) (map_items ms)

-- A nil slice is encoded as null.
unfoldable pub created_secrets : List Fields → Value
unfolding map_items shown_secrets
created_secrets [] = nil
created_secrets ms = maps (shown_secrets (map_items ms))

unfoldable pub secrets_stored :
    Store Value
    → (key : String) → (given : List Fields) → (app : Fields) → Option Value
    → Store Value × Option Response
unfolding set_field lookup_field object_or created_secrets map_items
secrets_stored s key given app (some (obj props)) =
    let config = object_or no_fields (lookup_field "configuration" props) in
    let config' = set_field "secrets" (maps (map_items given)) config in
    let props' = set_field "configuration" (obj config') props in
    (
      Store.set s key (obj (set_field "properties" (obj props') app)),
      some (json_response 200 (dict (("value", created_secrets given) ∷ []))),
    )
secrets_stored s key given app _ = (s, none)

unfoldable pub secrets_created :
    Store Value
    → (key name : String) → (given : List Fields) → Option Value
    → Store Value × Option Response
unfolding secrets_stored lookup_field
secrets_created s key name given none = (s, some (not_found type name))
secrets_created s key name given (some (obj app)) =
    secrets_stored s key given app (lookup_field "properties" app)
secrets_created s key name given (some v) = (s, none)

unfoldable pub create_container_app_secrets :
    Store Value → (sub rg name : String) → List Fields → Store Value × Option Response
unfolding secrets_created
create_container_app_secrets s sub rg name given =
    let key = container_app_key sub rg name in secrets_created s key name given (Store.get s key)

unfoldable pub get_auth_token : Store Value → (sub rg name : String) → Response
get_auth_token s sub rg name =
    if is_some (Store.get s (container_app_key sub rg name))
    then json_response 200 (
        dict (
          ("token", str "eyJhbGciOiJIUzI1NiIsInR5cCI6IkpXVCJ9.miniblue-token")
          ∷ ("expiresOn", str "2027-01-01T00:00:00Z")
          ∷ ("containerAppName", str name)
          ∷ []))
    else not_found type name

unfoldable pub analyze_custom_domain : Store Value → (sub rg name : String) → Fields → Response
unfolding string_or lookup_field ◌++◌
analyze_custom_domain s sub rg name input =
    if is_some (Store.get s (container_app_key sub rg name))
    then json_response 200 (
        dict (
          (
            "hostname",
            str (string_or (name ++ ".custom.example.com") (lookup_field "hostname" input)),
          )
          ∷ ("isApiHostname", bool true)
          ∷ ("isSslEnabled", bool true)
          ∷ ("customDomainVerificationResult", str "Verified")
          ∷ ("certificateNotAfter", str "2027-01-01T00:00:00Z")
          ∷ []))
    else not_found type name
