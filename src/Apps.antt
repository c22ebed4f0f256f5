-- ===== src/Apps.antt =====
-- internal/services/apps/containerapps.go: container apps. `input` is what Decode leaves in the
-- variable. A handler changes the map that it reads from the store, so a panic keeps what was written
-- before it: `none` is a panic, beside the store that it leaves.
pub mod Patch
pub mod Secrets
pub mod Environments
pub mod Jobs
pub mod Laws
pub mod Panics
pub mod Runs
use miniblue.Prelude.{String, true, Option, none, some, ◌++◌, [], ◌∷◌, ◌==◌, is_some, if◌then◌else◌}
use miniblue.Store
use miniblue.Store.{Store}
use miniblue.Value.{
  Value, Fields, Items, nil, bool, int, str, array, obj, no_fields, field, no_items, item, dict,
  slice, lookup_field, set_field, as_object, string_or_empty,
}
use miniblue.Http.{Response, json_response, not_found}
use miniblue.Arm.{
  any_of, object_or, string_or, properties_of, location_of, tags_of, resource_id, put_resource,
  get_resource, delete_resource, list_resources,
}

abbrev pub type : String
type = "Microsoft.App/containerApps"

unfoldable mutual
  pub sanitize_empty_strings : Value → Value
  sanitize_empty_strings (obj fs) = obj (sanitize_fields fs)
  sanitize_empty_strings (array vs) = array (sanitize_items vs)
  sanitize_empty_strings (str t) = if t == "" then nil else str t
  sanitize_empty_strings v = v

  pub sanitize_fields : Fields → Fields
  sanitize_fields no_fields = no_fields
  sanitize_fields (field k v rest) = field k (sanitize_empty_strings v) (sanitize_fields rest)

  pub sanitize_items : Items → Items
  sanitize_items no_items = no_items
  sanitize_items (item v rest) = item (sanitize_empty_strings v) (sanitize_items rest)

unfoldable pub container_app_key : (sub rg name : String) → String
unfolding ◌++◌
container_app_key sub rg name = "containerapp:" ++ sub ++ ":" ++ rg ++ ":" ++ name

unfoldable pub build_container_app_response : (sub rg name : String) → Fields → Value
unfolding ◌++◌ string_or lookup_field any_of sanitize_empty_strings
build_container_app_response sub rg name input =
    let props = properties_of input in
    let environment = resource_id sub rg "Microsoft.App/managedEnvironments" "default" in
    let fqdn =
      string_or (name ++ ".hashed.eastus.containerApps.k4apps.io") (lookup_field "fqdn" props) in
    sanitize_empty_strings (
      dict (
        ("id", str (resource_id sub rg type name))
        ∷ ("name", str name)
        ∷ ("type", str type)
        ∷ ("location", str (location_of input))
        ∷ ("tags", obj (tags_of input))
        ∷ (
          "properties",
          dict (
              (
                "provisioningState",
                str (string_or "Succeeded" (lookup_field "provisioningState" props)),
              )
              ∷ (
                "managedEnvironmentId",
                str (string_or environment (lookup_field "managedEnvironmentId" props)),
              )
              ∷ ("latestRevisionName", str (name ++ "-v1"))
              ∷ ("latestRevisionFqdn", str fqdn)
              ∷ ("fqdn", str fqdn)
              ∷ ("exposedPort", any_of (lookup_field "exposedPort" props))
              ∷ ("customDomainVerificationId", str "miniblue")
              ∷ ("configuration", any_of (lookup_field "configuration" props))
              ∷ ("template", any_of (lookup_field "template" props))
              ∷ ("managedBy", any_of (lookup_field "managedBy" props))
              ∷ ("workloadProfileName", any_of (lookup_field "workloadProfileName" props))
              ∷ []),
        )
        ∷ []))

unfoldable pub create_or_update_container_app :
    Store Value → (sub rg name : String) → Fields → Store Value × Response
unfolding put_resource
create_or_update_container_app s sub rg name input =
    put_resource s (container_app_key sub rg name) (build_container_app_response sub rg name input)

unfoldable pub get_container_app : Store Value → (sub rg name : String) → Response
unfolding get_resource
get_container_app s sub rg name =
    get_resource s (container_app_key sub rg name) (not_found type name)

unfoldable pub delete_container_app : Store Value → (sub rg name : String) → Store Value × Response
unfolding delete_resource
delete_container_app s sub rg name =
    delete_resource s (container_app_key sub rg name) (not_found type name) 200

unfoldable pub list_container_apps : Store Value → (sub rg : String) → Response
unfolding ◌++◌ list_resources
list_container_apps s sub rg = list_resources s ("containerapp:" ++ sub ++ ":" ++ rg ++ ":")

unfoldable pub list_container_apps_by_subscription : Store Value → (sub : String) → Response
unfolding ◌++◌ list_resources
list_container_apps_by_subscription s sub = list_resources s ("containerapp:" ++ sub ++ ":")

-- `app, _ := v.(map[string]interface{}); props, _ := app["properties"].(map[string]interface{})`
unfoldable pub stored_properties : Value → Fields
unfolding properties_of
stored_properties (obj app) = properties_of app
stored_properties v = no_fields

unfoldable pub revision : (sub rg name revision_name fqdn : String) → Value
unfolding ◌++◌
revision sub rg name revision_name fqdn = dict (
    ("id", str (resource_id sub rg type (name ++ "/revisions/" ++ revision_name)))
    ∷ ("name", str revision_name)
    ∷ ("type", str "Microsoft.App/containerApps/revisions")
    ∷ (
      "properties",
      dict (
          ("createdTime", str "2024-01-01T00:00:00Z")
          ∷ ("lastActiveTime", str "2024-01-01T00:00:00Z")
          ∷ ("fqdn", str fqdn)
          ∷ ("active", bool true)
          ∷ ("replicas", int 1)
          ∷ ("runningState", str "Running")
          ∷ []),
    )
    ∷ [])

pub revisions_of : (sub rg name : String) → Option Value → Response
unfolding stored_properties string_or_empty lookup_field
revisions_of sub rg name none = not_found "Microsoft.App/containerApps/revisions" name
revisions_of sub rg name (some v) =
    let props = stored_properties v in
    let revision_name = string_or_empty (lookup_field "latestRevisionName" props) in
    let fqdn = string_or_empty (lookup_field "latestRevisionFqdn" props) in
    json_response 200 (dict (("value", slice (revision sub rg name revision_name fqdn ∷ [])) ∷ []))

unfoldable pub list_revisions : Store Value → (sub rg name : String) → Response
unfolding revisions_of
list_revisions s sub rg name =
    revisions_of sub rg name (Store.get s (container_app_key sub rg name))

pub revision_of : (sub rg name revision_name : String) → Option Value → Response
unfolding stored_properties string_or_empty lookup_field
revision_of sub rg name revision_name none =
    not_found "Microsoft.App/containerApps/revisions" revision_name
revision_of sub rg name revision_name (some v) = json_response 200 (
    revision sub rg name revision_name
      (string_or_empty (lookup_field "latestRevisionFqdn" (stored_properties v))))

unfoldable pub get_revision : Store Value → (sub rg name revision_name : String) → Response
unfolding revision_of
get_revision s sub rg name revision_name =
    revision_of sub rg name revision_name (Store.get s (container_app_key sub rg name))

-- A nil map cannot be written: the handler panics where the properties are no map.
pub state_set :
    Store Value
    → (key state : String) → (app : Fields) → Option Value
    → Store Value × Option Response
unfolding set_field
state_set s key state app (some (obj props)) =
    let app' = set_field "properties" (obj (set_field "provisioningState" (str state) props)) app in
    (Store.set s key (obj app'), some (json_response 200 (obj app')))
state_set s key state app _ = (s, none)

-- how jobs.go and containerapps.go set the state of what they store
pub set_state :
    Store Value
    → (key state : String) → (missing : Response) → Option Value
    → Store Value × Option Response
unfolding state_set lookup_field
set_state s key state missing (some (obj app)) =
    state_set s key state app (lookup_field "properties" app)
set_state s key state missing _ = (s, some missing)

unfoldable pub start_container_app :
    Store Value → (sub rg name : String) → Store Value × Option Response
unfolding set_state
start_container_app s sub rg name =
    let key = container_app_key sub rg name in
    set_state s key "Succeeded" (not_found type name) (Store.get s key)

unfoldable pub stop_container_app :
    Store Value → (sub rg name : String) → Store Value × Option Response
unfolding set_state
stop_container_app s sub rg name =
    let key = container_app_key sub rg name in
    set_state s key "Degraded" (not_found type name) (Store.get s key)
