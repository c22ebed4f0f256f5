-- ===== src/Acr.antt =====
-- internal/services/acr/handler.go: container registries.
use miniblue.Prelude.{
  String, false, true, Option, none, some, ◌++◌, List, [], ◌∷◌, ◌==◌, if◌then◌else◌,
}
use miniblue.Store
use miniblue.Store.{Store}
use miniblue.Value.{Value, Fields, registry, bool, int, str, obj, dict, slice, lookup_field}
use miniblue.Http.{Response, Decoded, failed, decoded, json_response, list_response, not_found}
use miniblue.Arm.{
  location_of, resource_id, put_resource, get_resource, delete_resource, list_resources,
}

abbrev registry_type : String
registry_type = "Microsoft.ContainerRegistry/registries"

unfoldable pub registry_key : (sub rg name : String) → String
unfolding ◌++◌
registry_key sub rg name = "acr:registry:" ++ sub ++ ":" ++ rg ++ ":" ++ name

-- `if n, ok := sku["name"].(string); ok { skuName = n }`
string_or_basic : Option Value → String
string_or_basic (some (str n)) = n
string_or_basic (some v) = "Basic"
string_or_basic none = "Basic"

sku_name : (sku : Option Value) → String
unfolding string_or_basic lookup_field
sku_name (some (obj sku)) = string_or_basic (lookup_field "name" sku)
sku_name (some v) = "Basic"
sku_name none = "Basic"

abbrev disabled : Value
disabled = dict (("status", str "disabled") ∷ [])

unfoldable pub build_registry_response : (sub rg name : String) → Fields → Value
unfolding sku_name location_of lookup_field ◌++◌
build_registry_response sub rg name input =
    let sku = sku_name (lookup_field "sku" input) in
    dict (
      ("id", str (resource_id sub rg registry_type name))
      ∷ ("name", str name)
      ∷ ("type", str registry_type)
      ∷ ("location", str (location_of input))
      ∷ ("sku", dict (("name", str sku) ∷ ("tier", str sku) ∷ []))
      ∷ (
        "properties",
        dict (
            ("loginServer", str (name ++ ".azurecr.io"))
            ∷ ("provisioningState", str "Succeeded")
            ∷ ("adminUserEnabled", bool false)
            ∷ ("creationDate", str "2026-01-01T00:00:00Z")
            ∷ ("publicNetworkAccess", str "Enabled")
            ∷ ("zoneRedundancy", str "Disabled")
            ∷ ("networkRuleBypassOptions", str "AzureServices")
            ∷ ("dataEndpointEnabled", bool false)
            ∷ ("encryption", disabled)
            ∷ ("networkRuleSet", dict (("defaultAction", str "Allow") ∷ ("ipRules", slice []) ∷ []))
            ∷ (
              "policies",
              dict (
                  ("quarantinePolicy", disabled)
                  ∷ ("trustPolicy", dict (("status", str "disabled") ∷ ("type", str "Notary") ∷ []))
                  ∷ ("retentionPolicy", dict (("status", str "disabled") ∷ ("days", int 7) ∷ []))
                  ∷ ("exportPolicy", dict (("status", str "enabled") ∷ []))
                  ∷ []),
            )
            ∷ []),
      )
      ∷ [])

unfoldable pub create_or_update_registry :
    Store Value → (sub rg name : String) → Fields → Store Value × Response
unfolding put_resource
create_or_update_registry s sub rg name input =
    put_resource s (registry_key sub rg name) (build_registry_response sub rg name input)

unfoldable pub get_registry : Store Value → (sub rg name : String) → Response
unfolding get_resource
get_registry s sub rg name =
    get_resource s (registry_key sub rg name) (not_found registry_type name)

unfoldable pub delete_registry : Store Value → (sub rg name : String) → Store Value × Response
unfolding delete_resource
delete_registry s sub rg name =
    delete_resource s (registry_key sub rg name) (not_found registry_type name) 202

unfoldable pub list_registries : Store Value → (sub rg : String) → Response
unfolding ◌++◌ list_resources
list_registries s sub rg = list_resources s ("acr:registry:" ++ sub ++ ":" ++ rg ++ ":")

unfoldable pub list_manifests : Response
list_manifests = list_response "manifests" []

unfoldable pub get_manifest : (reference : String) → Response
get_manifest reference =
    json_response 200 (dict (("tag", str reference) ∷ ("digest", str "sha256:abc123") ∷ []))

unfoldable pub list_tags : (repository : String) → Response
list_tags repository = json_response 200 (dict (("name", str repository) ∷ ("tags", slice []) ∷ []))

unfoldable pub list_replications : Response
list_replications = list_response "value" []

-- `item.(Registry)`: the name, where the type assertion holds
registry_name : Value → Option String
registry_name (registry r) = some r.name
registry_name v = none

-- the loop over the registries of the subscription
name_taken : (name : String) → List Value → Option String
unfolding registry_name
name_taken name [] = none
name_taken name (v ∷ vs) =
    let rest = name_taken name vs in
    elim (registry_name v) [ none ↦ rest | some n ↦ if n == name then some name else rest ]

availability : Option String → Value
unfolding ◌++◌
availability none = dict (("nameAvailable", bool true) ∷ [])
availability (some name) = dict (
    ("nameAvailable", bool false)
    ∷ ("reason", str "AlreadyExists")
    ∷ ("message", str ("The registry " ++ name ++ " is already in use."))
    ∷ [])

unfoldable pub check_name_availability :
    Store Value → (sub : String) → (name : Decoded String) → Response
unfolding name_taken availability ◌++◌
check_name_availability s sub (failed error) = json_response 400 (
    dict (
      (
        "error",
        dict (
            ("code", str "InvalidRequestBody")
            ∷ ("message", str "Could not parse request body.")
            ∷ []),
      )
      ∷ []))
check_name_availability s sub (decoded name) =
    json_response 200
      (availability (name_taken name (Store.list_by_prefix s ("acr:registry:" ++ sub ++ ":"))))
