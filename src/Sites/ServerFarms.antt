-- ===== src/Sites/ServerFarms.antt =====
-- internal/services/sites/serverfarms.go: the plans that sites run on
use miniblue.Prelude.{String, false, ◌++◌, [], ◌∷◌, ◌==◌, has_prefix, ◌||◌, if◌then◌else◌}
use miniblue.Store
use miniblue.Store.{Store}
use miniblue.Value.{Value, Fields, bool, str, obj, dict, lookup_field, string_or_empty}
use miniblue.Http.{Response, json_response, not_found}
use miniblue.Arm.{
  any_of, string_or, properties_of, location_of, tags_of, resource_id, get_resource,
  delete_resource, list_resources,
}

abbrev type : String
type = "Microsoft.Web/serverFarms"

unfoldable pub server_farm_key : (sub rg name : String) → String
unfolding ◌++◌
server_farm_key sub rg name = "serverfarm:" ++ sub ++ ":" ++ rg ++ ":" ++ name

-- `switch skuName[0]`, with the default where the name is empty
unfoldable pub sku_tier : (sku_name : String) → String
unfolding has_prefix
sku_tier n =
    if has_prefix n "F" || has_prefix n "f"
    then "Free"
    else if has_prefix n "D" || has_prefix n "d"
    then "Shared"
    else if has_prefix n "B" || has_prefix n "b"
    then "Basic"
    else if has_prefix n "S" || has_prefix n "s"
    then "Standard"
    else if has_prefix n "P" || has_prefix n "p"
    then "Premium"
    else if has_prefix n "I" || has_prefix n "i"
    then "Isolated"
    else if has_prefix n "Y" || has_prefix n "y"
    then "Dynamic"
    else "Free"

unfoldable pub build_server_farm_response : (sub rg name : String) → Fields → Value
unfolding string_or lookup_field any_of string_or_empty
build_server_farm_response sub rg name input =
    let props = properties_of input in
    let kind = string_or "linux" (lookup_field "kind" input) in
    let sku_name = string_or_empty (lookup_field "skuName" props) in
    dict (
      ("id", str (resource_id sub rg type name))
      ∷ ("name", str name)
      ∷ ("type", str type)
      ∷ ("kind", str kind)
      ∷ ("location", str (location_of input))
      ∷ ("tags", obj (tags_of input))
      ∷ (
        "properties",
        dict (
            ("provisioningState", str "Succeeded")
            ∷ ("workerSize", any_of (lookup_field "workerSize" props))
            ∷ ("workerSizeId", any_of (lookup_field "workerSizeId" props))
            ∷ ("numberOfWorkers", any_of (lookup_field "numberOfWorkers" props))
            ∷ ("reserved", bool (kind == "linux"))
            ∷ ("isXenon", bool false)
            ∷ ("hyperV", bool false)
            ∷ ("status", str "Ready")
            ∷ ("subscription", str sub)
            ∷ ("skuName", str sku_name)
            ∷ ("skuTier", str (sku_tier sku_name))
            ∷ []),
      )
      ∷ [])

-- It answers 200 for a new plan too.
unfoldable pub create_or_update_server_farm :
    Store Value → (sub rg name : String) → Fields → Store Value × Response
create_or_update_server_farm s sub rg name input =
    let sf = build_server_farm_response sub rg name input in
    (Store.set s (server_farm_key sub rg name) sf, json_response 200 sf)

unfoldable pub get_server_farm : Store Value → (sub rg name : String) → Response
unfolding get_resource
get_server_farm s sub rg name = get_resource s (server_farm_key sub rg name) (not_found type name)

unfoldable pub delete_server_farm : Store Value → (sub rg name : String) → Store Value × Response
unfolding delete_resource
delete_server_farm s sub rg name =
    delete_resource s (server_farm_key sub rg name) (not_found type name) 200

-- No colon ends the prefix.
unfoldable pub list_server_farms : Store Value → (sub rg : String) → Response
unfolding ◌++◌ list_resources
list_server_farms s sub rg = list_resources s ("serverfarm:" ++ sub ++ ":" ++ rg)
