-- ===== src/AppConfig.antt =====
-- internal/services/appconfig/handler.go: key-values, and the ARM configuration stores.
pub mod Collision
use miniblue.Prelude.{String, Bool, true, false, ◌++◌, [], ◌∷◌, is_some, if◌then◌else◌}
use miniblue.Store
use miniblue.Store.{Store}
use miniblue.Value.{Value, KeyValue, key_value, str, bool, dict}
use miniblue.Http.{
  Response, json_response, status_only, list_response, not_found, found_or, created_or_updated,
}

unfoldable pub kv_key : (store key : String) → String
unfolding ◌++◌
kv_key store key = "appconfig:" ++ store ++ ":" ++ key

-- `input`: what Decode leaves in the key-value
unfoldable pub completed : (key now : String) → KeyValue → KeyValue
unfolding ◌++◌
completed key now input = record input { key = key; last_modified = now; etag = "etag-" ++ key }

unfoldable pub set_key_value :
    Store Value → (store_name key now : String) → KeyValue → Store Value × Response
set_key_value s store_name key now input =
    let kv = key_value (completed key now input) in
    (Store.set s (kv_key store_name key) kv, json_response 200 kv)

unfoldable pub get_key_value : Store Value → (store_name key : String) → Response
get_key_value s store_name key =
    found_or (not_found "AppConfiguration/keyValues" key) (Store.get s (kv_key store_name key))

unfoldable pub delete_key_value : Store Value → (store_name key : String) → Store Value × Response
delete_key_value s store_name key = ((Store.delete s (kv_key store_name key)).0, status_only 204)

unfoldable pub list_key_values : Store Value → (store_name : String) → Response
unfolding ◌++◌
list_key_values s store_name =
    list_response "value" (Store.list_by_prefix s ("appconfig:" ++ store_name ++ ":"))

unfoldable pub store_arm_key : (sub rg name : String) → String
unfolding ◌++◌
store_arm_key sub rg name = "appconfig:store:" ++ sub ++ ":" ++ rg ++ ":" ++ name

unfoldable pub build_store_response : (sub rg name : String) → Value
unfolding ◌++◌
build_store_response sub rg name = dict (
    (
      "id",
      str (
          "/subscriptions/" ++ sub ++ "/resourceGroups/" ++ rg
          ++ "/providers/Microsoft.AppConfiguration/configurationStores/" ++ name),
    )
    ∷ ("name", str name)
    ∷ ("type", str "Microsoft.AppConfiguration/configurationStores")
    ∷ ("location", str "eastus")
    ∷ ("sku", dict (("name", str "Standard") ∷ []))
    ∷ (
      "properties",
      dict (
          ("provisioningState", str "Succeeded")
          ∷ ("endpoint", str ("https://" ++ name ++ ".azconfig.io"))
          ∷ ("creationDate", str "2026-01-01T00:00:00Z")
          ∷ ("disableLocalAuth", bool false)
          ∷ []),
    )
    ∷ [])

unfoldable pub create_or_update_store :
    Store Value → (sub rg name : String) → Store Value × Response
create_or_update_store s sub rg name =
    let k = store_arm_key sub rg name in
    let made = build_store_response sub rg name in
    (Store.set s k made, created_or_updated (is_some (Store.get s k)) made)

unfoldable pub get_store : Store Value → (sub rg name : String) → Response
get_store s sub rg name =
    found_or (not_found "Microsoft.AppConfiguration/configurationStores" name)
      (Store.get s (store_arm_key sub rg name))

unfoldable pub delete_store : Store Value → (sub rg name : String) → Store Value × Response
delete_store s sub rg name =
    let (s', found) = Store.delete s (store_arm_key sub rg name) in
    if found
    then (s', status_only 202)
    else (s', not_found "Microsoft.AppConfiguration/configurationStores" name)

unfoldable pub list_stores : Store Value → (sub rg : String) → Response
unfolding ◌++◌
list_stores s sub rg =
    list_response "value" (Store.list_by_prefix s ("appconfig:store:" ++ sub ++ ":" ++ rg ++ ":"))
