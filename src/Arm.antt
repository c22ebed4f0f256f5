-- ===== src/Arm.antt =====
-- What the handlers of ARM resources share: reading the fields of a decoded body, and the shape of
-- the PUT, GET, DELETE and list of a resource, as internal/services/appgw/handler.go has them.
pub mod Family
pub mod Properties
use miniblue.Prelude.{ℕ, String, Option, none, some, ◌++◌, [], ◌==◌, is_some, if◌then◌else◌}
use miniblue.Store
use miniblue.Store.{Store}
use miniblue.Value.{
  Value, Fields, Items, nil, array, obj, no_fields, no_items, slice, lookup_field, set_field,
  as_object, string_or_empty,
}
use miniblue.Http.{Response, status_only, list_response, found_or, created_or_updated}

-- `v, _ := m[k].(map[string]interface{}); if v == nil { v = d }`
unfoldable pub object_or : Fields → Option Value → Fields
object_or d (some (obj fs)) = fs
object_or d (some v) = d
object_or d none = d

-- `v, _ := m[k].(string); if v == "" { v = d }`
unfoldable pub string_or : String → Option Value → String
unfolding string_or_empty
string_or d v = let s = string_or_empty v in if s == "" then d else s

-- `v, ok := m[k].([]interface{})`, or an empty slice
unfoldable pub array_or_empty : Option Value → Items
array_or_empty (some (array vs)) = vs
array_or_empty (some v) = no_items
array_or_empty none = no_items

-- m[k] as an interface: nil if the key is missing
unfoldable pub any_of : Option Value → Value
any_of none = nil
any_of (some v) = v

-- `props, _ := input["properties"].(map[string]interface{})`, or an empty map
unfoldable pub properties_of : Fields → Fields
unfolding object_or lookup_field
properties_of input = object_or no_fields (lookup_field "properties" input)

unfoldable pub location_of : Fields → String
unfolding string_or lookup_field
location_of input = string_or "eastus" (lookup_field "location" input)

unfoldable pub tags_of : Fields → Fields
unfolding object_or lookup_field
tags_of input = object_or no_fields (lookup_field "tags" input)

unfoldable pub resource_id : (sub rg type name : String) → String
unfolding ◌++◌
resource_id sub rg type name =
    "/subscriptions/" ++ sub ++ "/resourceGroups/" ++ rg ++ "/providers/" ++ type ++ "/" ++ name

unfoldable pub put_resource : Store Value → (key : String) → Value → Store Value × Response
put_resource s key v = (Store.set s key v, created_or_updated (is_some (Store.get s key)) v)

unfoldable pub get_resource : Store Value → (key : String) → (missing : Response) → Response
get_resource s key missing = found_or missing (Store.get s key)

unfoldable pub delete_resource :
    Store Value → (key : String) → (missing : Response) → (code : ℕ) → Store Value × Response
delete_resource s key missing code =
    let (s', found) = Store.delete s key in if found then (s', status_only code) else (s', missing)

unfoldable pub list_resources : Store Value → (prefix : String) → Response
list_resources s prefix = list_response "value" (Store.list_by_prefix s prefix)

-- `if props, ok := m["properties"].(map[string]interface{}); ok { props[k] = v }`
pub property_set : String → Value → Fields → Option Value → Fields
unfolding set_field
property_set k v m (some (obj props)) = set_field "properties" (obj (set_field k v props)) m
property_set k v m (some w) = m
property_set k v m none = m

unfoldable pub set_property : String → Value → Fields → Fields
unfolding property_set lookup_field
set_property k v m = property_set k v m (lookup_field "properties" m)
