-- ===== src/Sites.antt =====
-- internal/services/sites/handler.go: web sites. `input` is what Decode leaves in the variable; where
-- the handler tests the error it is a `Decoded`, of the name and the type.
pub mod Config
pub mod Publishing
pub mod ServerFarms
pub mod Slots
pub mod Deletion
use mathlib.Core.List
use miniblue.Prelude.{
  String, Bool, true, false, Option, none, some, ◌++◌, [], ◌∷◌, ◌==◌, if◌then◌else◌,
}
use miniblue.Store
use miniblue.Store.{Store}
use miniblue.Value.{Value, Fields, nil, bool, str, obj, slice, dict, lookup_field}
use miniblue.Http.{Response, Decoded, failed, decoded, json_response, list_response, not_found}
use miniblue.Arm.{
  any_of, string_or, properties_of, location_of, tags_of, resource_id, get_resource,
  delete_resource,
}

abbrev pub type : String
type = "Microsoft.Web/sites"

unfoldable pub site_resource_group_key : (sub rg name : String) → String
unfolding ◌++◌
site_resource_group_key sub rg name = "func:" ++ sub ++ ":" ++ rg ++ ":" ++ name

unfoldable pub site_subscription_key : (sub name : String) → String
unfolding ◌++◌
site_subscription_key sub name = "func:" ++ sub ++ ":" ++ name

unfoldable pub build_site_response : (sub rg name : String) → Fields → Value
unfolding ◌++◌ string_or lookup_field any_of
build_site_response sub rg name input = dict (
    ("id", str (resource_id sub rg type name))
    ∷ ("name", str name)
    ∷ ("type", str type)
    ∷ ("kind", str (string_or "functionapp" (lookup_field "kind" input)))
    ∷ ("location", str (location_of input))
    ∷ ("tags", obj (tags_of input))
    ∷ (
      "properties",
      dict (
          ("provisioningState", str "Succeeded")
          ∷ ("defaultHostName", str (name ++ ".azurewebsites.net"))
          ∷ ("hostNames", slice (str (name ++ ".azurewebsites.net") ∷ []))
          ∷ ("state", str "Running")
          ∷ ("enabled", bool true)
          ∷ ("serverFarmId", any_of (lookup_field "serverFarmId" (properties_of input)))
          ∷ []),
    )
    ∷ [])

-- It answers 200 for a new site too.
unfoldable pub create_or_update :
    Store Value → (sub rg name : String) → Fields → Store Value × Response
create_or_update s sub rg name input =
    let site = build_site_response sub rg name input in
    (
      Store.set (Store.set s (site_resource_group_key sub rg name) site)
          (site_subscription_key sub name) site,
      json_response 200 site,
    )

unfoldable pub get : Store Value → (sub rg name : String) → Response
unfolding get_resource
get s sub rg name = get_resource s (site_resource_group_key sub rg name) (not_found type name)

unfoldable pub delete : Store Value → (sub rg name : String) → Store Value × Response
unfolding delete_resource
delete s sub rg name =
    delete_resource s (site_resource_group_key sub rg name) (not_found type name) 200

unfoldable pub list : Store Value → (sub rg : String) → Response
unfolding ◌++◌
list s sub rg = list_response "value" (
    List.◌++◌ (Store.list_by_prefix s ("func:" ++ sub ++ ":" ++ rg ++ ":"))
      (Store.list_by_prefix s ("webapp:" ++ sub ++ ":" ++ rg ++ ":")))

-- `site, _ := h.store.Get(k)`, and `site != nil`
unfoldable pub in_use : Option Value → Bool
in_use none = false
in_use (some nil) = false
in_use (some v) = true

unfoldable pub name_answer : (name : String) → (taken : Bool) → Response
unfolding ◌++◌
name_answer name false = json_response 200 (dict (("nameAvailable", bool true) ∷ []))
name_answer name true = json_response 200 (
    dict (
      ("nameAvailable", bool false)
      ∷ ("reason", str "AlreadyExists")
      ∷ ("message", str ("The site " ++ name ++ " is already in use."))
      ∷ []))

unfoldable pub check_name_availability :
    Store Value → (sub : String) → Decoded (String × String) → Response
unfolding name_answer in_use site_subscription_key
check_name_availability s sub (failed e) = json_response 400 (
    dict (
      (
        "error",
        dict (
            ("code", str "InvalidRequestBody")
            ∷ ("message", str "Could not parse request body.")
            ∷ []),
      )
      ∷ []))
check_name_availability s sub (decoded (name, kind)) =
    if kind == "Microsoft.Web/sites"
    then name_answer name (in_use (Store.get s (site_subscription_key sub name)))
    else name_answer name false
