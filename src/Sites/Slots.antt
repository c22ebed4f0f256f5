-- ===== src/Sites/Slots.antt =====
-- internal/services/sites/slots.go: the deployment slots of a site
use miniblue.Prelude.{String, true, ◌++◌, [], ◌∷◌}
use miniblue.Store.{Store}
use miniblue.Value.{Value, Fields, bool, str, obj, slice, dict, lookup_field}
use miniblue.Http.{Response, not_found}
use miniblue.Arm.{
  any_of, properties_of, location_of, tags_of, resource_id, put_resource, get_resource,
  delete_resource, list_resources,
}

abbrev type : String
type = "Microsoft.Web/sites/slots"

unfoldable pub slot_key : (sub rg site slot : String) → String
unfolding ◌++◌
slot_key sub rg site slot = "slot:" ++ sub ++ ":" ++ rg ++ ":" ++ site ++ ":" ++ slot

unfoldable pub list_slots : Store Value → (sub rg name : String) → Response
unfolding list_resources slot_key
list_slots s sub rg name = list_resources s (slot_key sub rg name "")

unfoldable pub build_slot_response : (sub rg site_name slot_name : String) → Fields → Value
unfolding ◌++◌ lookup_field any_of
build_slot_response sub rg site_name slot_name input =
    let host = slot_name ++ "-" ++ site_name ++ ".azurewebsites.net" in
    dict (
      ("id", str (resource_id sub rg "Microsoft.Web/sites" (site_name ++ "/slots/" ++ slot_name)))
      ∷ ("name", str (site_name ++ "/" ++ slot_name))
      ∷ ("type", str type)
      ∷ ("kind", any_of (lookup_field "kind" input))
      ∷ ("location", str (location_of input))
      ∷ ("tags", obj (tags_of input))
      ∷ (
        "properties",
        dict (
            ("provisioningState", str "Succeeded")
            ∷ ("defaultHostName", str host)
            ∷ ("hostNames", slice (str host ∷ []))
            ∷ ("state", str "Running")
            ∷ ("enabled", bool true)
            ∷ ("serverFarmId", any_of (lookup_field "serverFarmId" (properties_of input)))
            ∷ []),
      )
      ∷ [])

unfoldable pub create_or_update_slot :
    Store Value → (sub rg site_name slot_name : String) → Fields → Store Value × Response
unfolding put_resource
create_or_update_slot s sub rg site_name slot_name input =
    put_resource s (slot_key sub rg site_name slot_name)
      (build_slot_response sub rg site_name slot_name input)

unfoldable pub get_slot : Store Value → (sub rg site_name slot_name : String) → Response
unfolding get_resource
get_slot s sub rg site_name slot_name =
    get_resource s (slot_key sub rg site_name slot_name) (not_found type slot_name)

unfoldable pub delete_slot :
    Store Value → (sub rg site_name slot_name : String) → Store Value × Response
unfolding delete_resource
delete_slot s sub rg site_name slot_name =
    delete_resource s (slot_key sub rg site_name slot_name) (not_found type slot_name) 200
