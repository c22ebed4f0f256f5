-- ===== src/LoadBalancer.antt =====
-- internal/services/loadbalancer/handler.go: load balancers. Their pools, probes and rules are in
-- `Parts`.
pub mod Parts
use miniblue.Prelude.{String, ◌++◌, [], ◌∷◌}
use miniblue.Store
use miniblue.Store.{Store}
use miniblue.Value.{Value, Fields, str, array, obj, dict, fields, lookup_field}
use miniblue.Http.{Response, not_found}
use miniblue.Arm.{
  object_or, array_or_empty, location_of, tags_of, properties_of, resource_id, put_resource,
  get_resource, delete_resource, list_resources,
}

abbrev pub type : String
type = "Microsoft.Network/loadBalancers"

unfoldable pub key : (sub rg name : String) → String
unfolding ◌++◌
key sub rg name = "lb:" ++ sub ++ ":" ++ rg ++ ":" ++ name

-- getArray
unfoldable pub get_array : (props : Fields) (name : String) → Value
unfolding array_or_empty lookup_field
get_array props name = array (array_or_empty (lookup_field name props))

unfoldable pub build_response : (guid sub rg name : String) → Fields → Value
unfolding object_or location_of tags_of properties_of lookup_field get_array
build_response guid sub rg name input =
    let props = properties_of input in
    dict (
      ("id", str (resource_id sub rg type name))
      ∷ ("name", str name)
      ∷ ("type", str type)
      ∷ ("location", str (location_of input))
      ∷ ("tags", obj (tags_of input))
      ∷ ("etag", str "W/\"miniblue\"")
      ∷ (
        "sku",
        obj (
            object_or (fields (("name", str "Standard") ∷ ("tier", str "Regional") ∷ []))
              (lookup_field "sku" input)),
      )
      ∷ (
        "properties",
        dict (
            ("provisioningState", str "Succeeded")
            ∷ ("resourceGuid", str guid)
            ∷ ("frontendIPConfigurations", get_array props "frontendIPConfigurations")
            ∷ ("backendAddressPools", get_array props "backendAddressPools")
            ∷ ("loadBalancingRules", get_array props "loadBalancingRules")
            ∷ ("probes", get_array props "probes")
            ∷ ("inboundNatRules", get_array props "inboundNatRules")
            ∷ ("inboundNatPools", get_array props "inboundNatPools")
            ∷ ("outboundRules", get_array props "outboundRules")
            ∷ []),
      )
      ∷ [])

unfoldable pub create_or_update :
    (guid : String) → Store Value → (sub rg name : String) → Fields → Store Value × Response
unfolding put_resource
create_or_update guid s sub rg name input =
    put_resource s (key sub rg name) (build_response guid sub rg name input)

unfoldable pub get : Store Value → (sub rg name : String) → Response
unfolding get_resource
get s sub rg name = get_resource s (key sub rg name) (not_found type name)

unfoldable pub delete : Store Value → (sub rg name : String) → Store Value × Response
unfolding delete_resource
delete s sub rg name = delete_resource s (key sub rg name) (not_found type name) 202

unfoldable pub list : Store Value → (sub rg : String) → Response
unfolding ◌++◌ list_resources
list s sub rg = list_resources s ("lb:" ++ sub ++ ":" ++ rg ++ ":")

unfoldable pub list_in_subscription : Store Value → (sub : String) → Response
unfolding ◌++◌ list_resources
list_in_subscription s sub = list_resources s ("lb:" ++ sub ++ ":")
