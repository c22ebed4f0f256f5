-- ===== src/AppGateway.antt =====
-- internal/services/appgw/handler.go: application gateways.
use miniblue.Prelude.{String, Option, none, some, ◌++◌, [], ◌∷◌}
use miniblue.Store.{Store}
use miniblue.Value.{Value, Fields, nil, number, str, array, obj, dict, fields, lookup_field}
use miniblue.Http.{Response, not_found}
use miniblue.Arm.{
  object_or, array_or_empty, location_of, tags_of, properties_of, resource_id, put_resource,
  get_resource, delete_resource, list_resources,
}

abbrev type : String
type = "Microsoft.Network/applicationGateways"

unfoldable pub key : (sub rg name : String) → String
unfolding ◌++◌
key sub rg name = "appgw:" ++ sub ++ ":" ++ rg ++ ":" ++ name

-- getArray
get_array : (props : Fields) (name : String) → Value
unfolding array_or_empty lookup_field
get_array props name = array (array_or_empty (lookup_field name props))

-- getMap: a nil map is encoded as null
map_or_nil : Option Value → Value
map_or_nil (some (obj fs)) = obj fs
map_or_nil (some v) = nil
map_or_nil none = nil

get_map : (props : Fields) (name : String) → Value
unfolding map_or_nil lookup_field
get_map props name = map_or_nil (lookup_field name props)

unfoldable pub build_response : (guid sub rg name : String) → Fields → Value
unfolding object_or location_of tags_of properties_of lookup_field get_array get_map
build_response guid sub rg name input =
    let props = properties_of input in
    dict (
      ("id", str (resource_id sub rg type name))
      ∷ ("name", str name)
      ∷ ("type", str type)
      ∷ ("location", str (location_of input))
      ∷ ("tags", obj (tags_of input))
      ∷ ("etag", str "W/\"miniblue\"")
      ∷ (
        "properties",
        dict (
            ("provisioningState", str "Succeeded")
            ∷ ("resourceGuid", str guid)
            ∷ ("operationalState", str "Running")
            ∷ (
              "sku",
              obj (
                  object_or
                    (fields (
                      ("name", str "Standard_v2")
                      ∷ ("tier", str "Standard_v2")
                      ∷ ("capacity", number "2")
                      ∷ []))
                    (lookup_field "sku" props)),
            )
            ∷ ("gatewayIPConfigurations", get_array props "gatewayIPConfigurations")
            ∷ ("sslCertificates", get_array props "sslCertificates")
            ∷ ("trustedRootCertificates", get_array props "trustedRootCertificates")
            ∷ ("frontendIPConfigurations", get_array props "frontendIPConfigurations")
            ∷ ("frontendPorts", get_array props "frontendPorts")
            ∷ ("backendAddressPools", get_array props "backendAddressPools")
            ∷ ("backendHttpSettingsCollection", get_array props "backendHttpSettingsCollection")
            ∷ ("httpListeners", get_array props "httpListeners")
            ∷ ("urlPathMaps", get_array props "urlPathMaps")
            ∷ ("requestRoutingRules", get_array props "requestRoutingRules")
            ∷ ("redirectConfigurations", get_array props "redirectConfigurations")
            ∷ ("probes", get_array props "probes")
            ∷ ("rewriteRuleSets", get_array props "rewriteRuleSets")
            ∷ ("autoscaleConfiguration", get_map props "autoscaleConfiguration")
            ∷ (
              "webApplicationFirewallConfiguration",
              get_map props "webApplicationFirewallConfiguration",
            )
            ∷ []),
      )
      ∷ [])

unfoldable pub create_or_update :
    (guid : String) → Store Value → (sub rg name : String) → Fields → Store Value × Response
unfolding put_resource
create_or_update guid s sub rg name input =
    put_resource s (key sub rg name) (build_response guid sub rg name input)

unfoldable pub get : Store Value → (sub rg name : String) → Response
unfolding get_resource
get s sub rg name = get_resource s (key sub rg name) (not_found type name)

unfoldable pub delete : Store Value → (sub rg name : String) → Store Value × Response
unfolding delete_resource
delete s sub rg name = delete_resource s (key sub rg name) (not_found type name) 202

unfoldable pub list : Store Value → (sub rg : String) → Response
unfolding ◌++◌ list_resources
list s sub rg = list_resources s ("appgw:" ++ sub ++ ":" ++ rg ++ ":")

unfoldable pub list_in_subscription : Store Value → (sub : String) → Response
unfolding ◌++◌ list_resources
list_in_subscription s sub = list_resources s ("appgw:" ++ sub ++ ":")
