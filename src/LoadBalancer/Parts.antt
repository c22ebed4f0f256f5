-- ===== src/LoadBalancer/Parts.antt =====
-- internal/services/loadbalancer/handler.go: the backend pools, probes and rules of a load balancer.
use miniblue.Prelude.{String, Option, none, some, ◌++◌, [], ◌∷◌, ◌==◌, ◌||◌, if◌then◌else◌}
use miniblue.Store.{Store}
use miniblue.Value.{Value, Fields, int, number, str, array, dict, lookup_field}
use miniblue.Http.{Response, not_found}
use miniblue.Arm.{
  array_or_empty, string_or, any_of, properties_of, resource_id, put_resource, get_resource,
  delete_resource, list_resources,
}

abbrev lb_type : String
lb_type = "Microsoft.Network/loadBalancers"

unfoldable pub backend_pool_key : (sub rg lb pool : String) → String
unfolding ◌++◌
backend_pool_key sub rg lb pool = "lb:bap:" ++ sub ++ ":" ++ rg ++ ":" ++ lb ++ ":" ++ pool

unfoldable pub probe_key : (sub rg lb probe : String) → String
unfolding ◌++◌
probe_key sub rg lb probe = "lb:probe:" ++ sub ++ ":" ++ rg ++ ":" ++ lb ++ ":" ++ probe

unfoldable pub lb_rule_key : (sub rg lb rule : String) → String
unfolding ◌++◌
lb_rule_key sub rg lb rule = "lb:rule:" ++ sub ++ ":" ++ rg ++ ":" ++ lb ++ ":" ++ rule

-- the fields around the properties of a part, `part` its path in the id and its type
part_response : (sub rg lb part name : String) → Value → Value
unfolding ◌++◌
part_response sub rg lb part name properties = dict (
    ("id", str (resource_id sub rg lb_type lb ++ "/" ++ part ++ "/" ++ name))
    ∷ ("name", str name)
    ∷ ("type", str (lb_type ++ "/" ++ part))
    ∷ ("etag", str "W/\"miniblue\"")
    ∷ ("properties", properties)
    ∷ [])

unfoldable pub build_backend_address_pool_response : (guid sub rg lb name : String) → Fields → Value
unfolding part_response properties_of array_or_empty lookup_field
build_backend_address_pool_response guid sub rg lb name input =
    part_response sub rg lb "backendAddressPools" name (
      dict (
        ("provisioningState", str "Succeeded")
        ∷ ("resourceGuid", str guid)
        ∷ (
          "loadBalancerBackendAddresses",
          array (array_or_empty (lookup_field "backendAddresses" (properties_of input))),
        )
        ∷ []))

-- `port, _ := props["port"].(float64); if port == 0 { port = 80 }`
probe_port : Option Value → Value
probe_port (some (number n)) = if n == "0" || n == "-0" then number "80" else number n
probe_port (some v) = number "80"
probe_port none = number "80"

unfoldable pub build_probe_response : (guid sub rg lb name : String) → Fields → Value
unfolding part_response properties_of string_or lookup_field probe_port
build_probe_response guid sub rg lb name input =
    let props = properties_of input in
    part_response sub rg lb "probes" name (
      dict (
        ("provisioningState", str "Succeeded")
        ∷ ("resourceGuid", str guid)
        ∷ ("protocol", str (string_or "Tcp" (lookup_field "protocol" props)))
        ∷ ("port", probe_port (lookup_field "port" props))
        ∷ ("intervalInSeconds", int 15)
        ∷ ("numberOfProbes", int 4)
        ∷ []))

unfoldable pub build_load_balancing_rule_response : (guid sub rg lb name : String) → Fields → Value
unfolding part_response properties_of any_of lookup_field
build_load_balancing_rule_response guid sub rg lb name input =
    let props = properties_of input in
    part_response sub rg lb "loadBalancingRules" name (
      dict (
        ("provisioningState", str "Succeeded")
        ∷ ("resourceGuid", str guid)
        ∷ ("protocol", any_of (lookup_field "protocol" props))
        ∷ ("frontendPort", any_of (lookup_field "frontendPort" props))
        ∷ ("backendPort", any_of (lookup_field "backendPort" props))
        ∷ []))

unfoldable pub list_backend_address_pools : Store Value → (sub rg lb : String) → Response
unfolding ◌++◌ list_resources
list_backend_address_pools s sub rg lb =
    list_resources s ("lb:bap:" ++ sub ++ ":" ++ rg ++ ":" ++ lb ++ ":")

unfoldable pub create_or_update_backend_address_pool :
    (guid : String) → Store Value → (sub rg lb name : String) → Fields → Store Value × Response
unfolding put_resource
create_or_update_backend_address_pool guid s sub rg lb name input =
    put_resource s (backend_pool_key sub rg lb name)
      (build_backend_address_pool_response guid sub rg lb name input)

unfoldable pub get_backend_address_pool : Store Value → (sub rg lb name : String) → Response
unfolding get_resource
get_backend_address_pool s sub rg lb name =
    get_resource s (backend_pool_key sub rg lb name)
      (not_found "Microsoft.Network/loadBalancers/backendAddressPools" name)

unfoldable pub delete_backend_address_pool :
    Store Value → (sub rg lb name : String) → Store Value × Response
unfolding delete_resource
delete_backend_address_pool s sub rg lb name =
    delete_resource s (backend_pool_key sub rg lb name)
      (not_found "Microsoft.Network/loadBalancers/backendAddressPools" name) 200

unfoldable pub list_probes : Store Value → (sub rg lb : String) → Response
unfolding ◌++◌ list_resources
list_probes s sub rg lb = list_resources s ("lb:probe:" ++ sub ++ ":" ++ rg ++ ":" ++ lb ++ ":")

unfoldable pub create_or_update_probe :
    (guid : String) → Store Value → (sub rg lb name : String) → Fields → Store Value × Response
unfolding put_resource
create_or_update_probe guid s sub rg lb name input =
    put_resource s (probe_key sub rg lb name) (build_probe_response guid sub rg lb name input)

unfoldable pub get_probe : Store Value → (sub rg lb name : String) → Response
unfolding get_resource
get_probe s sub rg lb name =
    get_resource s (probe_key sub rg lb name)
      (not_found "Microsoft.Network/loadBalancers/probes" name)

unfoldable pub delete_probe : Store Value → (sub rg lb name : String) → Store Value × Response
unfolding delete_resource
delete_probe s sub rg lb name =
    delete_resource s (probe_key sub rg lb name)
      (not_found "Microsoft.Network/loadBalancers/probes" name) 200

unfoldable pub list_load_balancing_rules : Store Value → (sub rg lb : String) → Response
unfolding ◌++◌ list_resources
list_load_balancing_rules s sub rg lb =
    list_resources s ("lb:rule:" ++ sub ++ ":" ++ rg ++ ":" ++ lb ++ ":")

unfoldable pub create_or_update_load_balancing_rule :
    (guid : String) → Store Value → (sub rg lb name : String) → Fields → Store Value × Response
unfolding put_resource
create_or_update_load_balancing_rule guid s sub rg lb name input =
    put_resource s (lb_rule_key sub rg lb name)
      (build_load_balancing_rule_response guid sub rg lb name input)

unfoldable pub get_load_balancing_rule : Store Value → (sub rg lb name : String) → Response
unfolding get_resource
get_load_balancing_rule s sub rg lb name =
    get_resource s (lb_rule_key sub rg lb name)
      (not_found "Microsoft.Network/loadBalancers/loadBalancingRules" name)

unfoldable pub delete_load_balancing_rule :
    Store Value → (sub rg lb name : String) → Store Value × Response
unfolding delete_resource
delete_load_balancing_rule s sub rg lb name =
    delete_resource s (lb_rule_key sub rg lb name)
      (not_found "Microsoft.Network/loadBalancers/loadBalancingRules" name) 200
