-- ===== src/Network.antt =====
-- internal/services/network/handler.go: virtual networks and their subnets. A stored network is a
-- map that GetVNet changes in place, so that GetVNet answers a new store.
pub mod Parents
pub mod Listing
use miniblue.Prelude.{
  ℕ, String, false, true, Option, none, some, ◌++◌, List, [], ◌∷◌, ◌==◌, ◌&&◌, if◌then◌else◌,
}
use miniblue.Store
use miniblue.Store.{Store}
use miniblue.Value.{
  Value, Fields, Items, nil, bool, str, array, obj, no_items, item, no_fields, field, dict, fields,
  slice, lookup_field, set_field, string_or_empty,
}
use miniblue.Http.{Response, json_response, status_only, list_response, not_found}
use miniblue.Arm.{
  object_or, location_of, tags_of, properties_of, resource_id, put_resource, get_resource,
  delete_resource, list_resources, set_property,
}

abbrev pub vnet_type : String
vnet_type = "Microsoft.Network/virtualNetworks"

abbrev pub subnet_type : String
subnet_type = "Microsoft.Network/virtualNetworks/subnets"

unfoldable pub vnet_key : (sub rg name : String) → String
unfolding ◌++◌
vnet_key sub rg name = "vnet:" ++ sub ++ ":" ++ rg ++ ":" ++ name

unfoldable pub subnet_key : (sub rg vnet subnet : String) → String
unfolding ◌++◌
subnet_key sub rg vnet subnet = "subnet:" ++ sub ++ ":" ++ rg ++ ":" ++ vnet ++ ":" ++ subnet

-- `guid`: uuid.New()
unfoldable pub build_vnet_response : (guid sub rg name : String) → Fields → Value
unfolding object_or location_of tags_of properties_of lookup_field
build_vnet_response guid sub rg name input = dict (
    ("id", str (resource_id sub rg vnet_type name))
    ∷ ("name", str name)
    ∷ ("type", str vnet_type)
    ∷ ("location", str (location_of input))
    ∷ ("tags", obj (tags_of input))
    ∷ ("etag", str "W/\"miniblue\"")
    ∷ (
      "properties",
      dict (
          ("provisioningState", str "Succeeded")
          ∷ ("resourceGuid", str guid)
          ∷ (
            "addressSpace",
            obj (
                object_or (fields (("addressPrefixes", slice []) ∷ []))
                  (lookup_field "addressSpace" (properties_of input))),
          )
          ∷ ("dhcpOptions", dict (("dnsServers", slice []) ∷ []))
          ∷ ("subnets", slice [])
          ∷ ("virtualNetworkPeerings", slice [])
          ∷ ("enableDdosProtection", bool false)
          ∷ ("enableVmProtection", bool false)
          ∷ []),
    )
    ∷ [])

unfoldable pub create_or_update_vnet :
    (guid : String) → Store Value → (sub rg name : String) → Fields → Store Value × Response
unfolding put_resource
create_or_update_vnet guid s sub rg name input =
    put_resource s (vnet_key sub rg name) (build_vnet_response guid sub rg name input)

-- the subnets that the store has under the network's prefix
unfoldable pub subnet_items : Store Value → (sub rg vnet : String) → List Value
subnet_items s sub rg vnet = Store.list_by_prefix s (subnet_key sub rg vnet "")

pub show_vnet : Store Value → (sub rg name : String) → Option Value → Store Value × Response
show_vnet s sub rg name none = (s, not_found vnet_type name)
show_vnet s sub rg name (some (obj vnet)) =
    let shown = obj (set_property "subnets" (slice (subnet_items s sub rg name)) vnet) in
    (Store.set s (vnet_key sub rg name) shown, json_response 200 shown)
show_vnet s sub rg name (some v) = (s, json_response 200 v)

unfoldable pub get_vnet : Store Value → (sub rg name : String) → Store Value × Response
unfolding show_vnet
get_vnet s sub rg name = show_vnet s sub rg name (Store.get s (vnet_key sub rg name))

unfoldable pub delete_vnet : Store Value → (sub rg name : String) → Store Value × Response
delete_vnet s sub rg name =
    let (s', found) = Store.delete s (vnet_key sub rg name) in
    if found
    then ((Store.delete_by_prefix s' (subnet_key sub rg name "")).0, status_only 202)
    else (s', not_found vnet_type name)

unfoldable pub list_vnets : Store Value → (sub rg : String) → Response
unfolding ◌++◌ list_resources
list_vnets s sub rg = list_resources s ("vnet:" ++ sub ++ ":" ++ rg ++ ":")

unfoldable pub list_vnets_in_subscription : Store Value → (sub : String) → Response
unfolding ◌++◌ list_resources
list_vnets_in_subscription s sub = list_resources s ("vnet:" ++ sub ++ ":")

-- `prefix == "" && len(prefixes) > 0`: the first prefix, if it is a string
first_prefix : (prefix : String) → Items → String
unfolding string_or_empty
first_prefix prefix no_items = prefix
first_prefix prefix (item v vs) = if prefix == "" then string_or_empty (some v) else prefix

-- `props["addressPrefixes"].([]interface{})`, then the prefix alone if there is none; a nil slice
-- is encoded as null
all_prefixes : (prefix : String) → Option Value → Value
all_prefixes prefix (some (array (item v vs))) = array (item v vs)
all_prefixes prefix (some (array no_items)) =
    if prefix == "" then slice [] else slice (str prefix ∷ [])
all_prefixes prefix (some v) = if prefix == "" then nil else slice (str prefix ∷ [])
all_prefixes prefix none = if prefix == "" then nil else slice (str prefix ∷ [])

prefix_items : Option Value → Items
prefix_items (some (array vs)) = vs
prefix_items (some v) = no_items
prefix_items none = no_items

-- `if v, ok := props[k]; ok { out[k] = v }`
copy_field : String → Option Value → Fields → Fields
unfolding set_field
copy_field k none out = out
copy_field k (some v) out = set_field k v out

subnet_properties : Fields → Fields
unfolding first_prefix all_prefixes prefix_items copy_field lookup_field
subnet_properties props =
    let given = lookup_field "addressPrefixes" props in
    let prefix =
      first_prefix (string_or_empty (lookup_field "addressPrefix" props)) (prefix_items given) in
    copy_field "routeTable" (lookup_field "routeTable" props) (
      copy_field "networkSecurityGroup" (lookup_field "networkSecurityGroup" props) (
        fields (
          ("provisioningState", str "Succeeded")
          ∷ ("addressPrefix", str prefix)
          ∷ ("addressPrefixes", all_prefixes prefix given)
          ∷ ("serviceEndpoints", slice [])
          ∷ ("serviceEndpointPolicies", slice [])
          ∷ ("ipConfigurations", slice [])
          ∷ ("delegations", slice [])
          ∷ ("privateEndpointNetworkPolicies", str "Disabled")
          ∷ ("privateLinkServiceNetworkPolicies", str "Enabled")
          ∷ ("defaultOutboundAccess", bool true)
          ∷ [])))

unfoldable pub build_subnet_response : (sub rg vnet subnet : String) → Fields → Value
unfolding subnet_properties properties_of ◌++◌
build_subnet_response sub rg vnet subnet input = dict (
    ("id", str (resource_id sub rg vnet_type vnet ++ "/subnets/" ++ subnet))
    ∷ ("name", str subnet)
    ∷ ("etag", str "W/\"miniblue\"")
    ∷ ("type", str subnet_type)
    ∷ ("properties", obj (subnet_properties (properties_of input)))
    ∷ [])

pub refresh : Store Value → (sub rg vnet : String) → Option Value → Store Value
refresh s sub rg vnet (some (obj v)) =
    Store.set s (vnet_key sub rg vnet)
      (obj (set_property "subnets" (slice (subnet_items s sub rg vnet)) v))
refresh s sub rg vnet (some v) = s
refresh s sub rg vnet none = s

unfoldable pub update_vnet_subnets : Store Value → (sub rg vnet : String) → Store Value
unfolding refresh
update_vnet_subnets s sub rg vnet = refresh s sub rg vnet (Store.get s (vnet_key sub rg vnet))

unfoldable pub create_or_update_subnet :
    Store Value → (sub rg vnet subnet : String) → Fields → Store Value × Response
unfolding put_resource
create_or_update_subnet s sub rg vnet subnet input =
    if Store.exists s (vnet_key sub rg vnet)
    then (let (s', response) =
          put_resource s (subnet_key sub rg vnet subnet)
            (build_subnet_response sub rg vnet subnet input) in
        (update_vnet_subnets s' sub rg vnet, response))
    else (s, not_found vnet_type vnet)

unfoldable pub get_subnet : Store Value → (sub rg vnet subnet : String) → Response
unfolding get_resource
get_subnet s sub rg vnet subnet =
    get_resource s (subnet_key sub rg vnet subnet) (not_found subnet_type subnet)

unfoldable pub delete_subnet : Store Value → (sub rg vnet subnet : String) → Store Value × Response
delete_subnet s sub rg vnet subnet =
    let (s', found) = Store.delete s (subnet_key sub rg vnet subnet) in
    if found
    then (update_vnet_subnets s' sub rg vnet, status_only 202)
    else (s', not_found subnet_type subnet)

unfoldable pub list_subnets : Store Value → (sub rg vnet : String) → Response
list_subnets s sub rg vnet = list_response "value" (subnet_items s sub rg vnet)
