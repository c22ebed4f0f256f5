-- ===== src/SecurityGroups.antt =====
-- internal/services/nsg/handler.go: network security groups and their rules. GetNSG changes the
-- stored map in place, so that `get` answers a new store.
use miniblue.Prelude.{String, Option, none, some, ◌++◌, List, [], ◌∷◌, if◌then◌else◌}
use miniblue.Store
use miniblue.Store.{Store}
use miniblue.Value.{Value, Fields, str, number, obj, dict, fields, slice, lookup_field, set_field}
use miniblue.Http.{Response, json_response, status_only, not_found}
use miniblue.Arm.{
  location_of, tags_of, properties_of, resource_id, put_resource, get_resource, delete_resource,
  list_resources, set_property,
}

abbrev nsg_type : String
nsg_type = "Microsoft.Network/networkSecurityGroups"

abbrev rule_type : String
rule_type = "Microsoft.Network/networkSecurityGroups/securityRules"

unfoldable pub nsg_key : (sub rg name : String) → String
unfolding ◌++◌
nsg_key sub rg name = "nsg:" ++ sub ++ ":" ++ rg ++ ":" ++ name

unfoldable pub rule_key : (sub rg nsg rule : String) → String
unfolding ◌++◌
rule_key sub rg nsg rule = "nsgrule:" ++ sub ++ ":" ++ rg ++ ":" ++ nsg ++ ":" ++ rule

default_rule : (name priority direction access source destination : String) → Value
default_rule name priority direction access source destination = dict (
    ("name", str name)
    ∷ (
      "properties",
      dict (
          ("provisioningState", str "Succeeded")
          ∷ ("priority", number priority)
          ∷ ("direction", str direction)
          ∷ ("access", str access)
          ∷ ("protocol", str "*")
          ∷ ("sourceAddressPrefix", str source)
          ∷ ("destinationAddressPrefix", str destination)
          ∷ ("sourcePortRange", str "*")
          ∷ ("destinationPortRange", str "*")
          ∷ []),
    )
    ∷ [])

unfoldable pub default_security_rules : List Value
unfolding default_rule
default_security_rules =
    default_rule "AllowVnetInBound" "65000" "Inbound" "Allow" "VirtualNetwork" "VirtualNetwork"
    ∷ default_rule "AllowAzureLoadBalancerInBound" "65001" "Inbound" "Allow" "AzureLoadBalancer" "*"
    ∷ default_rule "DenyAllInBound" "65500" "Inbound" "Deny" "*" "*"
    ∷ default_rule "AllowVnetOutBound" "65000" "Outbound" "Allow" "VirtualNetwork" "VirtualNetwork"
    ∷ default_rule "AllowInternetOutBound" "65001" "Outbound" "Allow" "*" "Internet"
    ∷ default_rule "DenyAllOutBound" "65500" "Outbound" "Deny" "*" "*"
    ∷ []

unfoldable pub build_nsg_response : (guid sub rg name : String) → Fields → List Value → Value
unfolding location_of tags_of
build_nsg_response guid sub rg name input rules = dict (
    ("id", str (resource_id sub rg nsg_type name))
    ∷ ("name", str name)
    ∷ ("type", str nsg_type)
    ∷ ("location", str (location_of input))
    ∷ ("tags", obj (tags_of input))
    ∷ ("etag", str "W/\"miniblue\"")
    ∷ (
      "properties",
      dict (
          ("provisioningState", str "Succeeded")
          ∷ ("resourceGuid", str guid)
          ∷ ("securityRules", slice rules)
          ∷ ("defaultSecurityRules", slice default_security_rules)
          ∷ ("subnets", slice [])
          ∷ ("networkInterfaces", slice [])
          ∷ []),
    )
    ∷ [])

-- the fields of the loop in buildRuleResponse
abbrev rule_fields : List String
rule_fields =
    "priority" ∷ "direction" ∷ "access" ∷ "protocol" ∷ "sourcePortRange" ∷ "destinationPortRange"
    ∷ "sourceAddressPrefix" ∷ "destinationAddressPrefix" ∷ "sourcePortRanges"
    ∷ "destinationPortRanges" ∷ "sourceAddressPrefixes" ∷ "destinationAddressPrefixes"
    ∷ "description" ∷ []

copy_field : String → Option Value → Fields → Fields
unfolding set_field
copy_field k none out = out
copy_field k (some v) out = set_field k v out

copy_fields : List String → (props out : Fields) → Fields
unfolding copy_field lookup_field
copy_fields [] props out = out
copy_fields (k ∷ ks) props out = copy_fields ks props (copy_field k (lookup_field k props) out)

unfoldable pub build_rule_response : (sub rg nsg rule : String) → Fields → Value
unfolding copy_fields properties_of ◌++◌
build_rule_response sub rg nsg rule input = dict (
    ("id", str (resource_id sub rg nsg_type nsg ++ "/securityRules/" ++ rule))
    ∷ ("name", str rule)
    ∷ ("type", str rule_type)
    ∷ (
      "properties",
      obj (
          copy_fields rule_fields (properties_of input)
            (fields (("provisioningState", str "Succeeded") ∷ []))),
    )
    ∷ [])

unfoldable pub rule_items : Store Value → (sub rg nsg : String) → List Value
rule_items s sub rg nsg = Store.list_by_prefix s (rule_key sub rg nsg "")

unfoldable pub create_or_update :
    (guid : String) → Store Value → (sub rg name : String) → Fields → Store Value × Response
unfolding put_resource
create_or_update guid s sub rg name input =
    put_resource s (nsg_key sub rg name)
      (build_nsg_response guid sub rg name input (rule_items s sub rg name))

show_nsg : Store Value → (sub rg name : String) → Option Value → Store Value × Response
show_nsg s sub rg name none = (s, not_found nsg_type name)
show_nsg s sub rg name (some (obj nsg)) =
    let shown = obj (set_property "securityRules" (slice (rule_items s sub rg name)) nsg) in
    (Store.set s (nsg_key sub rg name) shown, json_response 200 shown)
show_nsg s sub rg name (some v) = (s, json_response 200 v)

unfoldable pub get : Store Value → (sub rg name : String) → Store Value × Response
unfolding show_nsg
get s sub rg name = show_nsg s sub rg name (Store.get s (nsg_key sub rg name))

unfoldable pub delete : Store Value → (sub rg name : String) → Store Value × Response
delete s sub rg name =
    let (s', found) = Store.delete s (nsg_key sub rg name) in
    if found
    then ((Store.delete_by_prefix s' (rule_key sub rg name "")).0, status_only 202)
    else (s', not_found nsg_type name)

unfoldable pub list_nsgs : Store Value → (sub rg : String) → Response
unfolding ◌++◌ list_resources
list_nsgs s sub rg = list_resources s ("nsg:" ++ sub ++ ":" ++ rg ++ ":")

unfoldable pub list_nsgs_in_subscription : Store Value → (sub : String) → Response
unfolding ◌++◌ list_resources
list_nsgs_in_subscription s sub = list_resources s ("nsg:" ++ sub ++ ":")

unfoldable pub create_or_update_rule :
    Store Value → (sub rg nsg rule : String) → Fields → Store Value × Response
unfolding put_resource
create_or_update_rule s sub rg nsg rule input =
    if Store.exists s (nsg_key sub rg nsg)
    then put_resource s (rule_key sub rg nsg rule) (build_rule_response sub rg nsg rule input)
    else (s, not_found nsg_type nsg)

unfoldable pub get_rule : Store Value → (sub rg nsg rule : String) → Response
unfolding get_resource
get_rule s sub rg nsg rule = get_resource s (rule_key sub rg nsg rule) (not_found rule_type rule)

unfoldable pub delete_rule : Store Value → (sub rg nsg rule : String) → Store Value × Response
unfolding delete_resource
delete_rule s sub rg nsg rule =
    delete_resource s (rule_key sub rg nsg rule) (not_found rule_type rule) 202

unfoldable pub list_rules : Store Value → (sub rg nsg : String) → Response
unfolding list_resources
list_rules s sub rg nsg = list_resources s (rule_key sub rg nsg "")
