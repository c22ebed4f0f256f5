-- ===== src/Dns.antt =====
-- internal/services/dns/handler.go: DNS zones and their record sets. json.Marshal of the two records
-- that a new zone gets cannot fail.
pub mod Parents
use miniblue.Prelude.{
  ℕ, String, true, false, Option, none, some, ◌++◌, List, [], ◌∷◌, is_some, if◌then◌else◌,
}
use miniblue.Store
use miniblue.Store.{Store}
use miniblue.Value.{
  Value, Fields, Items, int, str, dict, slice, items, zone, record_set, lookup_field,
}
use miniblue.Http.{Response, status_only, list_response, not_found, created_or_updated}
use miniblue.Arm.{any_of, resource_id, put_resource, get_resource, delete_resource, list_resources}

abbrev zone_type : String
zone_type = "Microsoft.Network/dnsZones"

unfoldable pub zone_key : (sub rg name : String) → String
unfolding ◌++◌
zone_key sub rg name = "dns:zone:" ++ sub ++ ":" ++ rg ++ ":" ++ name

-- "dns:record:" + sub + ":" + rg + ":" + name + ":"
unfoldable pub record_prefix : (sub rg zone_name : String) → String
unfolding ◌++◌
record_prefix sub rg zone_name = "dns:record:" ++ sub ++ ":" ++ rg ++ ":" ++ zone_name ++ ":"

unfoldable pub record_key : (sub rg zone_name record_type name : String) → String
unfolding ◌++◌
record_key sub rg zone_name record_type name =
    "dns:record:" ++ sub ++ ":" ++ rg ++ ":" ++ zone_name ++ ":" ++ record_type ++ ":" ++ name

name_servers : Items
name_servers = items (str "ns1-01.azure-dns.com." ∷ str "ns2-01.azure-dns.net." ∷ [])

-- `tags`: of the decoded zone, an empty map for a nil one
unfoldable pub zone_value : (sub rg name : String) (tags : Fields) (count : ℕ) → Value
unfolding name_servers
zone_value sub rg name tags count =
    zone (resource_id sub rg zone_type name) name "global" tags count name_servers

unfoldable pub record_value : (sub rg zone_name record_type name : String) → Value → Value
unfolding ◌++◌
record_value sub rg zone_name record_type name properties =
    record_set (resource_id sub rg zone_type zone_name ++ "/" ++ record_type ++ "/" ++ name) name
      (zone_type ++ "/" ++ record_type) properties

soa_properties : (name : String) → Value
unfolding ◌++◌
soa_properties name = dict (
    ("TTL", int 3600)
    ∷ (
      "SOARecord",
      dict (
          ("host", str "ns1-01.azure-dns.com.")
          ∷ ("email", str "azuredns-hostmaster.microsoft.com")
          ∷ ("serialNumber", int 1)
          ∷ ("refreshTime", int 3600)
          ∷ ("retryTime", int 300)
          ∷ ("expireTime", int 2419200)
          ∷ ("minimumTTL", int 300)
          ∷ []),
    )
    ∷ ("fqdn", str (name ++ "."))
    ∷ [])

ns_properties : (name : String) → Value
unfolding ◌++◌
ns_properties name = dict (
    ("TTL", int 172800)
    ∷ (
      "NSRecords",
      slice (
          dict (("nsdname", str "ns1-01.azure-dns.com.") ∷ [])
          ∷ dict (("nsdname", str "ns2-01.azure-dns.net.") ∷ [])
          ∷ []),
    )
    ∷ ("fqdn", str (name ++ "."))
    ∷ [])

-- the two records of a new zone
unfoldable pub add_default_records : Store Value → (sub rg name : String) → Store Value
unfolding soa_properties ns_properties
add_default_records s sub rg name =
    Store.set
      (Store.set s (record_key sub rg name "SOA" "@")
        (record_value sub rg name "SOA" "@" (soa_properties name)))
      (record_key sub rg name "NS" "@") (record_value sub rg name "NS" "@" (ns_properties name))

unfoldable pub create_or_update_zone :
    Store Value → (sub rg name : String) → (tags : Fields) → Store Value × Response
create_or_update_zone s sub rg name tags =
    let k = zone_key sub rg name in
    let counted =
      zone_value sub rg name tags (Store.count_by_prefix s (record_prefix sub rg name)) in
    let s' = Store.set s k counted in
    let fresh = zone_value sub rg name tags 2 in
    if is_some (Store.get s k)
    then (s', created_or_updated true counted)
    else (Store.set (add_default_records s' sub rg name) k fresh, created_or_updated false fresh)

unfoldable pub get_zone : Store Value → (sub rg name : String) → Response
unfolding get_resource
get_zone s sub rg name = get_resource s (zone_key sub rg name) (not_found zone_type name)

unfoldable pub delete_zone : Store Value → (sub rg name : String) → Store Value × Response
delete_zone s sub rg name =
    let (s', found) = Store.delete s (zone_key sub rg name) in
    if found
    then ((Store.delete_by_prefix s' (record_prefix sub rg name)).0, status_only 202)
    else (s', not_found zone_type name)

unfoldable pub list_zones : Store Value → (sub rg : String) → Response
unfolding ◌++◌ list_resources
list_zones s sub rg = list_resources s ("dns:zone:" ++ sub ++ ":" ++ rg ++ ":")

unfoldable pub list_zones_in_subscription : Store Value → (sub : String) → Response
unfolding ◌++◌ list_resources
list_zones_in_subscription s sub = list_resources s ("dns:zone:" ++ sub ++ ":")

-- `raw`: what Decode leaves in the map of raw messages; a nil message is encoded as null
unfoldable pub create_or_update_record_set :
    Store Value
    → (sub rg zone_name record_type name : String) → (raw : Fields) → Store Value × Response
unfolding put_resource any_of lookup_field
create_or_update_record_set s sub rg zone_name record_type name raw =
    if Store.exists s (zone_key sub rg zone_name)
    then put_resource s (record_key sub rg zone_name record_type name)
        (record_value sub rg zone_name record_type name (any_of (lookup_field "properties" raw)))
    else (s, not_found zone_type zone_name)

unfoldable pub get_record_set :
    Store Value → (sub rg zone_name record_type name : String) → Response
unfolding get_resource ◌++◌
get_record_set s sub rg zone_name record_type name =
    get_resource s (record_key sub rg zone_name record_type name)
      (not_found (zone_type ++ "/" ++ record_type) name)

unfoldable pub delete_record_set :
    Store Value → (sub rg zone_name record_type name : String) → Store Value × Response
unfolding delete_resource ◌++◌
delete_record_set s sub rg zone_name record_type name =
    delete_resource s (record_key sub rg zone_name record_type name)
      (not_found (zone_type ++ "/" ++ record_type) name) 200
