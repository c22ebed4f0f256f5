-- ===== src/Tests/Networks.antt =====
-- A network with a subnet, a zone with its two records, and a public IP.
use miniblue.Prelude.{◌≡◌, refl, arith, true, some, [], ◌∷◌, is_some}
use miniblue.Prelude.Text.{NoColon}
use miniblue.Store
use miniblue.Store.{Store}
use miniblue.Value.{Value, Fields, no_fields, obj, slice, fields, str}
use miniblue.Arm.Properties.{shown, listed}
use miniblue.Network.{
  vnet_key, subnet_key, create_or_update_vnet, create_or_update_subnet, get_vnet, list_subnets,
  build_vnet_response,
}
use miniblue.Network.Parents
use miniblue.Network.Parents.{subnet_has_vnet}
use miniblue.Network.Listing.{create_or_update_vnet_forgets}
use miniblue.Dns.{zone_key, record_key, create_or_update_zone}
use miniblue.Dns.Parents as Zones
use miniblue.Dns.Parents.{record_has_zone}
use miniblue.Tests.{store_of}

s1-NoColon : NoColon "s1"
s1-NoColon = (omega arith, (omega arith, tt))

g1-NoColon : NoColon "g1"
g1-NoColon = (omega arith, (omega arith, tt))

n1-NoColon : NoColon "n1"
n1-NoColon = (omega arith, (omega arith, tt))

abbrev with_vnet : Store Value
with_vnet = (create_or_update_vnet "guid" Store.new "s1" "g1" "n1" no_fields).0

abbrev with_subnet : Store Value
with_subnet = (create_or_update_subnet with_vnet "s1" "g1" "n1" "a" no_fields).0

reached : Parents.Reach Store.new with_subnet
reached =
    Parents.next
      (Parents.next Parents.here (Parents.put_vnet "guid" Store.new "s1" "g1" "n1" no_fields))
      (Parents.put_subnet with_vnet "s1" "g1" "n1" "a" no_fields s1-NoColon g1-NoColon n1-NoColon)

subnet_there : is_some (Store.get with_subnet (subnet_key "s1" "g1" "n1" "a")) ≡ true
unfolding Store.get Store.set Store.new Store.exists create_or_update_vnet create_or_update_subnet
    vnet_key subnet_key miniblue.Network.update_vnet_subnets build_vnet_response
subnet_there = refl

subnet_has_vnet_example : is_some (Store.get with_subnet (vnet_key "s1" "g1" "n1")) ≡ true
subnet_has_vnet_example =
    subnet_has_vnet with_subnet "s1" "g1" "n1" "a" reached s1-NoColon g1-NoColon n1-NoColon
      subnet_there

abbrev props : Fields
props = fields (("subnets", slice []) ∷ [])

abbrev vnet : Fields
vnet = fields (("name", str "n1") ∷ ("properties", obj props) ∷ [])

abbrev held : Store Value
held = store_of (("vnet:s1:g1:n1", obj vnet) ∷ ("subnet:s1:g1:n1:a", str "a") ∷ [])

network_stored : Store.get held (vnet_key "s1" "g1" "n1") ≡ some (obj vnet)
unfolding Store.get vnet_key
network_stored = refl

create_or_update_vnet_forgets_example :
    (Store.get
        (create_or_update_vnet "guid" held "s1" "g1" "n1" no_fields).0
        (vnet_key "s1" "g1" "n1")
      ≡ some (build_vnet_response "guid" "s1" "g1" "n1" no_fields))
    × (shown "subnets" (create_or_update_vnet "guid" held "s1" "g1" "n1" no_fields).1
        ≡ some (slice []))
    × (listed (
          list_subnets
            (create_or_update_vnet "guid" held "s1" "g1" "n1" no_fields).0
            "s1"
            "g1"
            "n1")
        ≡ listed (list_subnets held "s1" "g1" "n1"))
create_or_update_vnet_forgets_example =
    create_or_update_vnet_forgets "guid" held "s1" "g1" "n1" no_fields

abbrev with_zone : Store Value
with_zone = (create_or_update_zone Store.new "s1" "g1" "n1" no_fields).0

zone_reached : Zones.Reach Store.new with_zone
zone_reached =
    Zones.next Zones.here
      (Zones.put_zone Store.new "s1" "g1" "n1" no_fields s1-NoColon g1-NoColon n1-NoColon)

record_there : is_some (Store.get with_zone (record_key "s1" "g1" "n1" "NS" "@")) ≡ true
unfolding Store.get Store.set Store.new create_or_update_zone zone_key record_key
    miniblue.Dns.add_default_records
record_there = refl

record_has_zone_example : is_some (Store.get with_zone (zone_key "s1" "g1" "n1")) ≡ true
record_has_zone_example =
    record_has_zone with_zone "s1" "g1" "n1" "NS" "@" zone_reached s1-NoColon g1-NoColon n1-NoColon
      record_there
