-- ===== src/Network/Listing.antt =====
-- What a GET of a network says of its subnets, against the list of its subnets.
use miniblue.Prelude.{
  String, ◌≡◌, refl, ap, sym, is_some, eq_refl, Bool-cases, inl, inr, ◌∙◌, some, [],
}
use miniblue.Prelude.Text.{has_prefix_of_differ}
use miniblue.Store
use miniblue.Store.{Store}
use miniblue.Store.Laws.{get-set, list_by_prefix-set}
use miniblue.Value.{Value, Fields, obj, slice, lookup_field}
use miniblue.Arm.{put_resource}
use miniblue.Arm.Properties.{property, shown, listed, property-set_property}
use miniblue.Network.{
  vnet_key, subnet_key, subnet_items, get_vnet, show_vnet, list_subnets, create_or_update_vnet,
  build_vnet_response,
}

subnets_apart :
    (s : Store Value) (sub rg name : String) (v : Value) (vnet : String)
    → subnet_items (Store.set s (vnet_key sub rg name) v) sub rg vnet ≡ subnet_items s sub rg vnet
unfolding subnet_items vnet_key subnet_key
subnets_apart s sub rg name v vnet =
    list_by_prefix-set s _ _ v (has_prefix_of_differ "vnet:" "subnet:" _ _ refl)

-- A GET of a network shows the subnets that the list of its subnets has, if what is stored is a map
-- with properties.
pub get_vnet-list_subnets :
    (s : Store Value) (sub rg name : String) (vnet props : Fields)
    → Store.get s (vnet_key sub rg name) ≡ some (obj vnet)
    → lookup_field "properties" vnet ≡ some (obj props)
    → shown "subnets" (get_vnet s sub rg name).1
      ≡ listed (list_subnets (get_vnet s sub rg name).0 sub rg name)
unfolding get_vnet show_vnet shown listed list_subnets
get_vnet-list_subnets s sub rg name vnet props held h = rw (held) (
    property-set_property "subnets" (slice (subnet_items s sub rg name)) vnet props h
    ∙ ap (λ vs. some (slice vs)) (sym (subnets_apart s sub rg name _ name)))

-- A PUT of a network, also of one that is there, answers and stores it with no subnets, while the list
-- of its subnets stays as it was.
pub create_or_update_vnet_forgets :
    (guid : String) (s : Store Value) (sub rg name : String) (input : Fields)
    → (Store.get (create_or_update_vnet guid s sub rg name input).0 (vnet_key sub rg name)
        ≡ some (build_vnet_response guid sub rg name input))
      × (shown "subnets" (create_or_update_vnet guid s sub rg name input).1 ≡ some (slice []))
      × (listed (list_subnets (create_or_update_vnet guid s sub rg name input).0 sub rg name)
          ≡ listed (list_subnets s sub rg name))
unfolding create_or_update_vnet put_resource listed list_subnets shown build_vnet_response property
    lookup_field
create_or_update_vnet_forgets guid s sub rg name input =
    let k = vnet_key sub rg name in
    let v = build_vnet_response guid sub rg name input in
    let stored : Store.get (Store.set s k v) k ≡ some v = rw (get-set s k k v, eq_refl k) refl in
    let unchanged = ap (λ vs. some (slice vs)) (subnets_apart s sub rg name v name) in
    elim (Bool-cases (is_some (Store.get s k))) [
      | inl e ↦ (stored, rw e refl, unchanged)
      | inr e ↦ (stored, rw e refl, unchanged)
    ]
