-- ===== src/Network/Parents.antt =====
-- Runs of the handlers of internal/services/network/handler.go: no subnet without its network.
use miniblue.Prelude.{
  String, ◌≡◌, refl, true, Option, some, is_some, sym, ◌∙◌, Bool-cases, inl, inr,
}
use miniblue.Prelude.Text.{NoColon}
use miniblue.Store
use miniblue.Store.{Store}
use miniblue.Store.Laws.{exists-get}
use miniblue.Value.{Value, Fields, obj}
use miniblue.Arm.{put_resource}
use miniblue.Arm.Family
use miniblue.Network.{
  vnet_key, subnet_key, create_or_update_vnet, get_vnet, delete_vnet, create_or_update_subnet,
  delete_subnet, show_vnet, refresh, update_vnet_subnets, build_subnet_response,
}

-- A subnet in the store has its network there.
abbrev HasVnet : Store Value → Type 0
HasVnet s =
    (sub rg vnet subnet : String)
    → NoColon sub
    → NoColon rg
    → NoColon vnet
    → is_some (Store.get s (subnet_key sub rg vnet subnet)) ≡ true
    → is_some (Store.get s (vnet_key sub rg vnet)) ≡ true

-- One request that changes the store; names in URLs have no colon.
pub data Step : Store Value → Store Value → Type 0 where
  put_vnet :
      (guid : String) (s : Store Value) (sub rg name : String) (input : Fields)
      → Step s (create_or_update_vnet guid s sub rg name input).0
  read_vnet : (s : Store Value) (sub rg name : String) → Step s (get_vnet s sub rg name).0
  remove_vnet :
      (s : Store Value) (sub rg name : String)
      → NoColon sub
      → NoColon rg
      → Step s (delete_vnet s sub rg name).0
  put_subnet :
      (s : Store Value) (sub rg vnet subnet : String) (input : Fields)
      → NoColon sub
      → NoColon rg
      → NoColon vnet
      → Step s (create_or_update_subnet s sub rg vnet subnet input).0
  remove_subnet :
      (s : Store Value) (sub rg vnet subnet : String)
      → Step s (delete_subnet s sub rg vnet subnet).0

pub data Reach (s : Store Value) : Store Value → Type 0 where
  here : Reach s s
  next : {t u : Store Value} → Reach s t → Step t u → Reach s u

set_vnet :
    (s : Store Value) (sub rg name : String) (v : Value)
    → HasVnet s
    → HasVnet (Store.set s (vnet_key sub rg name) v)
unfolding vnet_key subnet_key
set_vnet s sub rg name v h =
    Family.set_parent-HasParents "vnet:" "subnet:" refl refl s sub rg name v h

show_vnet-HasVnet :
    (s : Store Value) (sub rg name : String) (o : Option Value)
    → HasVnet s
    → HasVnet (show_vnet s sub rg name o).0
unfolding show_vnet
show_vnet-HasVnet s sub rg name (some (obj m)) h = set_vnet s sub rg name _ h
show_vnet-HasVnet s sub rg name _ h = h

refresh-HasVnet :
    (s : Store Value) (sub rg name : String) (o : Option Value)
    → HasVnet s
    → HasVnet (refresh s sub rg name o)
unfolding refresh
refresh-HasVnet s sub rg name (some (obj m)) h = set_vnet s sub rg name _ h
refresh-HasVnet s sub rg name _ h = h

update_vnet_subnets-HasVnet :
    (s : Store Value) (sub rg name : String)
    → HasVnet s
    → HasVnet (update_vnet_subnets s sub rg name)
unfolding update_vnet_subnets
update_vnet_subnets-HasVnet s sub rg name h = refresh-HasVnet s sub rg name _ h

delete_vnet-HasVnet :
    (s : Store Value) (sub rg name : String)
    → NoColon sub
    → NoColon rg
    → HasVnet s
    → HasVnet (delete_vnet s sub rg name).0
unfolding delete_vnet vnet_key subnet_key
delete_vnet-HasVnet s sub rg name ns nr h =
    Family.remove_family-HasParents "vnet:" "subnet:" refl refl s sub rg name _ _ ns nr h

put_subnet-HasVnet :
    (s : Store Value) (sub rg vnet subnet : String) (input : Fields)
    → NoColon sub
    → NoColon rg
    → NoColon vnet
    → HasVnet s
    → HasVnet (create_or_update_subnet s sub rg vnet subnet input).0
unfolding create_or_update_subnet put_resource vnet_key subnet_key
put_subnet-HasVnet s sub rg vnet subnet input ns nr nv h =
    elim (Bool-cases (Store.exists s (vnet_key sub rg vnet))) [
      | inl e ↦ rw e (
          update_vnet_subnets-HasVnet _ sub rg vnet (
            Family.set_child-HasParents "vnet:" "subnet:" refl refl s sub rg vnet subnet
              (build_subnet_response sub rg vnet subnet input) ns nr nv
              (sym (exists-get s (vnet_key sub rg vnet)) ∙ e) h))
      | inr e ↦ rw e h
    ]

delete_subnet-HasVnet :
    (s : Store Value) (sub rg vnet subnet : String)
    → HasVnet s
    → HasVnet (delete_subnet s sub rg vnet subnet).0
unfolding delete_subnet vnet_key subnet_key
delete_subnet-HasVnet s sub rg vnet subnet h =
    let removed =
      Family.delete_child-HasParents "vnet:" "subnet:" refl refl s sub rg vnet subnet h in
    elim (Bool-cases (Store.delete s (subnet_key sub rg vnet subnet)).1) [
      | inl e ↦ rw e (update_vnet_subnets-HasVnet _ sub rg vnet removed)
      | inr e ↦ rw e removed
    ]

Step-HasVnet : {s t : Store Value} → Step s t → HasVnet s → HasVnet t
unfolding create_or_update_vnet get_vnet put_resource
Step-HasVnet (put_vnet guid s sub rg name input) h = set_vnet s sub rg name _ h
Step-HasVnet (read_vnet s sub rg name) h = show_vnet-HasVnet s sub rg name _ h
Step-HasVnet (remove_vnet s sub rg name ns nr) h = delete_vnet-HasVnet s sub rg name ns nr h
Step-HasVnet (put_subnet s sub rg vnet subnet input ns nr nv) h =
    put_subnet-HasVnet s sub rg vnet subnet input ns nr nv h
Step-HasVnet (remove_subnet s sub rg vnet subnet) h = delete_subnet-HasVnet s sub rg vnet subnet h

Reach-HasVnet : {s t : Store Value} → Reach s t → HasVnet s → HasVnet t
Reach-HasVnet here h = h
Reach-HasVnet (next r st) h = Step-HasVnet st (Reach-HasVnet r h)

new-HasVnet : HasVnet Store.new
unfolding vnet_key subnet_key
new-HasVnet = Family.new-HasParents "vnet:" "subnet:" refl refl

-- After any requests to the handlers of networks, from an empty store on, a subnet that is there has
-- its network there, if the names in the URLs have no colon.
pub subnet_has_vnet :
    (s : Store Value) (sub rg vnet subnet : String)
    → Reach Store.new s
    → NoColon sub
    → NoColon rg
    → NoColon vnet
    → is_some (Store.get s (subnet_key sub rg vnet subnet)) ≡ true
    → is_some (Store.get s (vnet_key sub rg vnet)) ≡ true
subnet_has_vnet s sub rg vnet subnet r ns nr nv there =
    Reach-HasVnet r new-HasVnet sub rg vnet subnet ns nr nv there
