-- ===== src/ResourceGroups/Cascade.antt =====
-- The cascade of the deletion of a resource group: the DeleteByPrefix calls of
-- internal/services/resourcegroups/handler.go, with aks.CleanupClustersInRG and
-- vm.CleanupVMsInRG (internal/services/aks/cascade.go, internal/services/vm/cascade.go) between
-- them. The docker commands are recorded; what docker answers is logged and changes nothing.
pub mod Laws
use mathlib.Core.List
use miniblue.Prelude.{
  String, Bool, Option, none, some, ◌++◌, List, [], ◌∷◌, ◌==◌, if◌then◌else◌, ◌||◌, not,
}
use miniblue.Store
use miniblue.Store.{Store}
use miniblue.Value.{Value, Fields, as_object, lookup_field, string_or_empty}

pub data Docker : Type 0 where
  rm : String → Docker
  network_rm : String → Docker

-- internal/services/aks/backend.go: the container that a cluster's `_miniblue_backend` names
unfoldable pub handle_container : Value → Option String
unfolding as_object lookup_field string_or_empty
handle_container v = elim (as_object v) [
  | none ↦ none
  | some cm ↦ elim (lookup_field "_miniblue_backend" cm) [
    | none ↦ none
    | some raw ↦ elim (as_object raw) [
      | none ↦ none
      | some fs ↦
          let name = string_or_empty (lookup_field "containerName" fs) in
          if name == "" then none else some name
    ]
  ]
]

clusters_loop : List Value → List Docker
unfolding handle_container
clusters_loop [] = []
clusters_loop (v ∷ vs) =
    let rest = clusters_loop vs in
    elim (handle_container v) [ none ↦ rest | some name ↦ rm name ∷ rest ]

unfoldable pub cleanup_clusters : Store Value → String → String → List Docker
unfolding clusters_loop
cleanup_clusters s sub rg =
    clusters_loop (Store.list_by_prefix s ("aks:cluster:" ++ sub ++ ":" ++ rg ++ ":"))

unfoldable pub secret_key : String → String
unfolding ◌++◌
secret_key secret = "vmidsecret:" ++ secret

-- the containers of a VM's services
services_loop : List Value → List Docker
unfolding as_object lookup_field string_or_empty
services_loop [] = []
services_loop (v ∷ vs) =
    let rest = services_loop vs in
    elim (as_object v) [
      | none ↦ rest
      | some svc ↦
          let cn = string_or_empty (lookup_field "_containerName" svc) in
          if cn == "" then rest else rm cn ∷ rest
    ]

-- one round of the loop over the VMs: the identity's secret goes, then the containers
forget_secret : Store Value → (secret : String) → Store Value
unfolding secret_key
forget_secret s secret = if secret == "" then s else (Store.delete s (secret_key secret)).0

vm_containers : Bool → Store Value → (sub rg name : String) → List Docker
unfolding services_loop ◌++◌
vm_containers docker_ok s sub rg name =
    if not docker_ok || name == ""
    then []
    else List.◌++◌
        (services_loop
          (Store.list_by_prefix s ("vmsvc:" ++ sub ++ ":" ++ rg ++ ":" ++ name ++ ":")))
        (rm ("miniblue-vm-" ++ rg ++ "-" ++ name)
          ∷ network_rm ("miniblue-vmnet-" ++ rg ++ "-" ++ name)
          ∷ [])

cleanup_vm : Bool → Store Value → String → String → Option Fields → Store Value × List Docker
unfolding forget_secret vm_containers string_or_empty lookup_field
cleanup_vm docker_ok s sub rg none = (s, [])
cleanup_vm docker_ok s sub rg (some rec) =
    let s' = forget_secret s (string_or_empty (lookup_field "_identitySecret" rec)) in
    (s', vm_containers docker_ok s' sub rg (string_or_empty (lookup_field "name" rec)))

vms_loop : Bool → Store Value → String → String → List Value → Store Value × List Docker
unfolding cleanup_vm as_object
vms_loop docker_ok s sub rg [] = (s, [])
vms_loop docker_ok s sub rg (v ∷ vs) =
    let (s', here) = cleanup_vm docker_ok s sub rg (as_object v) in
    let (s'', rest) = vms_loop docker_ok s' sub rg vs in (s'', List.◌++◌ here rest)

unfoldable pub cleanup_vms : Bool → Store Value → String → String → Store Value × List Docker
unfolding vms_loop
cleanup_vms docker_ok s sub rg =
    vms_loop docker_ok s sub rg (Store.list_by_prefix s ("vm:" ++ sub ++ ":" ++ rg ++ ":"))

-- the prefixes that are cleared before, between and after the two clean-ups, in the code's order
abbrev pub before_aks : List String
before_aks =
    "vnet:" ∷ "subnet:" ∷ "func:" ∷ "acr:registry:" ∷ "eg:topic:" ∷ "dns:zone:" ∷ "dns:record:"
    ∷ "redis:" ∷ "pgflex:server:" ∷ "pgflex:db:" ∷ "dbmysql:server:" ∷ "dbmysql:db:"
    ∷ "sqldb:server:" ∷ "sqldb:db:" ∷ "aci:containergroup:" ∷ []

abbrev pub after_aks : List String
after_aks = "aks:cluster:" ∷ []

abbrev pub after_vms : List String
after_vms =
    "vm:" ∷ "vmsvc:" ∷ "msi:identity:" ∷ "nsg:" ∷ "nsgrule:" ∷ "publicip:" ∷ "lb:" ∷ "appgw:"
    ∷ "blob:account:" ∷ "blob:armcontainer:" ∷ "cosmos:account:" ∷ "cosmos:sqldb:"
    ∷ "cosmos:container:" ∷ "sb:namespace:" ∷ "sb:armqueue:" ∷ "sb:armtopic:" ∷ "appconfig:store:"
    ∷ []

clear : Store Value → String → List String → Store Value
clear s p [] = s
clear s p (kind ∷ kinds) = clear (Store.delete_by_prefix s (kind ++ p)).0 p kinds

unfoldable pub cascade : Bool → Store Value → String → String → Store Value × List Docker
unfolding clear
cascade docker_ok s sub name =
    let p = sub ++ ":" ++ name ++ ":" in
    let s₁ = clear s p before_aks in
    let clusters = cleanup_clusters s₁ sub name in
    let s₂ = clear s₁ p after_aks in
    let (s₃, vms) = cleanup_vms docker_ok s₂ sub name in
    (clear s₃ p after_vms, List.◌++◌ clusters vms)
