-- ===== src/ResourceGroups/Cascade/Laws.antt =====
-- The keys under the prefixes that Delete of internal/services/resourcegroups/handler.go clears.
use mathlib.Core.List
use mathlib.Core.Bool.{◌||◌, false≢true}
use miniblue.Prelude.{
  String, ◌≡◌, inl, inr, refl, ◌∙◌, Bool, false, Option, none, some, List, [], ◌∷◌, ◌++◌, ◌==◌,
  arith, eq_iff, Bool-cases, has_prefix, if◌then◌else◌,
}
use miniblue.Prelude.Text.{has_prefix-append_self}
use miniblue.Store
use miniblue.Store.{Store}
use miniblue.Store.Laws.{get-delete, get-delete_by_prefix}
use miniblue.Value.{Value, Fields, as_object}
use miniblue.ResourceGroups.Cascade.{
  clear, forget_secret, cleanup_vm, vms_loop, cleanup_vms, cascade, secret_key, before_aks,
  after_aks, after_vms,
}

-- one of the cleared prefixes begins the key
abbrev pub under : String → List String → String → Bool
under p [] k = false
under p (kind ∷ kinds) k = has_prefix k (kind ++ p) || under p kinds k

get-clear :
    (s : Store Value) (p k : String) (kinds : List String)
    → Store.get (clear s p kinds) k ≡ (if under p kinds k then none else Store.get s k)
unfolding clear
get-clear s p k [] = refl
get-clear s p k (kind ∷ kinds) = ground (
  arith,
  get-clear (Store.delete_by_prefix s (kind ++ p)).0 p k kinds,
  get-delete_by_prefix s (kind ++ p) k,
)

-- the 33 kinds of resources that go
abbrev pub cleared : List String
cleared =
    "vnet:" ∷ "subnet:" ∷ "func:" ∷ "acr:registry:" ∷ "eg:topic:" ∷ "dns:zone:" ∷ "dns:record:"
    ∷ "redis:" ∷ "pgflex:server:" ∷ "pgflex:db:" ∷ "dbmysql:server:" ∷ "dbmysql:db:"
    ∷ "sqldb:server:" ∷ "sqldb:db:" ∷ "aci:containergroup:" ∷ "aks:cluster:" ∷ "vm:" ∷ "vmsvc:"
    ∷ "msi:identity:" ∷ "nsg:" ∷ "nsgrule:" ∷ "publicip:" ∷ "lb:" ∷ "appgw:" ∷ "blob:account:"
    ∷ "blob:armcontainer:" ∷ "cosmos:account:" ∷ "cosmos:sqldb:" ∷ "cosmos:container:"
    ∷ "sb:namespace:" ∷ "sb:armqueue:" ∷ "sb:armtopic:" ∷ "appconfig:store:" ∷ []

under-append :
    (p k : String) (as' bs : List String)
    → under p (List.◌++◌ as' bs) k ≡ (under p as' k || under p bs k)
under-append p k [] bs = refl
under-append p k (a ∷ as') bs = ground (arith, under-append p k as' bs)

or_ifs {ℓ} :
    {A : Type ℓ} (a b c : Bool) (o : Option A)
    → (if c then none else if b then none else if a then none else o)
      ≡ (if a || (b || c) then none else o)
or_ifs a b c o = ground arith

ifs_lem {ℓ} :
    {A : Type ℓ} (p k : String) (o : Option A)
    → (if under p after_vms k
        then none
        else if under p after_aks k
        then none
        else if under p before_aks k
        then none
        else o)
      ≡ (if under p cleared k then none else o)
ifs_lem p k o =
    rw
      (
        under-append p k before_aks (List.◌++◌ after_aks after_vms),
        under-append p k after_aks after_vms,
      )
      (or_ifs (under p before_aks k) (under p after_aks k) (under p after_vms k) o)

module _ (k : String) (no_secret : has_prefix k "vmidsecret:" ≡ false) where
  get-delete_secret :
      (s : Store Value) (secret : String)
      → Store.get (Store.delete s (secret_key secret)).0 k ≡ Store.get s k
  unfolding secret_key
  get-delete_secret s secret = elim (Bool-cases ("vmidsecret:" ++ secret == k)) [
    | inl e ↦
        let same : "vmidsecret:" ++ secret ≡ k = (eq_iff _ k).0 e in
        absurd
          (false≢true (rw no_secret at (rw same at (has_prefix-append_self "vmidsecret:" secret))))
    | inr e ↦ get-delete s ("vmidsecret:" ++ secret) k ∙ rw e
  ]

  get-forget_secret :
      (s : Store Value) (secret : String) → Store.get (forget_secret s secret) k ≡ Store.get s k
  unfolding forget_secret
  get-forget_secret s secret = ground (arith, get-delete_secret s secret)

  get-cleanup_vm :
      (docker_ok : Bool) (s : Store Value) (sub rg : String) (rec : Option Fields)
      → Store.get (cleanup_vm docker_ok s sub rg rec).0 k ≡ Store.get s k
  unfolding cleanup_vm
  get-cleanup_vm docker_ok s sub rg none = refl
  get-cleanup_vm docker_ok s sub rg (some rec) = get-forget_secret s _

  get-vms_loop :
      (docker_ok : Bool) (s : Store Value) (sub rg : String) (vs : List Value)
      → Store.get (vms_loop docker_ok s sub rg vs).0 k ≡ Store.get s k
  unfolding vms_loop
  get-vms_loop docker_ok s sub rg [] = refl
  get-vms_loop docker_ok s sub rg (v ∷ vs) =
      get-vms_loop docker_ok (cleanup_vm docker_ok s sub rg (as_object v)).0 sub rg vs
      ∙ get-cleanup_vm docker_ok s sub rg (as_object v)

  -- the whole cascade
  pub get-cascade :
      (docker_ok : Bool) (s : Store Value) (sub name : String)
      → Store.get (cascade docker_ok s sub name).0 k
        ≡ (if under (sub ++ ":" ++ name ++ ":") cleared k then none else Store.get s k)
  unfolding cascade cleanup_vms
  get-cascade docker_ok s sub name =
      let p = sub ++ ":" ++ name ++ ":" in
      let s₁ = clear s p before_aks in
      let s₂ = clear s₁ p after_aks in
      let s₃ = (cleanup_vms docker_ok s₂ sub name).0 in
      let vms = Store.list_by_prefix s₂ ("vm:" ++ sub ++ ":" ++ name ++ ":") in
      let here : Store.get s₃ k ≡ Store.get s₂ k = get-vms_loop docker_ok s₂ sub name vms in
      get-clear s₃ p k after_vms
      ∙ rw (here, get-clear s₁ p k after_aks, get-clear s p k before_aks)
          (ifs_lem p k (Store.get s k))
