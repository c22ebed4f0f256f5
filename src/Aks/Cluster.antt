-- ===== src/Aks/Cluster.antt =====
-- internal/services/aks/types.go: what is stored of a cluster, and what is shown of it.
use Prim.Native.Char.{Char, code}
use Prim.Native.String.{[] as nil, ◌∷◌ as cons}
use miniblue.Prelude.{
  ℕ, zero, suc, String, Bool, true, false, Option, some, ◌++◌, List, [], ◌∷◌, ◌&&◌, ◌||◌, leb,
  is_some, has_prefix, if◌then◌else◌,
}
use miniblue.Value.{
  Value, Fields, Items, nil as null, bool, int, str, array, obj, no_fields, field, no_items, item,
  items, fields, dict, lookup_field, set_field, string_or_empty,
}
use miniblue.Arm.{array_or_empty, object_or, string_or, properties_of, location_of, resource_id}
use miniblue.SqlServer.{is_name_text}

is_alphanumeric : Char → Bool
is_alphanumeric c =
    leb b'a' (code c) && leb (code c) b'z'
    || leb b'A' (code c) && leb (code c) b'Z'
    || leb b'0' (code c) && leb (code c) b'9'

-- at most `n` characters
within : (n : ℕ) → String → Bool
within n nil = true
within zero (cons c s) = false
within (suc n) (cons c s) = within n s

-- ^[a-zA-Z0-9][-_a-zA-Z0-9]{0,62}$
unfoldable pub valid_cluster_name : String → Bool
unfolding is_alphanumeric within is_name_text
valid_cluster_name nil = false
valid_cluster_name (cons c s) = is_alphanumeric c && is_name_text s && within 62 s

-- `if _, ok := pm[k]; !ok { pm[k] = v }`
default_field : (k : String) → Value → Fields → Fields
unfolding lookup_field set_field
default_field k v pm = if is_some (lookup_field k pm) then pm else set_field k v pm

running : Value
running = dict (("code", str "Running") ∷ [])

unfoldable pub completed_pool : Fields → Fields
unfolding default_field running
completed_pool pm = default_field "powerState" running (
    default_field "provisioningState" (str "Succeeded") (
      default_field "mode" (str "System") (
        default_field "osType" (str "Linux")
          (default_field "vmSize" (str "Standard_DS2_v2") (default_field "count" (int 1) pm)))))

unfoldable pub completed_pools : Items → Items
unfolding completed_pool
completed_pools no_items = no_items
completed_pools (item (obj pm) rest) = item (obj (completed_pool pm)) (completed_pools rest)
completed_pools (item v rest) = completed_pools rest

unfoldable pub normalize_agent_pools : Items → Items
unfolding completed_pools running
normalize_agent_pools no_items = items (
    dict (
      ("name", str "default")
      ∷ ("count", int 1)
      ∷ ("vmSize", str "Standard_DS2_v2")
      ∷ ("osType", str "Linux")
      ∷ ("osDiskSizeGB", int 30)
      ∷ ("mode", str "System")
      ∷ ("orchestratorVersion", str "1.30.0")
      ∷ ("provisioningState", str "Succeeded")
      ∷ ("powerState", running)
      ∷ ("type", str "VirtualMachineScaleSets")
      ∷ [])
    ∷ [])
normalize_agent_pools (item v rest) = completed_pools (item v rest)

unfoldable pub with_tags : Option Value → Fields → Fields
unfolding set_field
with_tags (some (obj tags)) resp = set_field "tags" (obj tags) resp
with_tags _ resp = resp

default_identity : Fields
default_identity = fields (
    ("type", str "SystemAssigned")
    ∷ ("principalId", str "00000000-0000-0000-0000-000000000003")
    ∷ ("tenantId", str "00000000-0000-0000-0000-000000000001")
    ∷ [])

default_network_profile : Fields
default_network_profile = fields (
    ("networkPlugin", str "kubenet")
    ∷ ("loadBalancerSku", str "standard")
    ∷ ("serviceCidr", str "10.0.0.0/16")
    ∷ ("dnsServiceIP", str "10.0.0.10")
    ∷ ("podCidr", str "10.244.0.0/16")
    ∷ [])

unfoldable pub build_cluster_response : (now sub rg name : String) → Fields → Fields
unfolding with_tags default_identity default_network_profile normalize_agent_pools running string_or
    object_or array_or_empty lookup_field ◌++◌
build_cluster_response now sub rg name input =
    let location = location_of input in
    let props = properties_of input in
    let kube_version = string_or "1.30.0" (lookup_field "kubernetesVersion" props) in
    let dns_prefix = string_or name (lookup_field "dnsPrefix" props) in
    with_tags (lookup_field "tags" input) (
      fields (
        ("id", str (resource_id sub rg "Microsoft.ContainerService/managedClusters" name))
        ∷ ("name", str name)
        ∷ ("type", str "Microsoft.ContainerService/managedClusters")
        ∷ ("location", str location)
        ∷ ("identity", obj (object_or default_identity (lookup_field "identity" input)))
        ∷ (
          "properties",
          dict (
              ("provisioningState", str "Succeeded")
              ∷ ("powerState", running)
              ∷ ("kubernetesVersion", str kube_version)
              ∷ ("currentKubernetesVersion", str kube_version)
              ∷ ("dnsPrefix", str dns_prefix)
              ∷ ("fqdn", str (dns_prefix ++ ".hcp." ++ location ++ ".azmk8s.io"))
              ∷ (
                "agentPoolProfiles",
                array (
                    normalize_agent_pools
                      (array_or_empty (lookup_field "agentPoolProfiles" props))),
              )
              ∷ (
                "servicePrincipalProfile",
                obj (
                    object_or (fields (("clientId", str "msi") ∷ []))
                      (lookup_field "servicePrincipalProfile" props)),
              )
              ∷ (
                "networkProfile",
                obj (object_or default_network_profile (lookup_field "networkProfile" props)),
              )
              ∷ ("nodeResourceGroup", str ("MC_" ++ rg ++ "_" ++ name ++ "_" ++ location))
              ∷ ("enableRBAC", bool true)
              ∷ ("maxAgentPools", int 10)
              ∷ ("createdAt", str now)
              ∷ []),
        )
        ∷ []))

-- the loop over the profiles
unfoldable pub wrapped_pools : (sub rg cluster_name : String) → Items → Items
unfolding string_or_empty lookup_field ◌++◌
wrapped_pools sub rg cluster_name no_items = no_items
wrapped_pools sub rg cluster_name (item (obj pm) rest) =
    let pool_name = string_or_empty (lookup_field "name" pm) in
    let more = wrapped_pools sub rg cluster_name rest in
    item
      (dict (
        (
          "id",
          str (
              resource_id sub rg "Microsoft.ContainerService/managedClusters"
                (cluster_name ++ "/agentPools/" ++ pool_name)),
        )
        ∷ ("name", str pool_name)
        ∷ ("type", str "Microsoft.ContainerService/managedClusters/agentPools")
        ∷ ("properties", obj pm)
        ∷ []))
      more
wrapped_pools sub rg cluster_name (item v rest) = wrapped_pools sub rg cluster_name rest

pools_of_properties : (sub rg cluster_name : String) → Option Value → Value
unfolding wrapped_pools array_or_empty lookup_field
pools_of_properties sub rg cluster_name (some (obj props)) =
    array
      (wrapped_pools sub rg cluster_name (array_or_empty (lookup_field "agentPoolProfiles" props)))
pools_of_properties sub rg cluster_name _ = null

-- A nil slice, which is encoded as null, where there are no properties.
unfoldable pub agent_pools_from_cluster : Value → (sub rg cluster_name : String) → Value
unfolding pools_of_properties lookup_field
agent_pools_from_cluster (obj cm) sub rg cluster_name =
    pools_of_properties sub rg cluster_name (lookup_field "properties" cm)
agent_pools_from_cluster v sub rg cluster_name = null

unfoldable pub strip_fields : Fields → Fields
unfolding has_prefix
strip_fields no_fields = no_fields
strip_fields (field k v rest) =
    let out = strip_fields rest in if has_prefix k "_miniblue" then out else field k v out

unfoldable pub strip_internal_fields : Value → Value
unfolding strip_fields
strip_internal_fields (obj cm) = obj (strip_fields cm)
strip_internal_fields v = v

unfoldable pub strip_internal_fields_list : List Value → List Value
unfolding strip_internal_fields
strip_internal_fields_list [] = []
strip_internal_fields_list (v ∷ vs) = strip_internal_fields v ∷ strip_internal_fields_list vs
