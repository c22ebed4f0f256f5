-- ===== src/Aks.antt =====
-- internal/services/aks/handler.go: Kubernetes clusters. The backend that runs real clusters is an
-- argument, as a state and what it answers; logging is left out.
pub mod Cluster
pub mod Containers
pub mod Laws
use Prim.Native.String.{[] as nil, ◌∷◌ as cons}
use miniblue.Prelude.{
  ℕ, zero, suc, String, Bool, true, false, Option, none, some, ◌++◌, List, [], ◌∷◌, ◌==◌, not, ◌&&◌,
  is_some, if◌then◌else◌,
}
use miniblue.Store
use miniblue.Store.{Store}
use miniblue.Value.{
  Value, Fields, Items, int, number, str, array, obj, no_items, item, items, maps, slice, dict,
  lookup_field, set_field, string_or_empty, as_object,
}
use miniblue.Http.{
  Response, Decoded, failed, decoded, status_only, json_response, write_error, bad_request,
  not_found, created_or_updated,
}
use miniblue.Aks.Cluster.{
  valid_cluster_name, build_cluster_response, agent_pools_from_cluster, strip_internal_fields,
  strip_internal_fields_list,
}
use miniblue.Aks.Containers.{Handle, serialize, handle_from_cluster, stub_kubeconfig}

abbrev pub type : String
type = "Microsoft.ContainerService/managedClusters"

unfoldable pub cluster_key : (sub rg name : String) → String
unfolding ◌++◌
cluster_key sub rg name = "aks:cluster:" ++ sub ++ ":" ++ rg ++ ":" ++ name

unfoldable pub cluster_prefix_rg : (sub rg : String) → String
unfolding ◌++◌
cluster_prefix_rg sub rg = "aks:cluster:" ++ sub ++ ":" ++ rg ++ ":"

unfoldable pub cluster_prefix_sub : (sub : String) → String
unfolding ◌++◌
cluster_prefix_sub sub = "aks:cluster:" ++ sub ++ ":"

-- what Create answers: an error, or a handle or none
pub data Created : Type 0 where
  create_failed : (error : String) → Created
  created : Option Handle → Created

-- what Kubeconfig answers: an error, or the text of a file or none
pub data Kubeconfig : Type 0 where
  unreachable : (error : String) → Kubeconfig
  config : Option String → Kubeconfig

-- `real`: realMode; `truncate` is Go's int of a float64, `encode` base64
pub record Backend (W : Type 0) : Type 0 where
  pub real : Bool
  pub create : W → (sub rg name : String) → W × Created
  pub delete : W → Handle → W
  pub kubeconfig : W → Handle → (name : String) → Kubeconfig
  pub truncate : String → ℕ
  pub encode : String → String

unfoldable pub shown_cluster : (name : String) → Option Value → Response
shown_cluster name none = not_found type name
shown_cluster name (some v) = json_response 200 (strip_internal_fields v)

unfoldable pub get_cluster : Store Value → (sub rg name : String) → Response
unfolding shown_cluster
get_cluster s sub rg name = shown_cluster name (Store.get s (cluster_key sub rg name))

unfoldable pub list_clusters_in_rg : Store Value → (sub rg : String) → Response
list_clusters_in_rg s sub rg = json_response 200 (
    dict (
      (
        "value",
        slice (strip_internal_fields_list (Store.list_by_prefix s (cluster_prefix_rg sub rg))),
      )
      ∷ []))

unfoldable pub list_clusters_in_subscription : Store Value → (sub : String) → Response
list_clusters_in_subscription s sub = json_response 200 (
    dict (
      (
        "value",
        slice (strip_internal_fields_list (Store.list_by_prefix s (cluster_prefix_sub sub))),
      )
      ∷ []))

-- A nil slice is encoded as null.
unfoldable pub list_agent_pools : Store Value → (sub rg name : String) → Response
list_agent_pools s sub rg name = elim (Store.get s (cluster_key sub rg name)) [
  | none ↦ not_found type name
  | some v ↦ json_response 200 (dict (("value", agent_pools_from_cluster v sub rg name) ∷ []))
]

-- the loop over the pools
pool_named : (pool : String) → Items → Response
unfolding lookup_field string_or_empty
pool_named pool no_items = not_found "Microsoft.ContainerService/managedClusters/agentPools" pool
pool_named pool (item (obj pm) rest) =
    let more = pool_named pool rest in
    elim (lookup_field "name" pm) [
      | some (str n) ↦ if n == pool then json_response 200 (obj pm) else more
      | _ ↦ more
    ]
pool_named pool (item v rest) = pool_named pool rest

pool_in : (pool : String) → Value → Response
unfolding pool_named
pool_in pool (array vs) = pool_named pool vs
pool_in pool _ = not_found "Microsoft.ContainerService/managedClusters/agentPools" pool

unfoldable pub get_agent_pool : Store Value → (sub rg name pool : String) → Response
unfolding pool_in
get_agent_pool s sub rg name pool = elim (Store.get s (cluster_key sub rg name)) [
  | none ↦ not_found type name
  | some v ↦ pool_in pool (agent_pools_from_cluster v sub rg name)
]

unfoldable pub with_handle : Option Handle → Fields → Fields
unfolding set_field serialize
with_handle none cluster = cluster
with_handle (some h) cluster = set_field "_miniblue_backend" (serialize h) cluster

module _ {W : Type 0} (backend : Backend W) where
  unfoldable pub put_cluster :
      Store Value → (key : String) → (cluster : Fields) → W × Created → W × (Store Value × Response)
  unfolding with_handle write_error ◌++◌
  put_cluster s key cluster (w, create_failed e) = (
    w,
    (
      s,
      write_error 500 "AksBackendUnavailable"
          ("AKS_BACKEND=k3s is set but cluster provisioning failed: " ++ e),
    ),
  )
  put_cluster s key cluster (w, created handle) =
      let cluster' = obj (with_handle handle cluster) in
      (
        w,
        (
          Store.set s key cluster',
          created_or_updated (is_some (Store.get s key)) (strip_internal_fields cluster'),
        ),
      )

  -- In stub mode the backend is not asked.
  unfoldable pub provisioned : W → (sub rg name : String) → W × Created
  provisioned w sub rg name =
      if backend.real then backend.create w sub rg name else (w, created none)

  -- `now`: the time in RFC 3339
  unfoldable pub create_or_update_cluster :
      (now : String)
      → W
      → Store Value
      → (sub rg name : String) → Decoded Fields
      → W × (Store Value × Response)
  unfolding put_cluster provisioned valid_cluster_name
  create_or_update_cluster now w s sub rg name (failed e) =
      if valid_cluster_name name then (w, (s, bad_request "Could not parse request body.")) else (
        w,
        (
          s,
          bad_request
              "Cluster name must match ^[a-zA-Z0-9][-_a-zA-Z0-9]{0,62}$ (Azure AKS naming rule).",
        ),
      )
  create_or_update_cluster now w s sub rg name (decoded input) =
      if valid_cluster_name name
      then put_cluster s (cluster_key sub rg name) (build_cluster_response now sub rg name input)
          (provisioned w sub rg name)
      else (
        w,
        (
          s,
          bad_request
              "Cluster name must match ^[a-zA-Z0-9][-_a-zA-Z0-9]{0,62}$ (Azure AKS naming rule).",
        ),
      )

  container_removed : W → Option Handle → W
  container_removed w none = w
  container_removed w (some h) = backend.delete w h

  -- An error of the backend is only logged.
  unfoldable pub delete_cluster :
      W → Store Value → (sub rg name : String) → W × (Store Value × Response)
  unfolding container_removed
  delete_cluster w s sub rg name = elim (Store.get s (cluster_key sub rg name)) [
    | none ↦ (w, (s, not_found type name))
    | some v ↦
        let w' =
          if backend.real
          then container_removed w (handle_from_cluster backend.truncate v)
          else w in
        (w', ((Store.delete s (cluster_key sub rg name)).0, status_only 204))
  ]

  kubeconfig_response : (kind text : String) → Response
  kubeconfig_response kind text = json_response 200 (
      dict (
        (
          "kubeconfigs",
          maps (items (dict (("name", str kind) ∷ ("value", str (backend.encode text)) ∷ []) ∷ [])),
        )
        ∷ []))

  config_written : (name kind : String) → Kubeconfig → Response
  unfolding kubeconfig_response stub_kubeconfig write_error ◌++◌
  config_written name kind (unreachable e) =
      write_error 500 "AksBackendUnavailable" ("k3s container is unreachable: " ++ e)
  config_written name kind (config none) = kubeconfig_response kind (stub_kubeconfig name)
  config_written name kind (config (some text)) = kubeconfig_response kind text

  real_config : W → (name kind : String) → Option Handle → Response
  unfolding config_written write_error
  real_config w name kind none =
      write_error 500 "AksBackendUnavailable"
        "AKS_BACKEND=k3s is set but this cluster has no real backend; recreate it"
  real_config w name kind (some h) = config_written name kind (backend.kubeconfig w h name)

  unfoldable pub write_kubeconfig_response :
      W → Store Value → (sub rg name kind : String) → Response
  unfolding real_config config_written
  write_kubeconfig_response w s sub rg name kind = elim (Store.get s (cluster_key sub rg name)) [
    | none ↦ not_found type name
    | some v ↦
        if backend.real
        then real_config w name kind (handle_from_cluster backend.truncate v)
        else config_written name kind (config none)
  ]

  unfoldable pub list_admin_credential : W → Store Value → (sub rg name : String) → Response
  list_admin_credential w s sub rg name = write_kubeconfig_response w s sub rg name "clusterAdmin"

  unfoldable pub list_user_credential : W → Store Value → (sub rg name : String) → Response
  list_user_credential w s sub rg name = write_kubeconfig_response w s sub rg name "clusterUser"
