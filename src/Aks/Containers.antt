-- ===== src/Aks/Containers.antt =====
-- internal/services/aks/backend.go and kubeconfig.go: the handle of a real cluster, and the file of a stub.
use miniblue.Prelude.{ℕ, String, ◌≡◌, refl, false, Option, none, some, ◌++◌, [], ◌∷◌, ◌==◌}
use miniblue.Value.{
  Value, Fields, int, number, str, obj, no_fields, dict, lookup_field, set_field, as_object,
  string_or_empty,
}
use miniblue.Arm.Properties.{lookup-set_same}
use miniblue.Arm.{object_or}
use miniblue.ResourceGroups.Cascade.{handle_container}

-- backendHandle
pub record Handle : Type 0 where
  pub container_name : String
  pub host_port : ℕ

unfoldable pub serialize : Handle → Value
serialize h = dict (("containerName", str h.container_name) ∷ ("hostPort", int h.host_port) ∷ [])

port_of : (truncate : String → ℕ) → Option Value → ℕ
port_of truncate (some (int n)) = n
port_of truncate (some (number t)) = truncate t
port_of truncate _ = 0

raw_handle : Value → Fields
unfolding object_or lookup_field
raw_handle (obj cm) = object_or no_fields (lookup_field "_miniblue_backend" cm)
raw_handle v = no_fields

handle_with : (port : ℕ) → Option String → Option Handle
handle_with port none = none
handle_with port (some name) = some (record { container_name = name; host_port = port })

unfoldable pub handle_from_cluster : (truncate : String → ℕ) → Value → Option Handle
unfolding handle_with port_of raw_handle lookup_field
handle_from_cluster truncate v =
    handle_with (port_of truncate (lookup_field "hostPort" (raw_handle v))) (handle_container v)

handle_container-serialize :
    (h : Handle) (cluster : Fields)
    → (h.container_name == "") ≡ false
    → handle_container (obj (set_field "_miniblue_backend" (serialize h) cluster))
      ≡ some h.container_name
unfolding handle_container serialize as_object lookup_field string_or_empty
handle_container-serialize h cluster named =
    rw (lookup-set_same "_miniblue_backend" (serialize h) cluster, handle_container, named) refl

-- The handle that a cluster was given is read back from it.
pub handle_from_cluster-serialize :
    (truncate : String → ℕ) (h : Handle) (cluster : Fields)
    → (h.container_name == "") ≡ false
    → handle_from_cluster truncate (obj (set_field "_miniblue_backend" (serialize h) cluster))
      ≡ some h
unfolding handle_from_cluster handle_with port_of raw_handle serialize object_or lookup_field
handle_from_cluster-serialize truncate h cluster named =
    rw
      (
        lookup-set_same "_miniblue_backend" (serialize h) cluster,
        handle_container-serialize h cluster named,
      )
      refl

handle_container-none :
    (cluster : Fields)
    → lookup_field "_miniblue_backend" cluster ≡ none
    → handle_container (obj cluster) ≡ none
unfolding handle_container as_object
handle_container-none cluster h = rw (h, handle_container) refl

pub handle_from_cluster-none :
    (truncate : String → ℕ) (cluster : Fields)
    → lookup_field "_miniblue_backend" cluster ≡ none
    → handle_from_cluster truncate (obj cluster) ≡ none
unfolding handle_from_cluster handle_with
handle_from_cluster-none truncate cluster h = rw (handle_container-none cluster h) refl

unfoldable pub stub_kubeconfig : (cluster_name : String) → String
unfolding ◌++◌
stub_kubeconfig n =
    "apiVersion: v1\nkind: Config\ncurrent-context: " ++ n ++ "\nclusters:\n- name: " ++ n
    ++ "\n  cluster:\n    server: https://miniblue-aks.invalid:443\n    certificate-authority-data: "
    ++ "LS0tLS1CRUdJTiBDRVJUSUZJQ0FURS0tLS0tCk1JTUlOSUJMVUVTVFVCQ0VSVElGSUNBVEUKLS0tLS1FTkQgQ0VSVElGSUNBVEUtLS0tLQ=="
    ++ "\ncontexts:\n- name: " ++ n ++ "\n  context:\n    cluster: " ++ n
    ++ "\n    user: clusterUser_miniblue_" ++ n ++ "\nusers:\n- name: clusterUser_miniblue_" ++ n
    ++ "\n  user:\n    token: miniblue-stub-token-not-a-real-secret\n"
