-- ===== src/Tests/Clusters.antt =====
-- A cluster on a backend that answers a handle.
use miniblue.Prelude.{ℕ, String, ◌≡◌, refl, true, none, some, has_prefix, if◌then◌else◌}
use miniblue.Store
use miniblue.Store.{Store}
use miniblue.Value.{Value, Fields, no_fields, obj, lookup_field}
use miniblue.Http.{decoded, json_response}
use miniblue.Aks.Cluster.{valid_cluster_name, build_cluster_response}
use miniblue.Aks.Containers.{Handle, handle_from_cluster}
use miniblue.Aks.{
  Backend, created, config, cluster_key, provisioned, create_or_update_cluster, get_cluster,
}
use miniblue.Aks.Laws.{get-put}

abbrev handle : Handle
handle = record { container_name = "miniblue-aks-c1"; host_port = 6443 }

-- the state counts the clusters
abbrev k3s : Backend ℕ
k3s = record {
  real = true;
  create = λ w sub rg name. (1, created (some handle));
  delete = λ w h. w;
  kubeconfig = λ w h name. config none;
  truncate = λ t. 0;
  encode = λ t. t;
}

c1-valid : valid_cluster_name "c1" ≡ true
unfolding valid_cluster_name
c1-valid = refl

c1-provisioned : provisioned k3s 0 "s1" "g1" "c1" ≡ (1, created (some handle))
unfolding provisioned
c1-provisioned = refl

get-put_example :
    let t = (create_or_update_cluster k3s "now" 0 Store.new "s1" "g1" "c1" (decoded no_fields)).1 in
    (shown : Fields) × (v : Value) × (get_cluster t.0 "s1" "g1" "c1"
      ≡ json_response 200 (obj shown))
    × (t.1.body ≡ (get_cluster t.0 "s1" "g1" "c1").body)
    × ((k : String)
        → lookup_field k shown ≡ (
            if has_prefix k "_miniblue"
            then none
            else lookup_field k (build_cluster_response "now" "s1" "g1" "c1" no_fields)))
    × (Store.get t.0 (cluster_key "s1" "g1" "c1") ≡ some v)
    × (handle_from_cluster (λ text. 0) v ≡ some handle)
get-put_example =
    get-put k3s "now" 0 1 Store.new "s1" "g1" "c1" no_fields c1-valid (some handle) refl
      c1-provisioned
