-- ===== src/Aks/Laws.antt =====
-- What the handlers of internal/services/aks/handler.go promise of a PUT.
use mathlib.Core.Bool.{false≢true}
use miniblue.Prelude.{
  ℕ, String, Bool, ◌≡◌, refl, sym, ◌∙◌, true, false, Option, ◌++◌, ◌==◌, none, some, is_some,
  has_prefix, Bool-cases, inl, inr, eq_iff, eq_refl, arith, if◌then◌else◌,
}
use miniblue.Store
use miniblue.Store.{Store}
use miniblue.Store.Laws.{get-set_same}
use miniblue.Value.{Value, Fields, obj, no_fields, field, lookup_field, set_field}
use miniblue.Arm.Properties.{lookup-set_field}
use miniblue.Http.{decoded, json_response, write_error, created_or_updated}
use miniblue.Aks.Cluster.{
  valid_cluster_name, build_cluster_response, strip_fields, strip_internal_fields, with_tags,
}
use miniblue.Aks.Containers.{
  Handle, serialize, handle_from_cluster, handle_from_cluster-serialize, handle_from_cluster-none,
}
use miniblue.Aks.{
  Backend, created, create_failed, cluster_key, with_handle, put_cluster, provisioned,
  create_or_update_cluster, get_cluster, shown_cluster,
}

strip_fields_lem :
    (k : String) (fs : Fields)
    → lookup_field k (strip_fields fs)
      ≡ (if has_prefix k "_miniblue" then none else lookup_field k fs)
unfolding strip_fields lookup_field
strip_fields_lem k no_fields = ground arith
strip_fields_lem k (field j v rest) = elim (Bool-cases (j == k)) [
  | inl e ↦ elim (Bool-cases (has_prefix k "_miniblue")) [
    | inl u ↦ rw ((eq_iff j k).0 e, u, strip_fields_lem k rest, u) refl
    | inr u ↦ rw ((eq_iff j k).0 e, u, eq_refl k) refl
  ]
  | inr e ↦ elim (Bool-cases (has_prefix j "_miniblue")) [
    | inl u ↦ rw (u, e) (strip_fields_lem k rest)
    | inr u ↦ rw (u, e) (strip_fields_lem k rest)
  ]
]

-- The handle stands in an internal field.
handle_apart : (k : String) → has_prefix k "_miniblue" ≡ false → ("_miniblue_backend" == k) ≡ false
handle_apart k h = elim (Bool-cases ("_miniblue_backend" == k)) [
  | inl e ↦
      let internal : has_prefix "_miniblue_backend" "_miniblue" ≡ true =
        unfold has_prefix in refl in
      let seen : has_prefix k "_miniblue" ≡ true =
        rw (← (eq_iff "_miniblue_backend" k).0 e) internal in
      absurd (false≢true (sym h ∙ seen))
  | inr e ↦ e
]

-- What is shown of a cluster with its handle is what it has besides the internal fields.
shown_lem :
    (handle : Option Handle) (k : String) (cluster : Fields)
    → lookup_field k (strip_fields (with_handle handle cluster))
      ≡ (if has_prefix k "_miniblue" then none else lookup_field k cluster)
unfolding with_handle
shown_lem none k cluster = strip_fields_lem k cluster
shown_lem (some h) k cluster =
    strip_fields_lem k (set_field "_miniblue_backend" (serialize h) cluster)
    ∙ elim (Bool-cases (has_prefix k "_miniblue")) [
      | inl e ↦ rw e refl
      | inr e ↦
          rw (e, lookup-set_field "_miniblue_backend" k (serialize h) cluster, handle_apart k e)
            refl
    ]

with_tags-no_handle :
    (tags : Option Value) (cluster : Fields)
    → lookup_field "_miniblue_backend" cluster ≡ none
    → lookup_field "_miniblue_backend" (with_tags tags cluster) ≡ none
unfolding with_tags
with_tags-no_handle (some (obj tags)) cluster h =
    lookup-set_field "tags" "_miniblue_backend" (obj tags) cluster ∙ h
with_tags-no_handle _ cluster h = h

-- The body of a request gives a cluster no handle.
built-no_handle :
    (now sub rg name : String) (input : Fields)
    → lookup_field "_miniblue_backend" (build_cluster_response now sub rg name input) ≡ none
unfolding build_cluster_response
built-no_handle now sub rg name input =
    with_tags-no_handle (lookup_field "tags" input) _ (unfold lookup_field in refl)

-- A handle has the name of a container.
abbrev pub Named : Option Handle → Type 0
Named none = Unit
Named (some h) = (h.container_name == "") ≡ false

handle_kept :
    (truncate : String → ℕ) (handle : Option Handle) (now sub rg name : String) (input : Fields)
    → Named handle
    → handle_from_cluster truncate
        (obj (with_handle handle (build_cluster_response now sub rg name input)))
      ≡ handle
unfolding with_handle
handle_kept truncate none now sub rg name input named =
    handle_from_cluster-none truncate _ (built-no_handle now sub rg name input)
handle_kept truncate (some h) now sub rg name input named =
    handle_from_cluster-serialize truncate h (build_cluster_response now sub rg name input) named

answered :
    (known : Bool) (v : Value) → (created_or_updated known v).body ≡ (json_response 200 v).body
answered true v = refl
answered false v = refl

module _ {W : Type 0} (backend : Backend W) (now : String) (w w' : W) (s : Store Value)
    (sub rg name : String) (input : Fields) (valid : valid_cluster_name name ≡ true) where
  -- Where the real backend fails to create the cluster, the answer is 500 and the store is as it was.
  pub failed_provision :
      (e : String)
      → provisioned backend w sub rg name ≡ (w', create_failed e)
      → (create_or_update_cluster backend now w s sub rg name (decoded input)).1 ≡ (
        s,
        write_error 500 "AksBackendUnavailable"
            ("AKS_BACKEND=k3s is set but cluster provisioning failed: " ++ e),
      )
  unfolding create_or_update_cluster put_cluster
  failed_provision e h = rw (valid, h) refl

  -- The name is valid, the body is read and the backend does not fail; a handle that it answers
  -- names a container. Then a GET shows the fields of the cluster that the body describes, less
  -- those whose names begin with _miniblue, the PUT answered with the same body, and the handle of
  -- the backend, or none, is read back from the stored cluster.
  pub get-put :
      (handle : Option Handle)
      → Named handle
      → provisioned backend w sub rg name ≡ (w', created handle)
      → let t = (create_or_update_cluster backend now w s sub rg name (decoded input)).1 in
        (shown : Fields) × (v : Value) × (get_cluster t.0 sub rg name
          ≡ json_response 200 (obj shown))
        × (t.1.body ≡ (get_cluster t.0 sub rg name).body)
        × ((k : String)
            → lookup_field k shown ≡ (
                if has_prefix k "_miniblue"
                then none
                else lookup_field k (build_cluster_response now sub rg name input)))
        × (Store.get t.0 (cluster_key sub rg name) ≡ some v)
        × (handle_from_cluster backend.truncate v ≡ handle)
  unfolding create_or_update_cluster put_cluster get_cluster shown_cluster strip_internal_fields
  get-put handle named h =
      let k = cluster_key sub rg name in
      let built = build_cluster_response now sub rg name input in
      let made = obj (with_handle handle built) in
      let held : Store.get (Store.set s k made) k ≡ some made = get-set_same s k made in
      (
        strip_fields (with_handle handle built),
        made,
        rw (valid, h, held) refl,
        rw (valid, h, held) (answered (is_some (Store.get s k)) _),
        λ j. shown_lem handle j built,
        rw (valid, h, held) refl,
        handle_kept backend.truncate handle now sub rg name input named,
      )
