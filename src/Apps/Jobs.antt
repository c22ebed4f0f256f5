-- ===== src/Apps/Jobs.antt =====
-- internal/services/apps/jobs.go: the jobs of container apps; `none` is a panic, as for the apps.
pub mod Detectors
use miniblue.Prelude.{String, Option, none, some, ◌++◌, [], ◌∷◌}
use miniblue.Store
use miniblue.Store.{Store}
use miniblue.Value.{
  Value, Fields, Items, int, str, maps, array, obj, no_fields, field, no_items, item, items, dict,
  slice, lookup_field, set_field,
}
use miniblue.Http.{Response, json_response, not_found}
use miniblue.Arm.{
  any_of, object_or, array_or_empty, string_or, properties_of, location_of, tags_of, resource_id,
  put_resource, get_resource, delete_resource, list_resources,
}
use miniblue.Apps.{set_state}
use miniblue.Apps.Patch.{tags_set}

abbrev pub type : String
type = "Microsoft.App/jobs"

unfoldable pub job_key : (sub rg name : String) → String
unfolding ◌++◌
job_key sub rg name = "containerjob:" ++ sub ++ ":" ++ rg ++ ":" ++ name

unfoldable pub build_job_response : (sub rg name : String) → Fields → Value
unfolding lookup_field any_of string_or
build_job_response sub rg name input =
    let props = properties_of input in
    let environment = resource_id sub rg "Microsoft.App/managedEnvironments" "default" in
    dict (
      ("id", str (resource_id sub rg type name))
      ∷ ("name", str name)
      ∷ ("type", str type)
      ∷ ("location", str (location_of input))
      ∷ ("tags", obj (tags_of input))
      ∷ (
        "properties",
        dict (
            ("provisioningState", str "Succeeded")
            ∷ ("environmentId", str (string_or environment (lookup_field "environmentId" props)))
            ∷ ("configuration", any_of (lookup_field "configuration" props))
            ∷ ("template", any_of (lookup_field "template" props))
            ∷ ("workloadProfileName", any_of (lookup_field "workloadProfileName" props))
            ∷ []),
      )
      ∷ [])

unfoldable pub create_or_update_job :
    Store Value → (sub rg name : String) → Fields → Store Value × Response
unfolding put_resource
create_or_update_job s sub rg name input =
    put_resource s (job_key sub rg name) (build_job_response sub rg name input)

unfoldable pub get_job : Store Value → (sub rg name : String) → Response
unfolding get_resource
get_job s sub rg name = get_resource s (job_key sub rg name) (not_found type name)

unfoldable pub proxy_get : Store Value → (sub rg name : String) → Response
unfolding get_resource
proxy_get s sub rg name = get_resource s (job_key sub rg name) (not_found type name)

unfoldable pub delete_job : Store Value → (sub rg name : String) → Store Value × Response
unfolding delete_resource
delete_job s sub rg name = delete_resource s (job_key sub rg name) (not_found type name) 200

unfoldable pub list_jobs : Store Value → (sub rg : String) → Response
unfolding ◌++◌ list_resources
list_jobs s sub rg = list_resources s ("containerjob:" ++ sub ++ ":" ++ rg ++ ":")

unfoldable pub list_jobs_by_subscription : Store Value → (sub : String) → Response
unfolding ◌++◌ list_resources
list_jobs_by_subscription s sub = list_resources s ("containerjob:" ++ sub ++ ":")

unfoldable pub start_job : Store Value → (sub rg name : String) → Store Value × Option Response
unfolding set_state
start_job s sub rg name =
    let key = job_key sub rg name in
    set_state s key "Running" (not_found type name) (Store.get s key)

unfoldable pub stop_job : Store Value → (sub rg name : String) → Store Value × Option Response
unfolding set_state
stop_job s sub rg name =
    let key = job_key sub rg name in
    set_state s key "Stopped" (not_found type name) (Store.get s key)

unfoldable pub secret_names : Items → Items
unfolding any_of lookup_field
secret_names no_items = no_items
secret_names (item (obj secret) rest) =
    item (dict (("name", any_of (lookup_field "name" secret)) ∷ [])) (secret_names rest)
secret_names (item v rest) = secret_names rest

unfoldable pub secrets_of_job : (name : String) → Option Value → Option Response
unfolding secret_names array_or_empty object_or properties_of lookup_field
secrets_of_job name none = some (not_found type name)
secrets_of_job name (some (obj job)) =
    let config = object_or no_fields (lookup_field "configuration" (properties_of job)) in
    some (
      json_response 200 (
        dict
          (("value", maps (secret_names (array_or_empty (lookup_field "secrets" config)))) ∷ [])))
secrets_of_job name (some v) = none

unfoldable pub list_secrets : Store Value → (sub rg name : String) → Option Response
unfolding secrets_of_job
list_secrets s sub rg name = secrets_of_job name (Store.get s (job_key sub rg name))

-- `if identity, ok := patch["identity"]; ok { job["identity"] = identity }`
unfoldable pub identity_set : Option Value → Fields → Fields
unfolding set_field
identity_set none job = job
identity_set (some v) job = set_field "identity" v job

-- The loop over the properties of the body, whose order does not matter.
unfoldable pub merge_all : Fields → Fields → Fields
unfolding set_field
merge_all no_fields held = held
merge_all (field k v rest) held = set_field k v (merge_all rest held)

-- The properties of the job are no map: the handler panics, with the tags and the identity set.
unfoldable pub job_merged :
    Store Value
    → (key : String) → (job given : Fields) → (props : Option Value) → Store Value × Option Response
unfolding merge_all set_field
job_merged s key job given (some (obj held)) =
    let job' = set_field "properties" (obj (merge_all given held)) job in
    (Store.set s key (obj job'), some (json_response 200 (obj job')))
job_merged s key job given _ = (Store.set s key (obj job), none)

unfoldable pub job_patched :
    Store Value
    → (key : String) → (job : Fields) → (given : Option Value) → Store Value × Option Response
unfolding job_merged lookup_field
job_patched s key job (some (obj given)) =
    job_merged s key job given (lookup_field "properties" job)
job_patched s key job _ = (Store.set s key (obj job), some (json_response 200 (obj job)))

unfoldable pub job_updated :
    Store Value
    → (key name : String) → (patch : Fields) → Option Value
    → Store Value × Option Response
unfolding job_patched tags_set identity_set lookup_field
job_updated s key name patch none = (s, some (not_found type name))
job_updated s key name patch (some (obj job)) =
    job_patched s key
      (identity_set (lookup_field "identity" patch) (tags_set (lookup_field "tags" patch) job))
      (lookup_field "properties" patch)
job_updated s key name patch (some v) = (s, none)

unfoldable pub update_job :
    Store Value → (sub rg name : String) → Fields → Store Value × Option Response
unfolding job_updated
update_job s sub rg name patch =
    let key = job_key sub rg name in job_updated s key name patch (Store.get s key)

-- `job := v.(map[string]interface{})` and `job["properties"].(map[string]interface{})` panic where they
-- do not fit; what is answered is a function of the job.
unfoldable pub properties_stopped :
    Store Value
    → (key : String) → (Value → Value)
    → (job : Fields) → Option Value
    → Store Value × Option Response
unfolding set_field
properties_stopped s key answer job (some (obj props)) =
    let job' =
      set_field "properties" (obj (set_field "provisioningState" (str "Stopped") props)) job in
    (Store.set s key (obj job'), some (json_response 200 (answer (obj job'))))
properties_stopped s key answer job _ = (s, none)

unfoldable pub execution_stopped :
    Store Value
    → (key name : String) → (Value → Value)
    → Option Value
    → Store Value × Option Response
unfolding properties_stopped lookup_field
execution_stopped s key name answer none = (s, some (not_found type name))
execution_stopped s key name answer (some (obj job)) =
    properties_stopped s key answer job (lookup_field "properties" job)
execution_stopped s key name answer (some v) = (s, none)

unfoldable pub stop_execution : Store Value → (sub rg name : String) → Store Value × Option Response
unfolding execution_stopped
stop_execution s sub rg name =
    let key = job_key sub rg name in execution_stopped s key name (λ job. job) (Store.get s key)

unfoldable pub stop_multiple_executions :
    Store Value → (sub rg name : String) → Store Value × Option Response
unfolding execution_stopped
stop_multiple_executions s sub rg name =
    let key = job_key sub rg name in
    execution_stopped s key name (λ job. dict (("value", slice (job ∷ [])) ∷ [])) (Store.get s key)
