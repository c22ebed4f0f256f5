-- ===== src/Tests/Apps.antt =====
-- A container app with a secret, stopped and started, and a job.
use miniblue.Prelude.{◌≡◌, refl, true, some, [], ◌∷◌, is_some}
use miniblue.Store
use miniblue.Store.{Store}
use miniblue.Value.{
  Value, Fields, no_fields, no_items, fields, str, dict, obj, maps, lookup_field, slice,
}
use miniblue.Http.{json_response}
use miniblue.Apps.{container_app_key, start_container_app, stop_container_app, get_container_app}
use miniblue.Apps.Secrets.{list_container_app_secrets, create_container_app_secrets}
use miniblue.Apps.Laws.{created_unlisted, start-stop}
use miniblue.Apps.Jobs.{
  create_or_update_job, start_job, stop_job, update_job, stop_execution, stop_multiple_executions,
  list_secrets,
}
use miniblue.Apps.Runs
use miniblue.Apps.Runs.{no_panic}
use miniblue.Tests.{store_of}

abbrev props : Fields
props = fields (("provisioningState", str "Succeeded") ∷ [])

abbrev app : Fields
app = fields (("name", str "web") ∷ ("properties", obj props) ∷ [])

abbrev with_app : Store Value
with_app = store_of (("containerapp:s1:g1:web", obj app) ∷ [])

abbrev secret : Fields
secret = fields (("name", str "key") ∷ ("value", str "hunter2") ∷ [])

abbrev holes : Value
holes = dict (("a", str "") ∷ ("b", slice (str "" ∷ str "x" ∷ [])) ∷ [])

app_there : Store.get with_app (container_app_key "s1" "g1" "web") ≡ some (obj app)
unfolding container_app_key Store.get
app_there = refl

app_properties : lookup_field "properties" app ≡ some (obj props)
unfolding lookup_field
app_properties = refl

created_unlisted_example :
    list_container_app_secrets
      (create_container_app_secrets with_app "s1" "g1" "web" (secret ∷ [])).0
      "s1"
      "g1"
      "web"
    ≡ some (json_response 200 (dict (("value", maps no_items) ∷ [])))
created_unlisted_example =
    created_unlisted with_app "s1" "g1" "web" app props (secret ∷ []) app_there app_properties

start-stop_example :
    ((start_container_app (stop_container_app with_app "s1" "g1" "web").0 "s1" "g1" "web").1
      ≡ (start_container_app with_app "s1" "g1" "web").1)
    × ((start_container_app with_app "s1" "g1" "web").1
        ≡ some (get_container_app (start_container_app with_app "s1" "g1" "web").0 "s1" "g1" "web"))
start-stop_example = start-stop with_app "s1" "g1" "web" app props app_there app_properties

abbrev with_job : Store Value
with_job = (create_or_update_job Store.new "s1" "g1" "job" no_fields).0

reached : Runs.Reach Store.new with_job
reached = Runs.next Runs.here (Runs.put_step Store.new "s1" "g1" "job" no_fields)

no_panic_example :
    (is_some (start_job with_job "s1" "g1" "job").1 ≡ true)
    × (is_some (stop_job with_job "s1" "g1" "job").1 ≡ true)
    × (is_some (update_job with_job "s1" "g1" "job" app).1 ≡ true)
    × (is_some (stop_execution with_job "s1" "g1" "job").1 ≡ true)
    × (is_some (stop_multiple_executions with_job "s1" "g1" "job").1 ≡ true)
    × (is_some (list_secrets with_job "s1" "g1" "job") ≡ true)
no_panic_example = no_panic with_job "s1" "g1" "job" app reached
