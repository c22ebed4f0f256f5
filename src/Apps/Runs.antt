-- ===== src/Apps/Runs.antt =====
-- Runs of the handlers of internal/services/apps/jobs.go, with other requests between them.
use mathlib.Core.Bool.{false≢true}
use miniblue.Prelude.{String, true, ◌≡◌, refl, Option, none, some, [], ◌∷◌, is_some, has_prefix}
use miniblue.Prelude.Text.{has_prefix-append_self}
use miniblue.Store
use miniblue.Store.{Store}
use miniblue.Store.Laws.{get-new}
use miniblue.Value.{Value, Fields, obj, lookup_field, dict, slice}
use miniblue.Arm.{put_resource}
use miniblue.Arm.Family.{delete_resource-store}
use miniblue.Http.{not_found}
use miniblue.Apps.Jobs.{
  type, job_key, build_job_response, create_or_update_job, delete_job, start_job, stop_job,
  update_job, stop_execution, stop_multiple_executions, list_secrets, secrets_of_job,
}
use miniblue.Apps.Panics.{
  is_fit, is_map, AreFit, set-AreFit, delete-AreFit, IsFine, set_state-IsFine, job_updated-IsFine,
  execution_stopped-IsFine,
}

-- a request of any handler; one that is not of a job leaves the jobs alone
pub data Step : Store Value → Store Value → Type 0 where
  put_step :
      (s : Store Value) (sub rg name : String) (input : Fields)
      → Step s (create_or_update_job s sub rg name input).0
  delete_step : (s : Store Value) (sub rg name : String) → Step s (delete_job s sub rg name).0
  start_step : (s : Store Value) (sub rg name : String) → Step s (start_job s sub rg name).0
  stop_step : (s : Store Value) (sub rg name : String) → Step s (stop_job s sub rg name).0
  update_step :
      (s : Store Value) (sub rg name : String) (patch : Fields)
      → Step s (update_job s sub rg name patch).0
  stop_execution_step :
      (s : Store Value) (sub rg name : String) → Step s (stop_execution s sub rg name).0
  stop_multiple_step :
      (s : Store Value) (sub rg name : String) → Step s (stop_multiple_executions s sub rg name).0
  elsewhere :
      (s t : Store Value)
      → ((k : String) → has_prefix k "containerjob:" ≡ true → Store.get t k ≡ Store.get s k)
      → Step s t

pub data Reach (s : Store Value) : Store Value → Type 0 where
  here : Reach s s
  next : {t u : Store Value} → Reach s t → Step t u → Reach s u

Jobs : Store Value → Type 0
Jobs s = AreFit "containerjob:" s

job_key-under : (sub rg name : String) → has_prefix (job_key sub rg name) "containerjob:" ≡ true
unfolding job_key
job_key-under sub rg name = has_prefix-append_self "containerjob:" _

start_job-IsFine :
    (s : Store Value) (sub rg name : String)
    → Jobs s
    → IsFine "containerjob:" (start_job s sub rg name)
unfolding start_job Jobs
start_job-IsFine s sub rg name h =
    set_state-IsFine "containerjob:" s _ _ _ _ (h _ (job_key-under sub rg name)) h

stop_job-IsFine :
    (s : Store Value) (sub rg name : String)
    → Jobs s
    → IsFine "containerjob:" (stop_job s sub rg name)
unfolding stop_job Jobs
stop_job-IsFine s sub rg name h =
    set_state-IsFine "containerjob:" s _ _ _ _ (h _ (job_key-under sub rg name)) h

update_job-IsFine :
    (s : Store Value) (sub rg name : String) (patch : Fields)
    → Jobs s
    → IsFine "containerjob:" (update_job s sub rg name patch)
unfolding update_job Jobs
update_job-IsFine s sub rg name patch h =
    job_updated-IsFine "containerjob:" s _ _ patch _ (h _ (job_key-under sub rg name)) h

stop_execution-IsFine :
    (s : Store Value) (sub rg name : String)
    → Jobs s
    → IsFine "containerjob:" (stop_execution s sub rg name)
unfolding stop_execution Jobs
stop_execution-IsFine s sub rg name h =
    execution_stopped-IsFine "containerjob:" s _ _ (λ job. job) _ (h _ (job_key-under sub rg name))
      h

stop_multiple-IsFine :
    (s : Store Value) (sub rg name : String)
    → Jobs s
    → IsFine "containerjob:" (stop_multiple_executions s sub rg name)
unfolding stop_multiple_executions Jobs
stop_multiple-IsFine s sub rg name h =
    execution_stopped-IsFine "containerjob:" s _ _ (λ job. dict (("value", slice (job ∷ [])) ∷ []))
      _ (h _ (job_key-under sub rg name)) h

secrets_of_job-answers :
    (name : String) (o : Option Value) → is_fit o ≡ true → is_some (secrets_of_job name o) ≡ true
unfolding secrets_of_job is_fit
secrets_of_job-answers name none e = refl
secrets_of_job-answers name (some (obj job)) e = refl
secrets_of_job-answers name (some v) e = absurd (false≢true e)

list_secrets-answers :
    (s : Store Value) (sub rg name : String) → Jobs s → is_some (list_secrets s sub rg name) ≡ true
unfolding list_secrets Jobs
list_secrets-answers s sub rg name h =
    secrets_of_job-answers name (Store.get s (job_key sub rg name))
      (h _ (job_key-under sub rg name))

built-is_fit :
    (sub rg name : String) (input : Fields)
    → is_fit (some (build_job_response sub rg name input)) ≡ true
unfolding build_job_response is_fit is_map lookup_field
built-is_fit sub rg name input = refl

Step-Jobs : {s t : Store Value} → Step s t → Jobs s → Jobs t
unfolding Jobs create_or_update_job put_resource delete_job
Step-Jobs (put_step s sub rg name input) h =
    set-AreFit "containerjob:" s _ (build_job_response sub rg name input)
      (built-is_fit sub rg name input) h
Step-Jobs (delete_step s sub rg name) h =
    rw (delete_resource-store s (job_key sub rg name) (not_found type name) 200)
      (delete-AreFit "containerjob:" s _ h)
Step-Jobs (start_step s sub rg name) h = (start_job-IsFine s sub rg name h).0
Step-Jobs (stop_step s sub rg name) h = (stop_job-IsFine s sub rg name h).0
Step-Jobs (update_step s sub rg name patch) h = (update_job-IsFine s sub rg name patch h).0
Step-Jobs (stop_execution_step s sub rg name) h = (stop_execution-IsFine s sub rg name h).0
Step-Jobs (stop_multiple_step s sub rg name) h = (stop_multiple-IsFine s sub rg name h).0
Step-Jobs (elsewhere s t same) h = λ k under. rw (same k under) (h k under)

Reach-Jobs : {s t : Store Value} → Reach s t → Jobs s → Jobs t
Reach-Jobs here h = h
Reach-Jobs (next r st) h = Step-Jobs st (Reach-Jobs r h)

new-Jobs : Jobs Store.new
unfolding Jobs
new-Jobs k under = rw (get-new {V = Value} k) (unfold is_fit in refl)

-- After any requests from an empty store on, of jobs and of anything that leaves them alone, no request
-- to a job panics.
pub no_panic :
    (s : Store Value) (sub rg name : String) (patch : Fields)
    → Reach Store.new s
    → (is_some (start_job s sub rg name).1 ≡ true)
      × (is_some (stop_job s sub rg name).1 ≡ true)
      × (is_some (update_job s sub rg name patch).1 ≡ true)
      × (is_some (stop_execution s sub rg name).1 ≡ true)
      × (is_some (stop_multiple_executions s sub rg name).1 ≡ true)
      × (is_some (list_secrets s sub rg name) ≡ true)
no_panic s sub rg name patch r =
    let h = Reach-Jobs r new-Jobs in
    (
      (start_job-IsFine s sub rg name h).1,
      (stop_job-IsFine s sub rg name h).1,
      (update_job-IsFine s sub rg name patch h).1,
      (stop_execution-IsFine s sub rg name h).1,
      (stop_multiple-IsFine s sub rg name h).1,
      list_secrets-answers s sub rg name h,
    )
