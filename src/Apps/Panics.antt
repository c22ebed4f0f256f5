-- ===== src/Apps/Panics.antt =====
-- The handlers of internal/services/apps/jobs.go and containerapps.go take what is stored for a map with
-- a map of properties, and panic on anything else.
use mathlib.Core.Bool.{false≢true}
use miniblue.Prelude.{
  eq_refl, String, Bool, true, false, ◌≡◌, refl, Option, none, some, ◌==◌, is_some, has_prefix,
  arith, eq_iff,
}
use miniblue.Store
use miniblue.Store.{Store}
use miniblue.Store.Laws.{get-set, get-delete}
use miniblue.Value.{Value, Fields, obj, lookup_field, set_field}
use miniblue.Http.{Response}
use miniblue.Arm.Properties.{lookup-set_field}
use miniblue.Apps.{set_state, state_set}
use miniblue.Apps.Patch.{tags_set}
use miniblue.Apps.Jobs.{
  identity_set, job_merged, job_patched, job_updated, properties_stopped, execution_stopped,
}

unfoldable pub is_map : Option Value → Bool
is_map (some (obj m)) = true
is_map _ = false

-- nothing, or a map whose properties are a map
unfoldable pub is_fit : Option Value → Bool
is_fit none = true
is_fit (some (obj m)) = is_map (lookup_field "properties" m)
is_fit (some v) = false

module _ (kind : String) where
  -- What is stored under the kind's prefix is fit.
  abbrev pub AreFit : Store Value → Type 0
  AreFit s = (k : String) → has_prefix k kind ≡ true → is_fit (Store.get s k) ≡ true

  pub set-AreFit :
      (s : Store Value) (k : String) (v : Value)
      → is_fit (some v) ≡ true
      → AreFit s
      → AreFit (Store.set s k v)
  set-AreFit s k v h all j under = ground (arith, get-set s k j v, all j under, h, eq_iff k j)

  pub delete-AreFit : (s : Store Value) (k : String) → AreFit s → AreFit (Store.delete s k).0
  unfolding is_fit
  delete-AreFit s k all j under = ground (arith, get-delete s k j, all j under, eq_iff k j)

  -- The store stays fit, and there is an answer.
  abbrev pub IsFine : Store Value × Option Response → Type 0
  IsFine r = AreFit r.0 × (is_some r.1 ≡ true)

  pub with_properties-is_fit :
      (app props : Fields) → is_fit (some (obj (set_field "properties" (obj props) app))) ≡ true
  unfolding is_fit is_map
  with_properties-is_fit app props =
      rw (lookup-set_field "properties" "properties" (obj props) app, eq_refl "properties") refl

  state_set-IsFine :
      (s : Store Value) (key state : String) (app : Fields) (props : Option Value)
      → is_map props ≡ true
      → AreFit s
      → IsFine (state_set s key state app props)
  unfolding state_set is_map
  state_set-IsFine s key state app (some (obj props)) h all =
      (set-AreFit s key _ (with_properties-is_fit app _) all, refl)
  state_set-IsFine s key state app _ h all = absurd (false≢true h)

  pub set_state-IsFine :
      (s : Store Value) (key state : String) (missing : Response) (o : Option Value)
      → is_fit o ≡ true
      → AreFit s
      → IsFine (set_state s key state missing o)
  unfolding set_state is_fit
  set_state-IsFine s key state missing (some (obj app)) h all =
      state_set-IsFine s key state app (lookup_field "properties" app) h all
  set_state-IsFine s key state missing none h all = (all, refl)
  set_state-IsFine s key state missing (some v) h all = (all, refl)

  -- a field other than the properties
  other_set-is_fit :
      (k : String) (v : Value) (app : Fields)
      → (k == "properties") ≡ false
      → is_fit (some (obj app)) ≡ true
      → is_fit (some (obj (set_field k v app))) ≡ true
  unfolding is_fit
  other_set-is_fit k v app ne h = rw (lookup-set_field k "properties" v app, ne) h

  tags_set-is_fit :
      (o : Option Value) (app : Fields)
      → is_fit (some (obj app)) ≡ true
      → is_fit (some (obj (tags_set o app))) ≡ true
  unfolding tags_set
  tags_set-is_fit (some (obj tags)) app h = other_set-is_fit "tags" (obj tags) app refl h
  tags_set-is_fit _ app h = h

  identity_set-is_fit :
      (o : Option Value) (app : Fields)
      → is_fit (some (obj app)) ≡ true
      → is_fit (some (obj (identity_set o app))) ≡ true
  unfolding identity_set
  identity_set-is_fit (some v) app h = other_set-is_fit "identity" v app refl h
  identity_set-is_fit none app h = h

  job_merged-IsFine :
      (s : Store Value) (key : String) (job given : Fields) (props : Option Value)
      → is_map props ≡ true
      → AreFit s
      → IsFine (job_merged s key job given props)
  unfolding job_merged is_map
  job_merged-IsFine s key job given (some (obj held)) h all =
      (set-AreFit s key _ (with_properties-is_fit job _) all, refl)
  job_merged-IsFine s key job given _ h all = absurd (false≢true h)

  job_patched-IsFine :
      (s : Store Value) (key : String) (job : Fields) (given : Option Value)
      → is_fit (some (obj job)) ≡ true
      → AreFit s
      → IsFine (job_patched s key job given)
  unfolding job_patched is_fit
  job_patched-IsFine s key job (some (obj given)) h all =
      job_merged-IsFine s key job given (lookup_field "properties" job) h all
  job_patched-IsFine s key job _ h all = (set-AreFit s key (obj job) h all, refl)

  pub job_updated-IsFine :
      (s : Store Value) (key name : String) (patch : Fields) (o : Option Value)
      → is_fit o ≡ true
      → AreFit s
      → IsFine (job_updated s key name patch o)
  unfolding job_updated is_fit
  job_updated-IsFine s key name patch none h all = (all, refl)
  job_updated-IsFine s key name patch (some (obj job)) h all =
      job_patched-IsFine s key _ (lookup_field "properties" patch)
        (identity_set-is_fit (lookup_field "identity" patch) _
          (tags_set-is_fit (lookup_field "tags" patch) job h))
        all
  job_updated-IsFine s key name patch (some v) h all = absurd (false≢true h)

  properties_stopped-IsFine :
      (s : Store Value) (key : String) (answer : Value → Value) (job : Fields)
      (props : Option Value)
      → is_map props ≡ true
      → AreFit s
      → IsFine (properties_stopped s key answer job props)
  unfolding properties_stopped is_map
  properties_stopped-IsFine s key answer job (some (obj props)) h all =
      (set-AreFit s key _ (with_properties-is_fit job _) all, refl)
  properties_stopped-IsFine s key answer job _ h all = absurd (false≢true h)

  pub execution_stopped-IsFine :
      (s : Store Value) (key name : String) (answer : Value → Value) (o : Option Value)
      → is_fit o ≡ true
      → AreFit s
      → IsFine (execution_stopped s key name answer o)
  unfolding execution_stopped is_fit
  execution_stopped-IsFine s key name answer none h all = (all, refl)
  execution_stopped-IsFine s key name answer (some (obj job)) h all =
      properties_stopped-IsFine s key answer job (lookup_field "properties" job) h all
  execution_stopped-IsFine s key name answer (some v) h all = absurd (false≢true h)
