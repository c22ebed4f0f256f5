-- ===== src/Deployments/Run.antt =====
-- internal/services/deployments/handler.go: what a deployment reports, and where its loop ends.
use mathlib.Core.Bool.{false≢true}
use miniblue.Prelude.{
  ℕ, suc, ◌+◌, ◌≡◌, refl, sym, ◌∙◌, arith, String, List, true, false, Option, none, some, is_some,
  if◌then◌else◌, Bool-cases, inl, inr, eq_refl,
}
use miniblue.Store
use miniblue.Store.{Store}
use miniblue.Store.Laws.{get-set}
use miniblue.Value.{Value, Fields, Items, no_items, item, str, obj, lookup_field, set_field}
use miniblue.Http.{decoded}
use miniblue.Deployments.Template.{flatten_parameters}
use miniblue.Arm.{put_resource, get_resource, set_property}
use miniblue.Arm.Properties.{property, shown, body-created_or_updated, shown-created_or_updated}
use miniblue.Deployments.{
  Dispatcher, Library, Progress, key, get, create_or_update, apply_resource, apply_resources,
  deployment_response, run_template, map_at, deploy, deploy_properties, with_error,
}

abbrev pub append : Items → Items → Items
append no_items ws = ws
append (item v vs) ws = item v (append vs ws)

abbrev pub count : Items → ℕ
count no_items = 0
count (item v vs) = suc (count vs)

module _ (lib : Library) (dispatch : Dispatcher) (sub rg : String) (params vars : Fields) where
  -- Where the resources before a resource pass and that resource fails, the deployment ends with what
  -- it left behind, and the resources after it are not put.
  pub stops_at_failure :
      (i : ℕ) (p : Progress) (before : Items) (v : Value) (after : Items)
      → is_some (apply_resources lib dispatch sub rg params vars i p before).failure ≡ false
      → is_some
          (apply_resource lib dispatch sub rg params vars
            (i + count before)
            (apply_resources lib dispatch sub rg params vars i p before)
            v).failure
        ≡ true
      → apply_resources lib dispatch sub rg params vars i p (append before (item v after))
        ≡ apply_resource lib dispatch sub rg params vars
            (i + count before)
            (apply_resources lib dispatch sub rg params vars i p before)
            v
  unfolding apply_resources
  stops_at_failure i p no_items v after passed failed =
      let e : i + 0 ≡ i = omega arith in rw e (rw (rw e at failed) refl)
  stops_at_failure i p (item w ws) v after passed failed =
      let next = apply_resource lib dispatch sub rg params vars i p w in
      let e : i + suc (count ws) ≡ i + 1 + count ws = omega arith in
      elim (Bool-cases (is_some next.failure)) [
        | inl h ↦ absurd (false≢true (sym (rw h at passed) ∙ h))
        | inr h ↦
            rw (e, h)
              (stops_at_failure (i + 1) next ws v after (rw h at passed) (rw (e, h) at failed))
      ]

abbrev pub state_text : Option String → String
state_text failure = if is_some failure then "Failed" else "Succeeded"

state-response :
    (sub rg name now : String) (props values : Fields) (s : Store Value) (outs : List Value)
    (failure : Option String)
    → property "provisioningState" (
        deployment_response sub rg name now props values
          (record { store = s; output_resources = outs; failure = failure }))
      ≡ some (str (state_text failure))
unfolding deployment_response with_error property set_property set_field lookup_field
state-response sub rg name now props values s outs none = refl
state-response sub rg name now props values s outs (some message) = refl

-- The answer to the PUT of a deployment with properties and a template is what a GET shows then, and
-- its state is Succeeded if and only if the loop over the resources has no failure.
pub get-deployment :
    (lib : Library) (dispatch : Dispatcher) (s : Store Value) (sub rg name now : String)
    (input props template : Fields)
    → lookup_field "properties" input ≡ some (obj props)
    → lookup_field "template" props ≡ some (obj template)
    → ((get (create_or_update lib dispatch s sub rg name now (decoded input)).0 sub rg name).body
        ≡ (create_or_update lib dispatch s sub rg name now (decoded input)).1.body)
      × (shown "provisioningState"
            (create_or_update lib dispatch s sub rg name now (decoded input)).1
          ≡ some (str (state_text (run_template lib dispatch s sub rg props template).failure)))
unfolding create_or_update deploy_properties deploy map_at get put_resource get_resource
get-deployment lib dispatch s sub rg name now input props template h h' =
    let p = run_template lib dispatch s sub rg props template in
    let k = key sub rg name in
    let made =
      deployment_response sub rg name now props
        (flatten_parameters (lookup_field "parameters" props)) p in
    let stored : Store.get (Store.set p.store k made) k ≡ some made =
      rw (get-set p.store k k made, eq_refl k) refl in
    let there = is_some (Store.get p.store k) in
    rw (h, h', stored)
      (
        sym (body-created_or_updated there made),
        shown-created_or_updated "provisioningState" there made
            ∙ state-response sub rg name now props _ p.store p.output_resources p.failure,
      )
