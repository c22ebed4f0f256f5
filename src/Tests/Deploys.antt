-- ===== src/Tests/Deploys.antt =====
-- A deployment of a template whose second resource has no type, and its expressions.
use miniblue.Prelude.{◌+◌, ◌≡◌, refl, arith, true, false, none, some, [], ◌∷◌, ◌++◌, is_some}
use miniblue.Prelude.Split.Laws.{IsWithout}
use miniblue.Store
use miniblue.Store.{Store}
use miniblue.Value.{
  Value, Fields, Items, no_fields, no_items, item, items, obj, array, dict, fields, str,
  lookup_field,
}
use miniblue.Http.{decoded, json_response}
use miniblue.Arm.Properties.{shown}
use miniblue.Deployments.{
  Dispatcher, Library, Progress, request, get, create_or_update, apply_resource, apply_resources,
  run_template, build_resource_request,
}
use miniblue.Deployments.Run.{append, count, state_text, stops_at_failure, get-deployment}
use miniblue.Deployments.Template.{merge_parameter_defaults, value_or_text, resolve}
use miniblue.Deployments.Template.Laws.{meaning, resolve_parameter-meaning}
use miniblue.CosmosDb.{get_document, replace_document}
use miniblue.CosmosDb.Documents.{get_document-replace_document}
use miniblue.Value.{set_field}

abbrev lib : Library
lib = record { marshal = λ v. decoded "{}"; quote = λ t. t }

-- a server that accepts every PUT
abbrev accepting : Dispatcher
accepting = λ s path body. (Store.set s path (str body), 201, "")

abbrev zone : Fields
zone = fields (("type", str "Microsoft.Network/dnsZones") ∷ ("name", str "z") ∷ [])

abbrev before : Items
before = items (obj zone ∷ [])

abbrev untyped : Value
untyped = dict (("name", str "x") ∷ [])

abbrev template : Fields
template = fields (("resources", array (append before (item untyped no_items))) ∷ [])

abbrev props : Fields
props = fields (("template", obj template) ∷ [])

abbrev input : Fields
input = fields (("properties", obj props) ∷ [])

abbrev start : Progress
start = record { store = Store.new; output_resources = []; failure = none }

abbrev passed : Progress
passed = apply_resources lib accepting "s1" "g1" no_fields no_fields 0 start before

before_passes : is_some passed.failure ≡ false
unfolding apply_resources apply_resource build_resource_request lookup_field
    miniblue.Deployments.Template.resolve_fields miniblue.Deployments.Template.whole_reference
before_passes = refl

untyped_fails :
    is_some
      (apply_resource lib accepting "s1" "g1" no_fields no_fields
        (0 + count before)
        passed
        untyped).failure
    ≡ true
unfolding apply_resource build_resource_request lookup_field
    miniblue.Deployments.Template.resolve_fields
untyped_fails = refl

stops_at_failure_example :
    apply_resources lib accepting "s1" "g1" no_fields no_fields 0 start
      (append before (item untyped before))
    ≡ apply_resource lib accepting "s1" "g1" no_fields no_fields (0 + count before) passed untyped
stops_at_failure_example =
    stops_at_failure lib accepting "s1" "g1" no_fields no_fields 0 start before untyped before
      before_passes untyped_fails

get-deployment_example :
    ((get
        (create_or_update lib accepting Store.new "s1" "g1" "d" "now" (decoded input)).0
        "s1"
        "g1"
        "d").body
      ≡ (create_or_update lib accepting Store.new "s1" "g1" "d" "now" (decoded input)).1.body)
    × (shown "provisioningState"
          (create_or_update lib accepting Store.new "s1" "g1" "d" "now" (decoded input)).1
        ≡ some (
            str
              (state_text (run_template lib accepting Store.new "s1" "g1" props template).failure)))
get-deployment_example =
    get-deployment lib accepting Store.new "s1" "g1" "d" "now" input props template
      (unfold lookup_field in refl) (unfold lookup_field in refl)

abbrev declared : Fields
declared = fields (("size", dict (("defaultValue", str "small") ∷ [])) ∷ [])

size-IsWithout : IsWithout b'\'' "size"
size-IsWithout = ground arith

resolve_parameter-meaning_example :
    resolve
      (merge_parameter_defaults declared no_fields)
      no_fields
      (str ("[parameters('" ++ "size" ++ "')]"))
    ≡ value_or_text ("[parameters('" ++ "size" ++ "')]") (meaning declared no_fields "size")
resolve_parameter-meaning_example =
    resolve_parameter-meaning declared no_fields no_fields "size"
      (unfold lookup_field in (refl, tt)) tt size-IsWithout refl

get_document-replace_document_example :
    (get_document (replace_document Store.new "a" "d" "c" "1" (some zone)).0 "a" "d" "c" "1"
      ≡ json_response 200 (obj (set_field "id" (str "1") zone)))
    × (lookup_field "id" (set_field "id" (str "1") zone) ≡ some (str "1"))
    × (replace_document Store.new "a" "d" "c" "1" none ≡ (Store.new, none))
get_document-replace_document_example = get_document-replace_document Store.new "a" "d" "c" "1" zone
