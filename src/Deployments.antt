-- ===== src/Deployments.antt =====
-- internal/services/deployments/handler.go: deployments of templates. The expressions of a template
-- are in `Template`.
pub mod Template
pub mod Run
use mathlib.Core.List
use miniblue.Prelude.Split.{split_once}
use miniblue.Prelude.{
  ℕ, ◌+◌, String, Option, none, some, ◌++◌, List, [], ◌∷◌, ◌==◌, ◌||◌, leb, is_some, if◌then◌else◌,
}
use miniblue.Prelude.Decimal.{decimal}
use miniblue.StorageAuth.Text.{trim_space}
use miniblue.Store
use miniblue.Store.{Store}
use miniblue.Value.{
  Value, Fields, Items, nil, str, array, obj, no_items, item, no_fields, dict, fields, slice,
  lookup_field, set_field, as_object, string_or_empty,
}
use miniblue.Http.{Response, Decoded, failed, decoded, not_found, bad_request, created_or_updated}
use miniblue.Arm.{
  string_or, array_or_empty, object_or, resource_id, put_resource, get_resource, delete_resource,
  list_resources, set_property,
}
use miniblue.Deployments.Template.{flatten_parameters, merge_parameter_defaults, resolve_fields}

abbrev type : String
type = "Microsoft.Resources/deployments"

unfoldable pub key : (sub rg name : String) → String
unfolding ◌++◌
key sub rg name = "deployment:" ++ sub ++ ":" ++ rg ++ ":" ++ name

-- one internal PUT: the path and the body, the new store, the status and the body of the answer
abbrev pub Dispatcher : Type 0
Dispatcher = Store Value → (path body : String) → Store Value × ℕ × String

-- json.Marshal of a map, with the text of its error, and %q
pub record Library : Type 0 where
  pub marshal : Value → Decoded String
  pub quote : String → String

-- what buildResourceRequest returns: an error's text, or a path and a body
pub data Request : Type 0 where
  invalid : (error : String) → Request
  request : (path body : String) → Request

pub marshalled : (path : String) → Decoded String → Request
marshalled path (failed error) = invalid error
marshalled path (decoded body) = request path body

-- `parts`: strings.SplitN(rType, "/", 2), `none` unless it has two parts
pub request_for :
    Library
    → (sub rg r_type name api_version : String) → (res : Fields)
    → (parts : Option (String × String)) → Request
unfolding marshalled ◌++◌
request_for lib sub rg r_type name api_version res none =
    invalid ("invalid type " ++ lib.quote r_type ++ " (want Provider/resourceType[/sub/...])")
request_for lib sub rg r_type name api_version res (some (provider, rest)) =
    marshalled
      ("/subscriptions/" ++ sub ++ "/resourceGroups/" ++ rg ++ "/providers/" ++ provider ++ "/"
        ++ rest ++ "/" ++ name ++ "?api-version=" ++ api_version)
      (lib.marshal (obj res))

unfoldable pub build_resource_request : Library → (sub rg : String) → (res : Fields) → Request
unfolding request_for split_once string_or string_or_empty lookup_field
build_resource_request lib sub rg res =
    let r_type = string_or_empty (lookup_field "type" res) in
    let name = string_or_empty (lookup_field "name" res) in
    let api_version = string_or "2023-01-01" (lookup_field "apiVersion" res) in
    if r_type == "" || name == ""
    then invalid "resource missing type or name"
    else request_for lib sub rg r_type name api_version res (split_once b'/' r_type)

-- what the loop over the resources keeps; `failure` is the message of a failed deployment
pub record Progress : Type 0 where
  pub store : Store Value
  pub output_resources : List Value
  pub failure : Option String

output_of : (sub rg : String) → (res : Fields) → Value
unfolding string_or_empty lookup_field ◌++◌
output_of sub rg res = dict (
    (
      "id",
      str (
          "/subscriptions/"
          ++ sub
          ++ "/resourceGroups/"
          ++ rg
          ++ "/providers/"
          ++ string_or_empty (lookup_field "type" res)
          ++ "/"
          ++ string_or_empty (lookup_field "name" res)),
    )
    ∷ [])

module _ (lib : Library) (dispatch : Dispatcher) (sub rg : String) (params vars : Fields) where
  -- a PUT of one resource; the result is the state after it
  put_request : (i : ℕ) → Progress → (res : Fields) → Request → Progress
  unfolding output_of decimal trim_space ◌++◌
  put_request i p res (invalid error) = record p {
    failure = some ("resource[" ++ decimal i ++ "]: " ++ error);
  }
  put_request i p res (request path body) =
      let (s, status, answer) = dispatch p.store path body in
      if leb 300 status
      then record p {
        store = s;
        failure = some (
            "resource["
            ++ decimal i
            ++ "] "
            ++ path
            ++ ": "
            ++ decimal status
            ++ " "
            ++ trim_space answer);
      }
      else record p {
        store = s;
        output_resources = List.◌++◌ p.output_resources (output_of sub rg res ∷ []);
      }

  -- one round of the loop; what is not a map is skipped
  unfoldable pub apply_resource : (i : ℕ) → Progress → Value → Progress
  unfolding put_request
  apply_resource i p (obj raw) =
      let res = resolve_fields params vars raw in
      put_request i p res (build_resource_request lib sub rg res)
  apply_resource i p v = p

  -- the loop, with its break
  unfoldable pub apply_resources : (i : ℕ) → Progress → Items → Progress
  apply_resources i p no_items = p
  apply_resources i p (item v vs) =
      let next = apply_resource i p v in
      let rest = apply_resources (i + 1) next vs in if is_some next.failure then next else rest

-- `m, _ := v.(map[string]interface{})`, none for a nil map
pub map_at : Option Value → Option Fields
map_at (some (obj fs)) = some fs
map_at (some v) = none
map_at none = none

pub with_error : Option String → Fields → Fields
unfolding set_property
with_error none resp = resp
with_error (some message) resp =
    set_property "error" (dict (("code", str "DeploymentFailed") ∷ ("message", str message) ∷ []))
      resp

unfoldable pub deployment_response :
    (sub rg name now : String) → (props param_values : Fields) → Progress → Value
unfolding with_error string_or lookup_field
deployment_response sub rg name now props param_values p = obj (
    with_error p.failure (
      fields (
        ("id", str (resource_id sub rg type name))
        ∷ ("name", str name)
        ∷ ("type", str type)
        ∷ (
          "properties",
          dict (
              ("provisioningState", str (if is_some p.failure then "Failed" else "Succeeded"))
              ∷ ("mode", str (string_or "Incremental" (lookup_field "mode" props)))
              ∷ ("timestamp", str now)
              ∷ ("outputResources", slice p.output_resources)
              ∷ ("outputs", obj no_fields)
              ∷ ("parameters", obj param_values)
              ∷ []),
        )
        ∷ [])))

-- the parameters of a template and of its deployment, merged
unfoldable pub merged_parameters : (props template : Fields) → Fields
unfolding object_or lookup_field merge_parameter_defaults flatten_parameters
merged_parameters props template =
    merge_parameter_defaults (object_or no_fields (lookup_field "parameters" template))
      (flatten_parameters (lookup_field "parameters" props))

-- the run of the loop over the template's resources
unfoldable pub run_template :
    Library → Dispatcher → Store Value → (sub rg : String) → (props template : Fields) → Progress
unfolding array_or_empty object_or lookup_field
run_template lib dispatch s sub rg props template =
    apply_resources lib dispatch sub rg (merged_parameters props template)
      (object_or no_fields (lookup_field "variables" template)) 0
      (record { store = s; output_resources = []; failure = none })
      (array_or_empty (lookup_field "resources" template))

pub deploy :
    Library
    → Dispatcher
    → Store Value
    → (sub rg name now : String) → (props : Fields) → (template : Option Fields)
    → Store Value × Response
unfolding put_resource lookup_field
deploy lib dispatch s sub rg name now props none =
    (s, bad_request "properties.template is required")
deploy lib dispatch s sub rg name now props (some template) =
    let p = run_template lib dispatch s sub rg props template in
    put_resource p.store (key sub rg name) (
      deployment_response sub rg name now props
        (flatten_parameters (lookup_field "parameters" props)) p)

pub deploy_properties :
    Library
    → Dispatcher
    → Store Value
    → (sub rg name now : String) → (props : Option Fields) → Store Value × Response
unfolding deploy map_at lookup_field
deploy_properties lib dispatch s sub rg name now none = (s, bad_request "properties is required")
deploy_properties lib dispatch s sub rg name now (some props) =
    deploy lib dispatch s sub rg name now props (map_at (lookup_field "template" props))

unfoldable pub create_or_update :
    Library
    → Dispatcher
    → Store Value
    → (sub rg name now : String) → (input : Decoded Fields) → Store Value × Response
unfolding deploy_properties map_at lookup_field
create_or_update lib dispatch s sub rg name now (failed error) =
    (s, bad_request "could not parse request body")
create_or_update lib dispatch s sub rg name now (decoded input) =
    deploy_properties lib dispatch s sub rg name now (map_at (lookup_field "properties" input))

unfoldable pub get : Store Value → (sub rg name : String) → Response
unfolding get_resource
get s sub rg name = get_resource s (key sub rg name) (not_found type name)

unfoldable pub delete : Store Value → (sub rg name : String) → Store Value × Response
unfolding delete_resource
delete s sub rg name = delete_resource s (key sub rg name) (not_found type name) 204

unfoldable pub list : Store Value → (sub rg : String) → Response
unfolding ◌++◌ list_resources
list s sub rg = list_resources s ("deployment:" ++ sub ++ ":" ++ rg ++ ":")
