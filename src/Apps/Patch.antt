-- ===== src/Apps/Patch.antt =====
-- UpdateContainerApp of internal/services/apps/containerapps.go, and what UpdateJob of jobs.go shares
-- with it.
use miniblue.Prelude.{String, Bool, true, false, Option, none, some, if◌then◌else◌}
use miniblue.Store
use miniblue.Store.{Store}
use miniblue.Value.{Value, Fields, nil, obj, no_fields, field, lookup_field, set_field}
use miniblue.Http.{Response, json_response, not_found}
use miniblue.Apps.{type, container_app_key}

-- `if tags, ok := input["tags"].(map[string]interface{}); ok { app["tags"] = tags }`
unfoldable pub tags_set : Option Value → Fields → Fields
unfolding set_field
tags_set (some (obj tags)) app = set_field "tags" (obj tags) app
tags_set _ app = app

-- The loop over the properties of the body, whose order does not matter: a null is no value.
unfoldable pub merge_given : Fields → Fields → Fields
unfolding set_field
merge_given no_fields held = held
merge_given (field k nil rest) held = merge_given rest held
merge_given (field k v rest) held = set_field k v (merge_given rest held)

unfoldable pub gives_none : Fields → Bool
gives_none no_fields = true
gives_none (field k nil rest) = gives_none rest
gives_none (field k v rest) = false

unfoldable pub stored : Store Value → (key : String) → Fields → Store Value × Option Response
stored s key app = (Store.set s key (obj app), some (json_response 200 (obj app)))

-- The properties of the app are held in `props`: where they are no map, a value that is given panics.
unfoldable pub properties_merged :
    Store Value
    → (key : String) → (app given : Fields) → (props : Option Value) → Store Value × Option Response
unfolding merge_given gives_none stored set_field
properties_merged s key app given (some (obj held)) =
    stored s key (set_field "properties" (obj (merge_given given held)) app)
properties_merged s key app given _ =
    if gives_none given
    then stored s key (set_field "properties" nil app)
    else (Store.set s key (obj app), none)

unfoldable pub patched :
    Store Value
    → (key : String) → (app : Fields) → (given : Option Value) → Store Value × Option Response
unfolding properties_merged stored lookup_field
patched s key app (some (obj given)) =
    properties_merged s key app given (lookup_field "properties" app)
patched s key app _ = stored s key app

unfoldable pub update_found :
    Store Value
    → (key : String) → (missing : Response) → (input : Fields) → Option Value
    → Store Value × Option Response
unfolding patched tags_set lookup_field
update_found s key missing input none = (s, some missing)
update_found s key missing input (some (obj app)) =
    patched s key (tags_set (lookup_field "tags" input) app) (lookup_field "properties" input)
update_found s key missing input (some v) = (s, none)

unfoldable pub update_container_app :
    Store Value → (sub rg name : String) → Fields → Store Value × Option Response
unfolding update_found
update_container_app s sub rg name input =
    let key = container_app_key sub rg name in
    update_found s key (not_found type name) input (Store.get s key)
