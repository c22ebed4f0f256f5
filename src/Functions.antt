-- ===== src/Functions.antt =====
-- internal/services/functions/handler.go
use miniblue.Prelude.{String, true, ◌++◌, is_some, if◌then◌else◌}
use miniblue.Store
use miniblue.Store.{Store}
use miniblue.Value.{Value, FunctionApp, function_app}
use miniblue.Http.{Response, status_only, list_response, not_found, found_or, created_or_updated}

unfoldable pub key : (sub rg name : String) → String
unfolding ◌++◌
key sub rg name = "func:" ++ sub ++ ":" ++ rg ++ ":" ++ name

-- `input`: what Decode leaves in the app; its location is kept
unfoldable pub completed_app : (sub rg name : String) → FunctionApp → FunctionApp
unfolding ◌++◌
completed_app sub rg name input = record input {
  id =
      "/subscriptions/" ++ sub ++ "/resourceGroups/" ++ rg ++ "/providers/Microsoft.Web/sites/"
      ++ name;
  name = name;
  type = "Microsoft.Web/sites";
  kind = "functionapp";
  provisioning_state = "Succeeded";
  default_host_name = name ++ ".azurewebsites.net";
  state = "Running";
  enabled = true;
}

unfoldable pub create_or_update :
    Store Value → (sub rg name : String) → FunctionApp → Store Value × Response
create_or_update s sub rg name input =
    let made = function_app (completed_app sub rg name input) in
    let k = key sub rg name in
    (Store.set s k made, created_or_updated (is_some (Store.get s k)) made)

unfoldable pub get : Store Value → (sub rg name : String) → Response
get s sub rg name = found_or (not_found "Microsoft.Web/sites" name) (Store.get s (key sub rg name))

unfoldable pub delete : Store Value → (sub rg name : String) → Store Value × Response
delete s sub rg name =
    let (s', found) = Store.delete s (key sub rg name) in
    if found then (s', status_only 200) else (s', not_found "Microsoft.Web/sites" name)

unfoldable pub list : Store Value → (sub rg : String) → Response
unfolding ◌++◌
list s sub rg = list_response "value" (Store.list_by_prefix s ("func:" ++ sub ++ ":" ++ rg ++ ":"))
