-- ===== src/ResourceGroups.antt =====
-- internal/services/resourcegroups/handler.go
pub mod Cascade
pub mod Deletion
pub mod Lifecycle
pub use Cascade.{Docker}
unfoldable pub use Cascade.{cascade}
use miniblue.Prelude.{
  ℕ, String, Bool, true, false, Option, none, some, ◌++◌, List, [], ◌∷◌, ◌==◌, is_some,
  if◌then◌else◌,
}
use miniblue.Store
use miniblue.Store.{Store}
use miniblue.Value.{Value, ResourceGroup, Tags, resource_group}
use miniblue.Http
use miniblue.Http.{
  Response, Decoded, failed, decoded, json_response, status_only, list_response, not_found,
  bad_request, found_or, created_or_updated,
}

unfoldable pub key : String → String → String
unfolding ◌++◌
key sub name = "rg:" ++ sub ++ ":" ++ name

pub record Input : Type 0 where
  pub location : String
  pub tags : Tags

unfoldable pub new_group : String → String → Input → ResourceGroup
unfolding ◌++◌
new_group sub name input = record {
  id = "/subscriptions/" ++ sub ++ "/resourceGroups/" ++ name;
  name = name;
  type = "Microsoft.Resources/resourceGroups";
  location = input.location;
  tags = input.tags;
  provisioning_state = "Succeeded";
}

unfoldable pub create_or_update :
    Store Value → (sub name : String) → Decoded Input → Store Value × Response
create_or_update s sub name (failed error) =
    (s, bad_request ("The request content was invalid: " ++ error))
create_or_update s sub name (decoded input) =
    if input.location == ""
    then (s, bad_request "The location property is required for resource group creation.")
    else let k = key sub name in
      let rg = resource_group (new_group sub name input) in
      (Store.set s k rg, created_or_updated (is_some (Store.get s k)) rg)

-- `rg := v.(ResourceGroup)` panics, `none`, at a value of another type
patch_tags : Store Value → String → Value → Tags → Store Value × Option Response
patch_tags s k (resource_group rg) none =
    (Store.set s k (resource_group rg), some (json_response 200 (resource_group rg)))
patch_tags s k (resource_group rg) (some tags) =
    let patched = resource_group (record rg { tags = some tags }) in
    (Store.set s k patched, some (json_response 200 patched))
patch_tags s k v tags = (s, none)

update_found : Store Value → String → String → Tags → Option Value → Store Value × Option Response
unfolding patch_tags
update_found s k name tags none = (s, some (not_found "Microsoft.Resources/resourceGroups" name))
update_found s k name tags (some v) = patch_tags s k v tags

unfoldable pub update : Store Value → (sub name : String) → Tags → Store Value × Option Response
unfolding update_found
update s sub name tags = let k = key sub name in update_found s k name tags (Store.get s k)

unfoldable pub get : Store Value → (sub name : String) → Response
get s sub name =
    found_or (not_found "Microsoft.Resources/resourceGroups" name) (Store.get s (key sub name))

unfoldable pub check_existence : Store Value → (sub name : String) → Response
check_existence s sub name =
    if Store.exists s (key sub name) then status_only 204 else status_only 404

-- r.TLS != nil, and r.Host
pub record Connection : Type 0 where
  pub tls : Bool
  pub host : String

unfoldable pub operation_url : Connection → String → String → String
unfolding ◌++◌
operation_url c sub name =
    (if c.tls then "https" else "http")
    ++ "://"
    ++ c.host
    ++ "/subscriptions/"
    ++ sub
    ++ "/operationresults/delete-rg-"
    ++ name
    ++ "?api-version=2020-06-01"

-- The result holds the docker commands that the deletion runs.
unfoldable pub delete :
    (docker_ok : Bool)
    → Connection
    → Store Value
    → (sub name : String) → Store Value × List Docker × Response
delete docker_ok c s sub name =
    let (s', found) = Store.delete s (key sub name) in
    if found
    then (let (cleared, commands) = cascade docker_ok s' sub name in
        (
          cleared,
          commands,
          record {
            status = 202;
            headers = ("Location", operation_url c sub name) ∷ [];
            body = Http.empty;
          },
        ))
    else (s', [], not_found "Microsoft.Resources/resourceGroups" name)

unfoldable pub list : Store Value → (sub : String) → Response
list s sub = list_response "value" (Store.list_by_prefix s ("rg:" ++ sub ++ ":"))

unfoldable pub list_resources : Response
list_resources = list_response "value" []

unfoldable pub operation_result : Response
operation_result = status_only 200
