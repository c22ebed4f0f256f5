-- ===== src/Apps/Environments.antt =====
-- internal/services/apps/environments.go: the environments that container apps run in
use miniblue.Prelude.{String, false, ◌++◌, [], ◌∷◌}
use miniblue.Store.{Store}
use miniblue.Value.{Value, Fields, bool, str, obj, dict, slice, lookup_field}
use miniblue.Http.{Response, not_found}
use miniblue.Arm.{
  any_of, properties_of, location_of, tags_of, resource_id, put_resource, get_resource,
  delete_resource, list_resources,
}

abbrev type : String
type = "Microsoft.App/managedEnvironments"

unfoldable pub managed_env_key : (sub rg name : String) → String
unfolding ◌++◌
managed_env_key sub rg name = "managedenv:" ++ sub ++ ":" ++ rg ++ ":" ++ name

unfoldable pub build_managed_environment_response : (sub rg name : String) → Fields → Value
unfolding lookup_field any_of
build_managed_environment_response sub rg name input =
    let props = properties_of input in
    dict (
      ("id", str (resource_id sub rg type name))
      ∷ ("name", str name)
      ∷ ("type", str type)
      ∷ ("location", str (location_of input))
      ∷ ("tags", obj (tags_of input))
      ∷ (
        "properties",
        dict (
            ("provisioningState", str "Succeeded")
            ∷ ("deploymentErrors", str "")
            ∷ ("externalEndpoints", slice [])
            ∷ (
              "customDomainConfiguration",
              dict (
                  ("customDomainVerificationId", str "")
                  ∷ ("customDomainName", str "")
                  ∷ ("dnsSuffix", str "")
                  ∷ []),
            )
            ∷ ("peerAuthentication", dict (("mtls", dict (("enabled", bool false) ∷ [])) ∷ []))
            ∷ ("vnetConfiguration", any_of (lookup_field "vnetConfiguration" props))
            ∷ ("appLogsConfiguration", any_of (lookup_field "appLogsConfiguration" props))
            ∷ []),
      )
      ∷ [])

unfoldable pub create_or_update_managed_environment :
    Store Value → (sub rg name : String) → Fields → Store Value × Response
unfolding put_resource
create_or_update_managed_environment s sub rg name input =
    put_resource s (managed_env_key sub rg name)
      (build_managed_environment_response sub rg name input)

unfoldable pub get_managed_environment : Store Value → (sub rg name : String) → Response
unfolding get_resource
get_managed_environment s sub rg name =
    get_resource s (managed_env_key sub rg name) (not_found type name)

unfoldable pub delete_managed_environment :
    Store Value → (sub rg name : String) → Store Value × Response
unfolding delete_resource
delete_managed_environment s sub rg name =
    delete_resource s (managed_env_key sub rg name) (not_found type name) 200

unfoldable pub list_managed_environments : Store Value → (sub rg : String) → Response
unfolding ◌++◌ list_resources
list_managed_environments s sub rg = list_resources s ("managedenv:" ++ sub ++ ":" ++ rg ++ ":")
