-- ===== src/Identity.antt =====
-- internal/services/identity/handler.go: user-assigned identities. The token endpoint is in `Token`.
pub mod Token
pub mod Ids
use miniblue.Prelude.{String, Option, none, some, ◌++◌, [], ◌∷◌, is_some, if◌then◌else◌}
use miniblue.Store
use miniblue.Store.{Store}
use miniblue.Value.{Value, Fields, str, obj, dict, fields, lookup_field, set_field}
use miniblue.Http.{Response, write_error, not_found}
use miniblue.Arm.{
  location_of, resource_id, put_resource, get_resource, delete_resource, list_resources,
}

abbrev type : String
type = "Microsoft.ManagedIdentity/userAssignedIdentities"

abbrev tenant_id : String
tenant_id = "00000000-0000-0000-0000-000000000001"

unfoldable pub identity_key : (sub rg name : String) → String
unfolding ◌++◌
identity_key sub rg name = "msi:identity:" ++ sub ++ ":" ++ rg ++ ":" ++ name

-- `if v, ok := props[k].(string); ok { id = v }`
keep_string : (id : String) → Option Value → String
keep_string id (some (str s)) = s
keep_string id (some v) = id
keep_string id none = id

keep_in_properties : (k id : String) → Option Value → String
unfolding keep_string lookup_field
keep_in_properties k id (some (obj props)) = keep_string id (lookup_field k props)
keep_in_properties k id (some v) = id
keep_in_properties k id none = id

-- the id that the stored identity has under its properties, or a new one
unfoldable pub stable_id : (k id : String) → Option Value → String
unfolding keep_in_properties lookup_field
stable_id k id (some (obj rec)) = keep_in_properties k id (lookup_field "properties" rec)
stable_id k id (some v) = id
stable_id k id none = id

-- `if tags, ok := input["tags"]; ok { rec["tags"] = tags }`
pub with_tags : Option Value → Fields → Fields
unfolding set_field
with_tags none rec = rec
with_tags (some tags) rec = set_field "tags" tags rec

unfoldable pub identity_record :
    (sub rg name principal_id client_id : String) → (input : Fields) → Value
unfolding with_tags location_of lookup_field
identity_record sub rg name principal_id client_id input = obj (
    with_tags (lookup_field "tags" input) (
      fields (
        ("id", str (resource_id sub rg type name))
        ∷ ("name", str name)
        ∷ ("type", str type)
        ∷ ("location", str (location_of input))
        ∷ (
          "properties",
          dict (
              ("principalId", str principal_id)
              ∷ ("clientId", str client_id)
              ∷ ("tenantId", str tenant_id)
              ∷ []),
        )
        ∷ [])))

-- `new_principal` and `new_client`: the two calls of uuid.NewString
unfoldable pub create_or_update_identity :
    (new_principal new_client : String)
    → Store Value
    → (sub rg name : String) → (input : Fields) → Store Value × Response
unfolding put_resource ◌++◌
create_or_update_identity new_principal new_client s sub rg name input =
    let k = identity_key sub rg name in
    let stored = Store.get s k in
    let made =
      identity_record sub rg name (stable_id "principalId" new_principal stored)
        (stable_id "clientId" new_client stored) input in
    if Store.exists s ("rg:" ++ sub ++ ":" ++ rg) then put_resource s k made else (
      s,
      write_error 404 "ResourceGroupNotFound" ("Resource group '" ++ rg ++ "' could not be found."),
    )

unfoldable pub get_identity : Store Value → (sub rg name : String) → Response
unfolding get_resource
get_identity s sub rg name = get_resource s (identity_key sub rg name) (not_found type name)

unfoldable pub list_identities : Store Value → (sub rg : String) → Response
unfolding ◌++◌ list_resources
list_identities s sub rg = list_resources s ("msi:identity:" ++ sub ++ ":" ++ rg ++ ":")

unfoldable pub delete_identity : Store Value → (sub rg name : String) → Store Value × Response
unfolding delete_resource
delete_identity s sub rg name =
    delete_resource s (identity_key sub rg name) (not_found type name) 204
