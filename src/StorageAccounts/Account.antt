-- ===== src/StorageAccounts/Account.antt =====
-- The account that CreateOrUpdateStorageAccount stores: buildStorageAccountResponse of
-- internal/services/storageaccounts/handler.go, and the fields that the request sets.
use miniblue.Prelude.{String, true, Option, none, some, ◌++◌, [], ◌∷◌, ◌==◌, if◌then◌else◌}
use miniblue.Value.{
  Value, Fields, str, bool, obj, no_fields, dict, fields, lookup_field, as_object, set_field,
}

-- an endpoint of the account, at the local endpoint or at Azure's name for it
service_endpoint : (endpoint name service : String) → Value
unfolding ◌++◌
service_endpoint endpoint name service = str (
    if endpoint == ""
    then "https://" ++ name ++ "." ++ service ++ ".core.windows.net/"
    else endpoint ++ "/" ++ service ++ "/" ++ name ++ "/")

unfoldable pub build_storage_account_response : (endpoint sub rg name : String) → Fields
unfolding service_endpoint ◌++◌
build_storage_account_response endpoint sub rg name = fields (
    (
      "id",
      str (
          "/subscriptions/" ++ sub ++ "/resourceGroups/" ++ rg
          ++ "/providers/Microsoft.Storage/storageAccounts/" ++ name),
    )
    ∷ ("name", str name)
    ∷ ("type", str "Microsoft.Storage/storageAccounts")
    ∷ ("location", str "eastus")
    ∷ ("sku", dict (("name", str "Standard_LRS") ∷ ("tier", str "Standard") ∷ []))
    ∷ ("kind", str "StorageV2")
    ∷ (
      "properties",
      dict (
          ("provisioningState", str "Succeeded")
          ∷ (
            "primaryEndpoints",
            dict (
                ("blob", service_endpoint endpoint name "blob")
                ∷ ("queue", service_endpoint endpoint name "queue")
                ∷ ("table", service_endpoint endpoint name "table")
                ∷ ("file", service_endpoint endpoint name "file")
                ∷ []),
          )
          ∷ ("primaryLocation", str "eastus")
          ∷ ("statusOfPrimary", str "available")
          ∷ ("supportsHttpsTrafficOnly", bool true)
          ∷ ("creationTime", str "2026-01-01T00:00:00Z")
          ∷ []),
    )
    ∷ [])

-- `if x, ok := input[k].(map[string]interface{}); ok { acct[k] = x }`
copy_object : String → Fields → Fields → Fields
unfolding lookup_field as_object set_field
copy_object k input acct = elim (lookup_field k input) [
  | none ↦ acct
  | some v ↦ elim (as_object v) [ none ↦ acct | some fs ↦ set_field k (obj fs) acct ]
]

nonempty_string : Option Value → Option String
nonempty_string none = none
nonempty_string (some (str s)) = if s == "" then none else some s
nonempty_string (some v) = none

-- `if x, ok := input[k].(string); ok && x != "" { acct[k] = x }`
copy_string : String → Fields → Fields → Fields
unfolding lookup_field set_field nonempty_string
copy_string k input acct = elim (nonempty_string (lookup_field k input)) [
  | none ↦ acct
  | some s ↦ set_field k (str s) acct
]

-- `if acct["tags"] == nil { acct["tags"] = map[string]interface{}{} }`
default_tags : Fields → Fields
unfolding lookup_field set_field
default_tags acct = elim (lookup_field "tags" acct) [
  | none ↦ set_field "tags" (obj no_fields) acct
  | some v ↦ acct
]

unfoldable pub apply_input : Fields → Option Fields → Fields
unfolding copy_object copy_string default_tags
apply_input acct none = default_tags acct
apply_input acct (some input) = default_tags (
    copy_object "sku" input
      (copy_string "kind" input (copy_string "location" input (copy_object "tags" input acct))))
