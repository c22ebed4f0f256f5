-- ===== src/Sites/Config/Named.antt =====
-- internal/services/sites/config/handler.go: the storage accounts and the connection strings of a site,
-- each entry under a key of its own.
use miniblue.Prelude.{String, Option, some, ◌++◌, List, [], ◌∷◌, ◌==◌, is_some, if◌then◌else◌}
use miniblue.Store
use miniblue.Store.{Store}
use miniblue.Value.{
  Value, Fields, str, obj, no_fields, field, fields, dict, lookup_field, set_field, string_or_empty,
}
use miniblue.Http.{Response, json_response, not_found}
use miniblue.Arm.{any_of, object_or, properties_of}
use miniblue.StorageAuth.{Crypto, deterministic_account_key}
use miniblue.Sites.Config.{site_key, config_response}

-- one pass of the loop over ListByPrefix: a map is kept under the name that its field `key` gives
unfoldable pub keep_named : (key : String) → Fields → Value → Fields
unfolding lookup_field set_field string_or_empty
keep_named key kept (obj m) =
    let n = string_or_empty (lookup_field key m) in
    if n == "" then kept else set_field n (obj m) kept
keep_named key kept v = kept

unfoldable pub all_named : (key : String) → Fields → List Value → Fields
all_named key kept [] = kept
all_named key kept (v ∷ vs) = all_named key (keep_named key kept v) vs

unfoldable pub azure_storage_accounts_key : (sub rg site : String) → String
unfolding ◌++◌
azure_storage_accounts_key sub rg site = "webapp:storage:" ++ sub ++ ":" ++ rg ++ ":" ++ site

unfoldable pub storage_accounts_response : (sub rg name : String) → Fields → Value
unfolding config_response
storage_accounts_response sub rg name accounts =
    config_response sub rg name "azurestorageaccounts" "azurestorageaccounts"
      (dict (("azurestorageaccounts", obj accounts) ∷ []))

unfoldable pub get_azure_storage_accounts : Store Value → (sub rg name : String) → Response
get_azure_storage_accounts s sub rg name =
    if is_some (Store.get s (site_key sub rg name))
    then json_response 200 (
        storage_accounts_response sub rg name (
          all_named "accountName" no_fields
            (Store.list_by_prefix s (azure_storage_accounts_key sub rg name))))
    else not_found "Microsoft.Web/sites" name

unfoldable pub list_azure_storage_accounts : Store Value → (sub rg name : String) → Response
list_azure_storage_accounts s sub rg name =
    if is_some (Store.get s (site_key sub rg name))
    then json_response 200 (
        storage_accounts_response sub rg name (
          all_named "accountName" no_fields
            (Store.list_by_prefix s (azure_storage_accounts_key sub rg name))))
    else not_found "Microsoft.Web/sites" name

with_mount_path : Option Value → Fields → Fields
unfolding set_field
with_mount_path (some (str p)) entry = set_field "mountPath" (str p) entry
with_mount_path _ entry = entry

unfoldable pub storage_entry : Crypto → (sub rg account : String) → (config : Fields) → Fields
unfolding with_mount_path any_of lookup_field ◌++◌
storage_entry c sub rg account config =
    let account_key = deterministic_account_key c sub rg account "1" in
    with_mount_path (lookup_field "mountPath" config) (
      fields (
        (
          "value",
          str (
              "DefaultEndpointsProtocol=https;AccountName=" ++ account ++ ";AccountKey="
              ++ account_key ++ ";EndpointSuffix=core.windows.net"),
        )
        ∷ ("type", any_of (lookup_field "type" config))
        ∷ ("accountName", str account)
        ∷ ("accessKey", str account_key)
        ∷ ("blobStorageEndpoint", str ("https://" ++ account ++ ".blob.core.windows.net/"))
        ∷ ("fileStorageEndpoint", str ("https://" ++ account ++ ".file.core.windows.net/"))
        ∷ ("queueStorageEndpoint", str ("https://" ++ account ++ ".queue.core.windows.net/"))
        ∷ ("tableStorageEndpoint", str ("https://" ++ account ++ ".table.core.windows.net/"))
        ∷ []))

-- the loop over the entries of the body, maps all: the store, and what is answered
unfoldable pub store_entries :
    (String → Fields → Fields)
    → (prefix : String) → Store Value
    → (kept : Fields) → Fields
    → Store Value × Fields
unfolding ◌++◌ set_field
store_entries entry prefix s kept no_fields = (s, kept)
store_entries entry prefix s kept (field n (obj config) rest) =
    let made = obj (entry n config) in
    store_entries entry prefix (Store.set s (prefix ++ ":" ++ n) made) (set_field n made kept) rest
store_entries entry prefix s kept (field n v rest) = store_entries entry prefix s kept rest

unfoldable pub update_azure_storage_accounts :
    Crypto → Store Value → (sub rg name : String) → Fields → Store Value × Response
unfolding object_or lookup_field
update_azure_storage_accounts c s sub rg name input =
    let given = object_or no_fields (lookup_field "azurestorageaccounts" (properties_of input)) in
    let (s', accounts) =
      store_entries (storage_entry c sub rg) (azure_storage_accounts_key sub rg name) s no_fields
        given in
    if is_some (Store.get s (site_key sub rg name))
    then (s', json_response 200 (storage_accounts_response sub rg name accounts))
    else (s, not_found "Microsoft.Web/sites" name)

unfoldable pub connection_strings_key : (sub rg site : String) → String
unfolding ◌++◌
connection_strings_key sub rg site = "webapp:connectionstrings:" ++ sub ++ ":" ++ rg ++ ":" ++ site

unfoldable pub connection_strings_response : (sub rg name : String) → Fields → Value
unfolding config_response
connection_strings_response sub rg name strings =
    config_response sub rg name "connectionstrings" "connectionstrings"
      (dict (("connectionStrings", obj strings) ∷ []))

unfoldable pub get_connection_strings : Store Value → (sub rg name : String) → Response
get_connection_strings s sub rg name =
    if is_some (Store.get s (site_key sub rg name))
    then json_response 200 (
        connection_strings_response sub rg name (
          all_named "name" no_fields (Store.list_by_prefix s (connection_strings_key sub rg name))))
    else not_found "Microsoft.Web/sites" name

unfoldable pub list_connection_strings : Store Value → (sub rg name : String) → Response
list_connection_strings s sub rg name = get_connection_strings s sub rg name

unfoldable pub connection_string : (name : String) → (info : Fields) → Fields
unfolding any_of lookup_field
connection_string name info = fields (
    ("type", any_of (lookup_field "type" info))
    ∷ ("value", any_of (lookup_field "value" info))
    ∷ [])

unfoldable pub update_connection_strings :
    Store Value → (sub rg name : String) → Fields → Store Value × Response
unfolding object_or lookup_field
update_connection_strings s sub rg name input =
    let given = object_or no_fields (lookup_field "connectionStrings" (properties_of input)) in
    let (s', strings) =
      store_entries connection_string (connection_strings_key sub rg name) s no_fields given in
    if is_some (Store.get s (site_key sub rg name))
    then (s', json_response 200 (connection_strings_response sub rg name strings))
    else (s, not_found "Microsoft.Web/sites" name)
