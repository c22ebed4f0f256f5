-- ===== src/StorageAccounts.antt =====
-- internal/services/storageaccounts/handler.go: the storage account resource and its keys. The
-- properties of its four services, and containers as ARM resources, are left out.
mod Account
pub mod Access
unfoldable pub use Account.{build_storage_account_response, apply_input}
use miniblue.Prelude.{String, Option, none, some, ◌++◌, [], ◌∷◌, is_some, if◌then◌else◌}
use miniblue.Store
use miniblue.Store.{Store}
use miniblue.Value.{Value, Fields, str, obj, dict, slice}
use miniblue.Http.{Response, json_response, status_only, list_response, not_found, found_or}
use miniblue.StorageAuth.{
  Crypto, deterministic_account_key, persist_shared_key_context, delete_shared_key_context,
}

abbrev account_type : String
account_type = "Microsoft.Storage/storageAccounts"

unfoldable pub storage_account_key : (sub rg name : String) → String
unfolding ◌++◌
storage_account_key sub rg name = "blob:account:" ++ sub ++ ":" ++ rg ++ ":" ++ name

-- `endpoint`: the environment variable MINIBLUE_STORAGE_ENDPOINT; `input`: what Decode leaves
unfoldable pub create_or_update :
    (endpoint : String)
    → Store Value
    → (sub rg name : String) → Option Fields
    → Store Value × Response
create_or_update endpoint s sub rg name input =
    let acct = obj (apply_input (build_storage_account_response endpoint sub rg name) input) in
    (
      persist_shared_key_context (Store.set s (storage_account_key sub rg name) acct) sub rg name,
      json_response 200 acct,
    )

unfoldable pub get : Store Value → (sub rg name : String) → Response
get s sub rg name =
    found_or (not_found account_type name) (Store.get s (storage_account_key sub rg name))

unfoldable pub delete : Store Value → (sub rg name : String) → Store Value × Response
delete s sub rg name =
    let (s', found) = Store.delete s (storage_account_key sub rg name) in
    if found
    then (delete_shared_key_context s' name, status_only 202)
    else (s', not_found account_type name)

key_entry : Crypto → (sub rg name key_name key_id : String) → Value
key_entry c sub rg name key_name key_id = dict (
    ("keyName", str key_name)
    ∷ ("value", str (deterministic_account_key c sub rg name key_id))
    ∷ ("permissions", str "Full")
    ∷ [])

unfoldable pub list_keys : Crypto → Store Value → (sub rg name : String) → Response
unfolding key_entry
list_keys c s sub rg name =
    if is_some (Store.get s (storage_account_key sub rg name))
    then json_response 200 (
        dict (
          (
            "keys",
            slice (key_entry c sub rg name "key1" "1" ∷ key_entry c sub rg name "key2" "2" ∷ []),
          )
          ∷ []))
    else not_found account_type name

unfoldable pub list : Store Value → (sub rg : String) → Response
unfolding ◌++◌
list s sub rg =
    list_response "value" (Store.list_by_prefix s ("blob:account:" ++ sub ++ ":" ++ rg ++ ":"))

unfoldable pub list_in_subscription : Store Value → (sub : String) → Response
unfolding ◌++◌
list_in_subscription s sub =
    list_response "value" (Store.list_by_prefix s ("blob:account:" ++ sub ++ ":"))
