-- ===== src/KeyVault.antt =====
-- internal/services/keyvault/handler.go
use miniblue.Prelude.{ℕ, String, ◌++◌, List, [], ◌∷◌}
pub mod Redaction
use miniblue.Prelude.Assoc.{Assoc}
use miniblue.Store
use miniblue.Store.{Store}
use miniblue.Value.{Value, Secret, secret, str, dict, fields, obj}
use miniblue.Http.{
  Response, Decoded, failed, decoded, json_response, status_only, list_response, not_found,
  bad_request, found_or,
}

unfoldable pub key : String → String → String
unfolding ◌++◌
key vault name = "kv:" ++ vault ++ ":" ++ name

-- the secret that SetSecret stores; the two calls of time.Now give the two times
unfoldable pub new_secret : String → String → String → String → String → Secret
unfolding ◌++◌
new_secret vault name value created updated = record {
  id = "https://" ++ vault ++ ".vault.azure.net/secrets/" ++ name;
  value = value;
  attributes = ("enabled", "true") ∷ ("created", created) ∷ ("updated", updated) ∷ [];
}

unfoldable pub set_secret :
    Store Value
    → (vault name : String) (body : Decoded String) (created updated : String)
    → Store Value × Response
set_secret s vault name (failed error) created updated =
    (s, bad_request ("Invalid request body: " ++ error))
set_secret s vault name (decoded value) created updated =
    let made = secret (new_secret vault name value created updated) in
    (Store.set s (key vault name) made, json_response 200 made)

unfoldable pub get_secret : Store Value → (vault name : String) → Response
get_secret s vault name =
    found_or (not_found "Microsoft.KeyVault/vaults/secrets" name) (Store.get s (key vault name))

unfoldable pub delete_secret : Store Value → (vault name : String) → Store Value × Response
delete_secret s vault name = ((Store.delete s (key vault name)).0, status_only 200)

string_map : Assoc String → List (String × Value)
string_map [] = []
string_map ((k, v) ∷ m) = (k, str v) ∷ string_map m

-- the loop of ListSecrets: metadata only, and only of values that are secrets
redact : List Value → List Value
unfolding string_map
redact [] = []
redact (secret x ∷ vs) =
    dict (("id", str x.id) ∷ ("attributes", dict (string_map x.attributes)) ∷ []) ∷ redact vs
redact (v ∷ vs) = redact vs

unfoldable pub list_secrets : Store Value → (vault : String) → Response
unfolding redact
list_secrets s vault =
    list_response "value" (redact (Store.list_by_prefix s ("kv:" ++ vault ++ ":")))
