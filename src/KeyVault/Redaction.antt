-- ===== src/KeyVault/Redaction.antt =====
-- Setting, reading and listing the secrets of internal/services/keyvault/handler.go.
use miniblue.Prelude.{String, ◌≡◌, refl, some, List, ◌==◌, eq_refl, if◌then◌else◌}
use miniblue.Store
use miniblue.Store.{Store, Backend, memory, file, mem, with_mem}
use miniblue.Store.Laws.{get-set, map_values}
use miniblue.Value.{Value, secret}
use miniblue.Http.{failed, decoded, json_response}
use miniblue.KeyVault.{key, new_secret, set_secret, get_secret}

-- a value, a secret with another value in place of its own
abbrev pub masked_value : String → Value → Value
masked_value hidden (secret x) = secret (record x { value = hidden })
masked_value hidden v = v

pub masked : String → Store Value → Store Value
masked hidden s = map_values (masked_value hidden) s

-- A PUT of a secret whose body decodes is answered with the secret, which a later GET answers too;
-- every other key keeps its value. A PUT whose body does not decode changes nothing.
pub get-set_secret :
    (s : Store Value) (vault name value created updated error k : String)
    → let after = (set_secret s vault name (decoded value) created updated).0 in
      (get_secret after vault name
        ≡ json_response 200 (secret (new_secret vault name value created updated)))
      × (Store.get after k ≡ (
          if key vault name == k
          then some (secret (new_secret vault name value created updated))
          else Store.get s k))
      × ((set_secret s vault name (failed error) created updated).0 ≡ s)
unfolding set_secret get_secret
get-set_secret s vault name value created updated error k =
    let made = secret (new_secret vault name value created updated) in
    (
      rw (get-set s (key vault name) (key vault name) made, eq_refl (key vault name)),
      get-set s (key vault name) k made,
      refl,
    )
