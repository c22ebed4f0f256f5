-- ===== src/StorageAuth.antt =====
-- internal/storageauth/keys.go: the keys of a storage account, and the context they derive from.
-- SHA-256, HMAC and base64 are arguments. Bytes are lists of numbers.
pub mod Text
pub mod Request
pub mod Canonical
pub mod SharedKey
use Prim.Native.Char.{code}
use Prim.Native.String.{[] as nil, ◌∷◌ as cons}
use mathlib.Core.List
use miniblue.Prelude.{ℕ, String, Option, none, some, ◌++◌, List, ◌==◌, if◌then◌else◌, eqb, ◌≡◌}
use miniblue.Store
use miniblue.Store.{Store}
use miniblue.Value.{Value, str}

abbrev pub Bytes : Type 0
Bytes = List ℕ

pub record Crypto : Type 0 where
  pub sha256 : String → Bytes
  pub hmac_sha256 : (key : Bytes) (message : String) → Bytes
  pub encode64 : Bytes → String
  pub decode64 : String → Option Bytes

unfoldable pub context_key : String → String
unfolding ◌++◌
context_key account = "blob:sharedkeyctx:" ++ account

unfoldable pub deterministic_account_key : Crypto → (sub rg account key_id : String) → String
unfolding ◌++◌
deterministic_account_key c sub rg account key_id =
    let rest = sub ++ "|" ++ rg ++ "|" ++ account ++ "|" ++ key_id in
    c.encode64 (
      List.◌++◌ (c.sha256 ("miniblue|storage|" ++ rest))
        (c.sha256 ("miniblue|storage|alt|" ++ rest)))

unfoldable pub persist_shared_key_context : Store Value → (sub rg account : String) → Store Value
unfolding ◌++◌
persist_shared_key_context s sub rg account =
    Store.set s (context_key account) (str (sub ++ "\n" ++ rg))

unfoldable pub delete_shared_key_context : Store Value → (account : String) → Store Value
delete_shared_key_context s account = (Store.delete s (context_key account)).0

-- strings.SplitN(s, "\n", 2), `none` unless it has two parts
unfoldable pub split_newline : String → Option (String × String)
split_newline nil = none
split_newline (cons c s) =
    let rest = split_newline s in
    if eqb (code c) 10
    then some ("", s)
    else elim rest [ none ↦ none | some (a, b) ↦ some (cons c a, b) ]

context_of : Option Value → Option (String × String)
unfolding split_newline
context_of (some (str ctx)) = split_newline ctx
context_of (some v) = none
context_of none = none

unfoldable pub shared_key_context : Store Value → (account : String) → Option (String × String)
unfolding context_of
shared_key_context s account = context_of (Store.get s (context_key account))

both_keys : Option Bytes → Option Bytes → Option (Bytes × Bytes)
both_keys none _ = none
both_keys (some k1) none = none
both_keys (some k1) (some k2) = some (k1, k2)

keys_of : Crypto → (account : String) → Option (String × String) → Option (Bytes × Bytes)
unfolding both_keys
keys_of c account none = none
keys_of c account (some (sub, rg)) =
    both_keys (c.decode64 (deterministic_account_key c sub rg account "1"))
      (c.decode64 (deterministic_account_key c sub rg account "2"))

unfoldable pub account_key_bytes :
    Crypto → Store Value → (account : String) → Option (Bytes × Bytes)
unfolding keys_of
account_key_bytes c s account = keys_of c account (shared_key_context s account)

-- What the derived keys are, from the context of the account.
pub account_key_bytes_lem :
    (c : Crypto) (s : Store Value) (sub rg account : String) (k1 k2 : Bytes)
    → shared_key_context s account ≡ some (sub, rg)
    → c.decode64 (deterministic_account_key c sub rg account "1") ≡ some k1
    → c.decode64 (deterministic_account_key c sub rg account "2") ≡ some k2
    → account_key_bytes c s account ≡ some (k1, k2)
unfolding account_key_bytes
account_key_bytes_lem c s sub rg account k1 k2 h e1 e2 = rw (h, e1, e2)

pub account_key_bytes-none :
    (c : Crypto) (s : Store Value) (account : String)
    → Store.get s (context_key account) ≡ none
    → account_key_bytes c s account ≡ none
unfolding account_key_bytes shared_key_context
account_key_bytes-none c s account h = rw h
