-- ===== src/StorageAuth/SharedKey.antt =====
-- internal/storageauth/sharedkey.go: the string to sign, signing and verifying.
pub mod RoundTrip
pub mod Soundness
use mathlib.Core.Option
use miniblue.Prelude.{
  ℕ, String, Bool, true, false, not, ◌&&◌, ◌||◌, Option, none, some, ◌++◌, List, [], ◌∷◌, ◌==◌,
  has_prefix, if◌then◌else◌, eqb,
}
use miniblue.StorageAuth.{Bytes, Crypto}
use miniblue.StorageAuth.Request.{Request, Library, header_get, header_set}
use miniblue.StorageAuth.Canonical.{canonicalized_headers, canonicalized_resource}
use miniblue.StorageAuth.Text.{split_last_colon, drop_prefix}

-- the date is left out where x-ms-date is given
date_field : Request → String
date_field r = if header_get r "X-Ms-Date" == "" then header_get r "Date" else ""

content_length : Request → String
content_length r = let cl = header_get r "Content-Length" in if cl == "0" then "" else cl

-- writeField
abbrev pub line : String → String
line v = v ++ "\n"

-- what the two builders write before and with the canonicalized resource
full_text : Library → Request → String → String
unfolding ◌++◌ date_field content_length
full_text lib r resource =
    line (lib.to_upper r.method)
    ++ line (header_get r "Content-Encoding")
    ++ line (header_get r "Content-Language")
    ++ line (content_length r)
    ++ line (header_get r "Content-Md5")
    ++ line (header_get r "Content-Type")
    ++ line (date_field r)
    ++ line (header_get r "If-Modified-Since")
    ++ line (header_get r "If-Match")
    ++ line (header_get r "If-None-Match")
    ++ line (header_get r "If-Unmodified-Since")
    ++ line (header_get r "Range")
    ++ canonicalized_headers lib r
    ++ resource

lite_text : Library → Request → String → String
unfolding ◌++◌ date_field
lite_text lib r resource =
    line (lib.to_upper r.method)
    ++ line (header_get r "Content-Md5")
    ++ line (header_get r "Content-Type")
    ++ line (date_field r)
    ++ canonicalized_headers lib r
    ++ resource

unfoldable pub string_to_sign_full : Library → (account : String) → Request → Option String
unfolding full_text
string_to_sign_full lib account r =
    Option.map (full_text lib r) (canonicalized_resource lib account r)

unfoldable pub string_to_sign_lite : Library → (account : String) → Request → Option String
unfolding lite_text
string_to_sign_lite lib account r =
    Option.map (lite_text lib r) (canonicalized_resource lib account r)

unfoldable pub string_to_sign :
    Library → (lite : Bool) → (account : String) → Request → Option String
unfolding string_to_sign_full string_to_sign_lite
string_to_sign lib true account r = string_to_sign_lite lib account r
string_to_sign lib false account r = string_to_sign_full lib account r

-- subtle.ConstantTimeCompare(a, b) == 1
unfoldable pub same_bytes : Bytes → Bytes → Bool
same_bytes [] [] = true
same_bytes (a ∷ as') (b ∷ bs) = eqb a b && same_bytes as' bs
same_bytes _ _ = false

unfoldable pub match_hmac : Crypto → Bytes → String → Bytes → Bool
unfolding same_bytes
match_hmac c want_sig message key = same_bytes (c.hmac_sha256 key message) want_sig

abbrev pub scheme_name : Bool → String
scheme_name true = "SharedKeyLite"
scheme_name false = "SharedKey"

unfoldable pub sign :
    Crypto → Library → (account : String) (key : Bytes) (lite : Bool) → Request → Option Request
unfolding ◌++◌
sign c lib account key lite r = elim (string_to_sign lib lite account r) [
  | none ↦ none
  | some s ↦ some (
      header_set r "Authorization"
        (scheme_name lite ++ " " ++ account ++ ":" ++ c.encode64 (c.hmac_sha256 key s)))
]

-- the checks of verifyScheme after the credential is split
check_signature :
    Crypto
    → Library
    → Request
    → (account : String) (key1 key2 : Bytes) (lite : Bool) → (acct sig : String) → Bool
check_signature c lib r account key1 key2 lite acct sig =
    if acct == "" || sig == ""
    then false
    else if not (acct == account)
    then false
    else elim (c.decode64 sig) [
      | none ↦ false
      | some want_sig ↦ elim (string_to_sign lib lite account r) [
        | none ↦ false
        | some s ↦ match_hmac c want_sig s key1 || match_hmac c want_sig s key2
      ]
    ]

unfoldable pub verify_scheme :
    Crypto → Library → Request → (account cred : String) (key1 key2 : Bytes) (lite : Bool) → Bool
unfolding check_signature
verify_scheme c lib r account cred key1 key2 lite = elim (split_last_colon cred) [
  | none ↦ false
  | some (acct, sig) ↦ check_signature c lib r account key1 key2 lite acct sig
]

unfoldable pub verify : Crypto → Library → Request → (account : String) (key1 key2 : Bytes) → Bool
verify c lib r account key1 key2 =
    let authz = header_get r "Authorization" in
    if authz == ""
    then false
    else if has_prefix authz "SharedKey "
    then verify_scheme c lib r account (drop_prefix "SharedKey " authz) key1 key2 false
    else if has_prefix authz "SharedKeyLite "
    then verify_scheme c lib r account (drop_prefix "SharedKeyLite " authz) key1 key2 true
    else false
