-- ===== src/Identity/Token/Laws.antt =====
-- internal/services/identity/handler.go: who gets a token, and what a token says.
use miniblue.Prelude.{
  String, ◌≡◌, refl, Bool, true, false, Option, some, ◌++◌, [], ◌∷◌, ◌==◌, if◌then◌else◌, eq_refl,
}
use miniblue.Prelude.Text.{append-is_not_empty}
use miniblue.Store
use miniblue.Store.{Store}
use miniblue.Store.Laws.{get-set}
use miniblue.Value.{Value, Fields, bool, str, dict, lookup_field, string_or_empty}
use miniblue.Http.{decoded}
use miniblue.Identity.Token.Select.{
  Library, TokenRequest, chosen, select, identity_key_from_arm_id, map_of,
}
use miniblue.Identity.Token.{
  Clock, get_token, introspect, issue, issue_under, attested, attested_vm, token_of, token_key,
  token_record, token_response, introspect_found, json_ok, inactive, expires, build_mock_jwt,
}

-- the audience of a token
abbrev pub audience : TokenRequest → String
audience q = if q.resource == "" then "https://management.azure.com/" else q.resource

-- the virtual machine of an identity header, and the identities that are assigned to it
unfoldable pub machine : Store Value → (index : Value) → Option Value
unfolding lookup_field string_or_empty map_of
machine s index = Store.get s (string_or_empty (lookup_field "vmKey" (map_of (some index))))

unfoldable pub assignments : (vm : Value) → Fields
unfolding lookup_field map_of
assignments vm =
    map_of
      (lookup_field "userAssignedIdentities" (map_of (lookup_field "identity" (map_of (some vm)))))

token_of-is_not_empty :
    (lib : Library) (clock : Clock) (resource arm_id vm_id : String) (entry : Fields)
    → (token_of lib clock resource arm_id vm_id entry == "") ≡ false
unfolding token_of build_mock_jwt ◌++◌
token_of-is_not_empty lib clock resource arm_id vm_id entry = append-is_not_empty _ "." _

introspect-held :
    (lib : Library) (expired : String → Bool) (s : Store Value)
    (token arm_id vm_id client_id until : String)
    → (token == "") ≡ false
    → Store.get s (token_key lib token) ≡ some (token_record arm_id vm_id client_id until)
    → (until == "") ≡ false
    → introspect lib expired s (decoded token) ≡ (
        if expired until
        then (
          (Store.delete s (token_key lib token)).0,
          json_ok (dict (("active", bool false) ∷ [])),
        )
        else (
          s,
          json_ok (
              dict (
                ("active", bool true)
                ∷ ("identityId", str arm_id)
                ∷ ("vmId", str vm_id)
                ∷ ("clientId", str client_id)
                ∷ ("expiresOn", str until)
                ∷ [])),
        ))
unfolding introspect introspect_found expires token_record inactive
introspect-held lib expired s token arm_id vm_id client_id until named held lasts =
    rw (named, held, lasts) refl

module _ (lib : Library) (clock : Clock) (s : Store Value) (q : TokenRequest) (index vm : Value)
    (arm_id key : String) (entry : Fields) (header : (q.secret == "") ≡ false)
    (known : Store.get s ("vmidsecret:" ++ q.secret) ≡ some index)
    (there : machine s index ≡ some vm)
    (choice : select lib q (assignments vm) ≡ chosen arm_id entry)
    (path : identity_key_from_arm_id arm_id ≡ some key) where
  -- Where the chosen identity is in the store, the token that the virtual machine gets is one that the
  -- introspection finds active, with the identity, the machine and the client id, as long as it has not
  -- expired; after that it is inactive and forgotten.
  pub introspect-get_token :
      (expired : String → Bool)
      → Store.exists s key ≡ true
      → (clock.expires_on == "") ≡ false
      → let vm_id = string_or_empty (lookup_field "id" (map_of (some vm))) in
        let token = token_of lib clock (audience q) arm_id vm_id entry in
        let client_id = string_or_empty (lookup_field "clientId" entry) in
        let s' = (get_token lib clock s q).0 in
        ((get_token lib clock s q).1 ≡ token_response clock token (audience q) client_id)
        × (introspect lib expired s' (decoded token) ≡ (
            if expired clock.expires_on
            then (
              (Store.delete s' (token_key lib token)).0,
              json_ok (dict (("active", bool false) ∷ [])),
            )
            else (
              s',
              json_ok (
                  dict (
                    ("active", bool true)
                    ∷ ("identityId", str arm_id)
                    ∷ ("vmId", str vm_id)
                    ∷ ("clientId", str client_id)
                    ∷ ("expiresOn", str clock.expires_on)
                    ∷ [])),
            )))
  unfolding get_token attested attested_vm issue issue_under machine assignments introspect
      introspect_found
  introspect-get_token expired alive lasts =
      rw (header, known, there, choice, path, alive)
        (
          refl,
          introspect-held lib expired _ _ arm_id _ _ clock.expires_on
              (token_of-is_not_empty lib clock (audience q) arm_id _ entry)
              (rw (get-set s _ _ _, eq_refl (token_key lib _)) refl) lasts,
        )
