-- ===== src/Tests/Tokens.antt =====
-- A virtual machine with one identity, and the group that the identity is in.
use miniblue.Prelude.{
  String, Bool, ◌≡◌, refl, true, false, some, [], ◌∷◌, ◌++◌, ◌==◌, if◌then◌else◌,
}
use miniblue.Store
use miniblue.Store.{Store}
use miniblue.Value.{
  Value, Fields, bool, no_fields, obj, dict, fields, str, lookup_field, string_or_empty,
}
use miniblue.Http.{decoded}
use miniblue.Arm.Properties.{shown}
use miniblue.Identity.{create_or_update_identity}
use miniblue.Identity.Ids.{create_or_update_identity-stable}
use miniblue.Identity.Token.Select.{
  Library, TokenRequest, chosen, select, identity_key_from_arm_id, map_of,
}
use miniblue.Identity.Token.{
  Clock, get_token, introspect, token_of, token_key, token_response, json_ok,
}
use miniblue.Identity.Token.Laws.{audience, machine, assignments, introspect-get_token}
use miniblue.Tests.{store_of}

abbrev lib : Library
lib = record { encode = λ v. "e"; sha256_hex = λ t. "h"; equal_fold = λ a b. a == b }

abbrev clock : Clock
clock = record { now = 0; expires = 86400; expires_on = "tomorrow" }

abbrev asked : TokenRequest
asked = record { resource = ""; secret = "x"; client_id = ""; mi_res_id = "" }

abbrev arm_id : String
arm_id =
    "/subscriptions/s1/resourceGroups/g1/providers/Microsoft.ManagedIdentity/userAssignedIdentities/i1"

abbrev entry : Fields
entry = fields (("clientId", str "c") ∷ [])

abbrev vm : Value
vm = dict (
    ("id", str "vm1")
    ∷ ("identity", dict (("userAssignedIdentities", dict ((arm_id, obj entry) ∷ [])) ∷ []))
    ∷ [])

abbrev index : Value
index = dict (("vmKey", str "vm:s1:g1:v1") ∷ [])

abbrev key : String
key = "msi:identity:s1:g1:i1"

abbrev with_identity : Store Value
with_identity = store_of (("vmidsecret:x", index) ∷ ("vm:s1:g1:v1", vm) ∷ (key, str "i") ∷ [])

known : Store.get with_identity ("vmidsecret:" ++ "x") ≡ some index
unfolding Store.get ◌++◌
known = refl

there : machine with_identity index ≡ some vm
unfolding machine Store.get map_of
there = refl

choice : select lib asked (assignments vm) ≡ chosen arm_id entry
unfolding select assignments map_of
choice = refl

path : identity_key_from_arm_id arm_id ≡ some key
unfolding identity_key_from_arm_id
path = refl

alive : Store.exists with_identity key ≡ true
unfolding Store.exists
alive = refl

abbrev never : String → Bool
never t = false

abbrev token : String
token = token_of lib clock (audience asked) arm_id "vm1" entry

introspect-get_token_example :
    let vm_id = string_or_empty (lookup_field "id" (map_of (some vm))) in
    let token = token_of lib clock (audience asked) arm_id vm_id entry in
    let client_id = string_or_empty (lookup_field "clientId" entry) in
    let s' = (get_token lib clock with_identity asked).0 in
    ((get_token lib clock with_identity asked).1
      ≡ token_response clock token (audience asked) client_id)
    × (introspect lib never s' (decoded token) ≡ (
        if never "tomorrow"
        then (
          (Store.delete s' (token_key lib token)).0,
          json_ok (dict (("active", bool false) ∷ [])),
        )
        else (
          s',
          json_ok (
              dict (
                ("active", bool true)
                ∷ ("identityId", str arm_id)
                ∷ ("vmId", str vm_id)
                ∷ ("clientId", str client_id)
                ∷ ("expiresOn", str "tomorrow")
                ∷ [])),
        )))
introspect-get_token_example =
    introspect-get_token lib clock with_identity asked index vm arm_id key entry refl known there
      choice path never alive refl

abbrev group : Store Value
group = store_of (("rg:s1:g1", str "g1") ∷ [])

group_there : Store.exists group ("rg:" ++ "s1" ++ ":" ++ "g1") ≡ true
unfolding Store.exists ◌++◌
group_there = refl

create_or_update_identity-stable_example :
    let (s', first) = create_or_update_identity "p" "c" group "s1" "g1" "i1" no_fields in
    let second = (create_or_update_identity "q" "d" s' "s1" "g1" "i1" entry).1 in
    (shown "principalId" second ≡ shown "principalId" first)
    × (shown "clientId" second ≡ shown "clientId" first)
create_or_update_identity-stable_example =
    create_or_update_identity-stable group "s1" "g1" "i1" "p" "c" "q" "d" no_fields entry
      group_there
