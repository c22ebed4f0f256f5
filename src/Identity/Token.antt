-- ===== src/Identity/Token.antt =====
-- internal/services/identity/handler.go: GetToken and Introspect. The clock, json.Marshal, base64,
-- SHA-256 and strings.EqualFold are arguments. The choice among the assigned identities is in `Select`.
pub mod Select
pub mod Laws
use miniblue.Prelude.{
  ℕ, String, Bool, true, false, Option, none, some, ◌++◌, List, [], ◌∷◌, ◌==◌, if◌then◌else◌,
}
use miniblue.Store
use miniblue.Store.{Store}
use miniblue.Value.{Value, Fields, bool, int, str, field, dict, lookup_field, string_or_empty}
use miniblue.Http
use miniblue.Http.{Response, Decoded, failed, decoded, bad_request}
use miniblue.Arm.{any_of}
use miniblue.Identity.Token.Select.{
  Library, TokenRequest, map_of, identity_key_from_arm_id, Choice, refused, chosen, select,
}

abbrev tenant_id : String
tenant_id = "00000000-0000-0000-0000-000000000001"

-- one reading of the clock: now and the end of the token, as seconds and in RFC 3339
pub record Clock : Type 0 where
  pub now : ℕ
  pub expires : ℕ
  pub expires_on : String

unfoldable pub oauth_error : ℕ → (code description : String) → Response
oauth_error status code description = record {
  status = status;
  headers = ("Content-Type", "application/json") ∷ [];
  body = Http.json (dict (("error", str code) ∷ ("error_description", str description) ∷ []));
}

unfoldable pub build_mock_jwt : Library → (claims : Value) → String
unfolding ◌++◌
build_mock_jwt lib claims =
    lib.encode
      (dict (("typ", str "JWT") ∷ ("alg", str "none") ∷ ("kid", str "miniblue-local") ∷ []))
    ++ "."
    ++ lib.encode claims
    ++ ".miniblue-mock-signature"

unfoldable pub token_key : Library → (token : String) → String
unfolding ◌++◌
token_key lib token = "msi:token:" ++ lib.sha256_hex token

unfoldable pub token_record : (arm_id vm_id client_id expires_on : String) → Value
token_record arm_id vm_id client_id expires_on = dict (
    ("identityId", str arm_id)
    ∷ ("vmId", str vm_id)
    ∷ ("clientId", str client_id)
    ∷ ("expiresOn", str expires_on)
    ∷ [])

unfoldable pub token_of :
    Library → Clock → (resource arm_id vm_id : String) → (entry : Fields) → String
unfolding build_mock_jwt string_or_empty lookup_field ◌++◌
token_of lib clock resource arm_id vm_id entry = build_mock_jwt lib (
    dict (
      ("sub", str (string_or_empty (lookup_field "principalId" entry)))
      ∷ ("appid", str (string_or_empty (lookup_field "clientId" entry)))
      ∷ ("xms_mirid", str arm_id)
      ∷ ("miniblue_vm", str vm_id)
      ∷ ("aud", str resource)
      ∷ ("iss", str ("https://sts.windows.net/" ++ tenant_id ++ "/"))
      ∷ ("tid", str tenant_id)
      ∷ ("iat", int clock.now)
      ∷ ("exp", int clock.expires)
      ∷ []))

-- `client_id` has `omitempty`
pub token_response : Clock → (token resource client_id : String) → Response
token_response clock token resource client_id =
    let base : List (String × Value) =
      ("access_token", str token)
      ∷ ("token_type", str "Bearer")
      ∷ ("expires_in", int 86400)
      ∷ ("expires_on", str clock.expires_on)
      ∷ ("resource", str resource)
      ∷ (if client_id == "" then [] else ("client_id", str client_id) ∷ []) in
    record {
      status = 200;
      headers = ("Content-Type", "application/json") ∷ [];
      body = Http.json (dict base);
    }

-- from the key of the chosen identity on: the identity must still exist
pub issue_under :
    Library
    → Clock
    → Store Value
    → (resource vm_id arm_id : String) → (entry : Fields) → Option String
    → Store Value × Response
unfolding oauth_error token_response string_or_empty lookup_field ◌++◌
issue_under lib clock s resource vm_id arm_id entry none = (
  s,
  oauth_error 400 "invalid_request" ("The managed identity '" ++ arm_id ++ "' no longer exists."),
)
issue_under lib clock s resource vm_id arm_id entry (some key) =
    let client_id = string_or_empty (lookup_field "clientId" entry) in
    let token = token_of lib clock resource arm_id vm_id entry in
    if Store.exists s key
    then (
      Store.set s (token_key lib token) (token_record arm_id vm_id client_id clock.expires_on),
      token_response clock token resource client_id,
    )
    else (
      s,
      oauth_error 400 "invalid_request"
          ("The managed identity '" ++ arm_id ++ "' no longer exists."),
    )

pub issue :
    Library → Clock → Store Value → (resource vm_id : String) → Choice → Store Value × Response
unfolding oauth_error issue_under
issue lib clock s resource vm_id (refused description) =
    (s, oauth_error 400 "invalid_request" description)
issue lib clock s resource vm_id (chosen arm_id entry) =
    issue_under lib clock s resource vm_id arm_id entry (identity_key_from_arm_id arm_id)

pub attested_vm :
    Library
    → Clock
    → Store Value
    → TokenRequest
    → (resource : String) → Option Value
    → Store Value × Response
unfolding oauth_error issue select map_of lookup_field string_or_empty
attested_vm lib clock s q resource none = (
  s,
  oauth_error 401 "invalid_client" "The virtual machine for this identity header no longer exists.",
)
attested_vm lib clock s q resource (some vm) =
    let rec = map_of (some vm) in
    let assignments =
      map_of (lookup_field "userAssignedIdentities" (map_of (lookup_field "identity" rec))) in
    issue lib clock s resource (string_or_empty (lookup_field "id" rec)) (select lib q assignments)

pub attested :
    Library
    → Clock
    → Store Value
    → TokenRequest
    → (resource : String) → Option Value
    → Store Value × Response
unfolding oauth_error attested_vm map_of lookup_field string_or_empty
attested lib clock s q resource none =
    (s, oauth_error 401 "invalid_client" "The identity header does not match any virtual machine.")
attested lib clock s q resource (some idx) =
    attested_vm lib clock s q resource
      (Store.get s (string_or_empty (lookup_field "vmKey" (map_of (some idx)))))

unfoldable pub get_token : Library → Clock → Store Value → TokenRequest → Store Value × Response
unfolding attested token_response ◌++◌
get_token lib clock s q =
    let resource = if q.resource == "" then "https://management.azure.com/" else q.resource in
    if q.secret == ""
    then (
      s,
      token_response clock
          "eyJ0eXAiOiJKV1QiLCJhbGciOiJSUzI1NiIsIng1dCI6ImxvY2FsLWF6dXJlIn0.miniblue-mock-token"
          resource "",
    )
    else attested lib clock s q resource (Store.get s ("vmidsecret:" ++ q.secret))

-- `expired`: time.Parse succeeds, and now is after the time
pub expires : (expired : String → Bool) → (text : String) → Bool
expires expired text = if text == "" then false else expired text

pub json_ok : Value → Response
json_ok v = record {
  status = 200;
  headers = ("Content-Type", "application/json") ∷ [];
  body = Http.json v;
}

pub inactive : Response
unfolding json_ok
inactive = json_ok (dict (("active", bool false) ∷ []))

pub introspect_found :
    Library
    → (expired : String → Bool) → Store Value
    → (token : String) → Option Value
    → Store Value × Response
unfolding expires inactive json_ok map_of string_or_empty lookup_field any_of
introspect_found lib expired s token none = (s, inactive)
introspect_found lib expired s token (some v) =
    let rec = map_of (some v) in
    if expires expired (string_or_empty (lookup_field "expiresOn" rec))
    then ((Store.delete s (token_key lib token)).0, inactive)
    else (
      s,
      json_ok (
          dict (
            ("active", bool true)
            ∷ ("identityId", any_of (lookup_field "identityId" rec))
            ∷ ("vmId", any_of (lookup_field "vmId" rec))
            ∷ ("clientId", any_of (lookup_field "clientId" rec))
            ∷ ("expiresOn", any_of (lookup_field "expiresOn" rec))
            ∷ [])),
    )

unfoldable pub introspect :
    Library
    → (expired : String → Bool) → Store Value
    → (token : Decoded String) → Store Value × Response
unfolding introspect_found
introspect lib expired s (failed error) =
    (s, bad_request "The request body must contain a token field.")
introspect lib expired s (decoded token) =
    if token == ""
    then (s, bad_request "The request body must contain a token field.")
    else introspect_found lib expired s token (Store.get s (token_key lib token))

unfoldable pub get_instance_metadata : Response
unfolding json_ok
get_instance_metadata = json_ok (
    dict (
      (
        "compute",
        dict (
            ("location", str "eastus")
            ∷ ("name", str "miniblue-vm")
            ∷ ("resourceGroupName", str "miniblue-rg")
            ∷ ("subscriptionId", str "00000000-0000-0000-0000-000000000000")
            ∷ ("vmId", str "miniblue-vm-id")
            ∷ []),
      )
      ∷ []))
