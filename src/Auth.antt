-- ===== src/Auth.antt =====
-- internal/services/auth/handler.go: the mock of the OAuth endpoints. json.Marshal, base64, the clock
-- and http.Redirect are arguments, and so is whether the connection has TLS.
use miniblue.Prelude.{ℕ, String, Bool, ◌++◌, [], ◌∷◌, ◌==◌, if◌then◌else◌, has_prefix, false, true}
use Prim.Native.String.{[] as nil_text, ◌∷◌ as cons}
use miniblue.Value.{Value, int, str, dict, slice}
use miniblue.Http.{Response, json}

-- json.Marshal and base64.RawURLEncoding of its bytes, and that encoding of a text
pub record Library : Type 0 where
  pub encode : Value → String
  pub encode_text : String → String

-- the readings of the clock, in seconds: those of the token, and those of the answer
pub record Clock : Type 0 where
  pub issued : ℕ
  pub expires : ℕ
  pub not_before : ℕ
  pub expires_on : ℕ

pub record Connection : Type 0 where
  pub tls : Bool
  pub host : String

unfoldable pub base_from_request : Connection → String
unfolding ◌++◌
base_from_request c = (if c.tls then "https" else "http") ++ "://" ++ c.host

unfoldable pub mock_jwt : Library → Clock → (tenant_id client_id : String) → String
unfolding ◌++◌
mock_jwt lib clock tenant_id client_id =
    lib.encode_text "{\"typ\":\"JWT\",\"alg\":\"none\"}"
    ++ "."
    ++ lib.encode (
        dict (
          ("aud", str "https://management.azure.com/")
          ∷ ("iss", str ("https://sts.windows.net/" ++ tenant_id ++ "/"))
          ∷ ("iat", int clock.issued)
          ∷ ("nbf", int clock.issued)
          ∷ ("exp", int clock.expires)
          ∷ ("oid", str "00000000-0000-0000-0000-000000000002")
          ∷ ("sub", str "00000000-0000-0000-0000-000000000002")
          ∷ ("tid", str tenant_id)
          ∷ ("appid", str client_id)
          ∷ []))
    ++ ".mock-signature"

with_type : Value → Response
with_type v = record {
  status = 200;
  headers = ("Content-Type", "application/json") ∷ [];
  body = json v;
}

-- the three last texts: values of the form
unfoldable pub token : Library → Clock → (tenant_id client_id resource scope : String) → Response
unfolding with_type
token lib clock tenant_id client_id resource scope =
    let access_token =
      mock_jwt lib clock tenant_id (if client_id == "" then "miniblue" else client_id) in
    with_type (
      dict (
        ("access_token", str access_token)
        ∷ ("token_type", str "Bearer")
        ∷ ("expires_in", int 86400)
        ∷ ("expires_on", int clock.expires_on)
        ∷ ("not_before", int clock.not_before)
        ∷ ("resource", str resource)
        ∷ ("refresh_token", str "miniblue-mock-refresh-token")
        ∷ ("scope", str scope)
        ∷ ("ext_expires_in", int 86400)
        ∷ ("foci", str "1")
        ∷ ("id_token", str access_token)
        ∷ ("client_info", str "eyJ1aWQiOiJsb2NhbC1henVyZS11c2VyIiwidXRpZCI6IiJ9")
        ∷ ("tenant_id", str tenant_id)
        ∷ []))

unfoldable pub write_open_id_config : Connection → (tenant_id : String) → Response
unfolding with_type ◌++◌
write_open_id_config c tenant_id =
    let base = base_from_request c in
    with_type (
      dict (
        ("issuer", str (base ++ "/" ++ tenant_id))
        ∷ ("authorization_endpoint", str (base ++ "/" ++ tenant_id ++ "/oauth2/v2.0/authorize"))
        ∷ ("token_endpoint", str (base ++ "/" ++ tenant_id ++ "/oauth2/v2.0/token"))
        ∷ (
          "device_authorization_endpoint",
          str (base ++ "/" ++ tenant_id ++ "/oauth2/v2.0/devicecode"),
        )
        ∷ ("jwks_uri", str (base ++ "/" ++ tenant_id ++ "/discovery/v2.0/keys"))
        ∷ ("userinfo_endpoint", str (base ++ "/" ++ tenant_id ++ "/openid/userinfo"))
        ∷ ("tenant_region_scope", str "NA")
        ∷ ("cloud_instance_name", str "miniblue")
        ∷ ("cloud_graph_host_name", str "localhost")
        ∷ ("msgraph_host", str "localhost")
        ∷ ("rbac_url", str base)
        ∷ (
          "response_types_supported",
          slice (
              str "code"
              ∷ str "id_token"
              ∷ str "code id_token"
              ∷ str "token id_token"
              ∷ str "token"
              ∷ []),
        )
        ∷ ("subject_types_supported", slice (str "pairwise" ∷ []))
        ∷ ("id_token_signing_alg_values_supported", slice (str "RS256" ∷ []))
        ∷ (
          "scopes_supported",
          slice (str "openid" ∷ str "profile" ∷ str "email" ∷ str "offline_access" ∷ []),
        )
        ∷ (
          "token_endpoint_auth_methods_supported",
          slice (str "client_secret_post" ∷ str "private_key_jwt" ∷ str "client_secret_basic" ∷ []),
        )
        ∷ (
          "claims_supported",
          slice (
              str "sub"
              ∷ str "iss"
              ∷ str "aud"
              ∷ str "exp"
              ∷ str "iat"
              ∷ str "name"
              ∷ str "email"
              ∷ str "oid"
              ∷ str "tid"
              ∷ []),
        )
        ∷ (
          "grant_types_supported",
          slice (
              str "authorization_code"
              ∷ str "client_credentials"
              ∷ str "refresh_token"
              ∷ str "urn:ietf:params:oauth:grant-type:device_code"
              ∷ []),
        )
        ∷ []))

unfoldable pub open_id_config : Connection → (tenant_id : String) → Response
open_id_config c tenant_id =
    write_open_id_config c (if tenant_id == "" then "common" else tenant_id)

unfoldable pub open_id_config_common : Connection → Response
open_id_config_common c = write_open_id_config c "common"

-- strings.Contains(s, "?")
has_question_mark : String → Bool
unfolding has_prefix
has_question_mark nil_text = false
has_question_mark (cons c s) =
    let rest = has_question_mark s in if has_prefix (cons c s) "?" then true else rest

-- `redirect`: http.Redirect to a URL with a status
unfoldable pub authorize :
    (redirect : (url : String) (code : ℕ) → Response) → (redirect_uri state : String) → Response
unfolding with_type has_question_mark ◌++◌
authorize redirect redirect_uri state =
    if redirect_uri == ""
    then with_type (dict (("code", str "miniblue-mock-code") ∷ []))
    else redirect
        (redirect_uri
          ++ (if has_question_mark redirect_uri then "&" else "?")
          ++ "code=miniblue-mock-code&state="
          ++ state)
        302

-- `port` and `tls_port`: the variables PORT and TLS_PORT
unfoldable pub discovery_instance : Connection → (port tls_port : String) → Response
unfolding with_type ◌++◌
discovery_instance c port tls_port = with_type (
    dict (
      (
        "tenant_discovery_endpoint",
        str (base_from_request c ++ "/common/.well-known/openid-configuration"),
      )
      ∷ (
        "metadata",
        slice (
            dict (
              ("preferred_network", str "localhost")
              ∷ ("preferred_cache", str "localhost")
              ∷ (
                "aliases",
                slice (
                    str "localhost"
                    ∷ str ("localhost:" ++ (if port == "" then "4566" else port))
                    ∷ str ("localhost:" ++ (if tls_port == "" then "4567" else tls_port))
                    ∷ []),
              )
              ∷ [])
            ∷ []),
      )
      ∷ []))
