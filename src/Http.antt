-- ===== src/Http.antt =====
-- What a handler writes to its `http.ResponseWriter`, and internal/azerr/errors.go. The encoding of
-- a value by encoding/json, and the headers that every response has, are left out.
pub mod Recover
use miniblue.Prelude.{ℕ, String, Bool, true, false, Option, none, some, ◌++◌, List, [], ◌∷◌}
use miniblue.Value.{Value, azure_error, dict, slice}

pub data Body : Type 0 where
  empty : Body
  json : Value → Body
  bytes : List ℕ → Body
  text : String → Body

pub record Response : Type 0 where
  pub status : ℕ
  pub headers : List (String × String)
  pub body : Body

-- w.WriteHeader(code) and nothing else
abbrev pub status_only : ℕ → Response
status_only code = record { status = code; headers = []; body = empty }

-- json.NewEncoder(w).Encode(v) after w.WriteHeader(code); with no WriteHeader the code is 200
abbrev pub json_response : ℕ → Value → Response
json_response code v = record { status = code; headers = []; body = json v }

-- json.NewEncoder(w).Encode(map[string]interface{}{name: items})
abbrev pub list_response : String → List Value → Response
list_response name vs = json_response 200 (dict ((name, slice vs) ∷ []))

unfoldable pub write_error : ℕ → String → String → Response
write_error code error_code message = record {
  status = code;
  headers = ("Content-Type", "application/json; charset=utf-8") ∷ [];
  body = json (azure_error (record { code = error_code; message = message }));
}

unfoldable pub not_found : String → String → Response
unfolding write_error ◌++◌
not_found resource_type name = write_error 404 "ResourceNotFound" (
    "The Resource '" ++ resource_type ++ "/" ++ name
    ++ "' under resource group could not be found.")

unfoldable pub bad_request : String → Response
unfolding write_error
bad_request message = write_error 400 "InvalidRequestContent" message

unfoldable pub conflict : String → String → Response
unfolding write_error ◌++◌
conflict resource_type name =
    write_error 409 "Conflict"
      ("The resource '" ++ resource_type ++ "/" ++ name ++ "' already exists.")

unfoldable pub gone : String → String → Response
unfolding write_error ◌++◌
gone resource_type name =
    write_error 410 "ResourceGone"
      ("The resource '" ++ resource_type ++ "/" ++ name ++ "' has been deleted.")

unfoldable pub method_not_allowed : String → Response
unfolding write_error ◌++◌
method_not_allowed method =
    write_error 405 "MethodNotAllowed" ("The request method '" ++ method ++ "' is not allowed.")

-- json.NewDecoder(r.Body).Decode(&v), where the handler tests the error: its text, or the value.
-- Where a handler ignores the error, its argument is what Decode leaves in the variable.
pub data Decoded {ℓ} (A : Type ℓ) : Type ℓ where
  failed : String → Decoded A
  decoded : A → Decoded A

-- `_, exists := h.store.Get(k)`, a Set, and 200 for an update or 201 for a creation
abbrev pub created_or_updated : Bool → Value → Response
created_or_updated true v = json_response 200 v
created_or_updated false v = json_response 201 v

-- `v, ok := h.store.Get(k)`: encode it, or azerr.NotFound
abbrev pub found_or : Response → Option Value → Response
found_or missing none = missing
found_or missing (some v) = json_response 200 v
