-- ===== src/Identity/Token/Select.antt =====
-- internal/services/identity/handler.go, GetToken: which of the assigned identities a request is for,
-- and the key of an identity by its ARM id.
use miniblue.Prelude.{
  ℕ, zero, suc, String, Bool, Option, none, some, ◌++◌, List, [], ◌∷◌, ◌==◌, eqb, if◌then◌else◌,
}
use miniblue.Prelude.Split.{split, trim}
use miniblue.Value.{Value, Fields, no_fields, field, lookup_field, string_or_empty}
use miniblue.Arm.{object_or}

-- json.Marshal followed by base64.RawURLEncoding, hex of SHA-256, strings.EqualFold
pub record Library : Type 0 where
  pub encode : Value → String
  pub sha256_hex : String → String
  pub equal_fold : String → String → Bool

-- `resource` and the others: the query, and the header X-IDENTITY-HEADER
pub record TokenRequest : Type 0 where
  pub resource : String
  pub secret : String
  pub client_id : String
  pub mi_res_id : String

-- `x, _ := v.(map[string]interface{})`, a nil map read like an empty one
unfoldable pub map_of : Option Value → Fields
unfolding object_or
map_of v = object_or no_fields v

-- what stands at an index of the parts, or the empty text
unfoldable pub part : ℕ → List String → String
part n [] = ""
part zero (p ∷ ps) = p
part (suc n) (p ∷ ps) = part n ps

unfoldable pub count : List String → ℕ
count [] = 0
count (p ∷ ps) = suc (count ps)

unfoldable pub key_of_parts : List String → Option String
unfolding part count ◌++◌
key_of_parts ps =
    if eqb (count ps) 8
    then some ("msi:identity:" ++ part 1 ps ++ ":" ++ part 3 ps ++ ":" ++ part 7 ps)
    else none

unfoldable pub identity_key_from_arm_id : (arm_id : String) → Option String
unfolding key_of_parts split trim
identity_key_from_arm_id arm_id = key_of_parts (split b'/' (trim b'/' arm_id))

-- The two loops over the assignments: the last match, and no id if there is none.
select_by_id : Library → (wanted arm_id : String) (entry : Fields) → Fields → String × Fields
unfolding map_of
select_by_id lib wanted arm_id entry no_fields = (arm_id, entry)
select_by_id lib wanted arm_id entry (field k v rest) =
    let hit = select_by_id lib wanted k (map_of (some v)) rest in
    let miss = select_by_id lib wanted arm_id entry rest in
    if lib.equal_fold k wanted then hit else miss

select_by_client : Library → (wanted arm_id : String) (entry : Fields) → Fields → String × Fields
unfolding map_of string_or_empty lookup_field
select_by_client lib wanted arm_id entry no_fields = (arm_id, entry)
select_by_client lib wanted arm_id entry (field k v rest) =
    let e = map_of (some v) in
    let hit = select_by_client lib wanted k e rest in
    let miss = select_by_client lib wanted arm_id entry rest in
    if lib.equal_fold (string_or_empty (lookup_field "clientId" e)) wanted then hit else miss

pub data Choice : Type 0 where
  refused : (description : String) → Choice
  chosen : (arm_id : String) (entry : Fields) → Choice

-- `if armID == "" { oauthError(…) }`
found_id : (description : String) → String × Fields → Choice
found_id description (arm_id, entry) =
    if arm_id == "" then refused description else chosen arm_id entry

only_one : Fields → Choice
unfolding map_of
only_one no_fields = refused "No managed identity assigned to this virtual machine."
only_one (field k v no_fields) = chosen k (map_of (some v))
only_one (field k v (field j w rest)) =
    refused
      "Multiple identities are assigned to this virtual machine; specify client_id or mi_res_id."

unfoldable pub select : Library → TokenRequest → (assignments : Fields) → Choice
unfolding select_by_id select_by_client found_id only_one ◌++◌
select lib q no_fields = refused "No managed identity assigned to this virtual machine."
select lib q (field k v rest) =
    let all = field k v rest in
    if q.mi_res_id == ""
    then if q.client_id == ""
      then only_one all
      else found_id ("No assigned identity matches client_id '" ++ q.client_id ++ "'.")
          (select_by_client lib q.client_id "" no_fields all)
    else found_id ("The identity '" ++ q.mi_res_id ++ "' is not assigned to this virtual machine.")
        (select_by_id lib q.mi_res_id "" no_fields all)
