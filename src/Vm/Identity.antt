-- ===== src/Vm/Identity.antt =====
-- internal/services/vm/identity.go: the identities that a virtual machine is given.
use miniblue.Prelude.{
  String, Bool, Option, none, some, ◌++◌, [], ◌∷◌, List, ◌==◌, ◌&&◌, ◌||◌, not, eqb, if◌then◌else◌,
}
use miniblue.Prelude.Split.{split, trim}
use miniblue.Store
use miniblue.Store.{Store}
use miniblue.Value.{
  Value, Fields, str, obj, no_fields, field, fields, lookup_field, string_or_empty,
}
use miniblue.Arm.{any_of}
use miniblue.Identity.Token.Select.{part, count, map_of}

-- a value, or the text of an error
pub data Result {ℓ} (A : Type ℓ) : Type ℓ where
  error : String → Result A
  ok : A → Result A

-- strings.EqualFold is an argument.
module _ (equal_fold : String → String → Bool) where
  unfoldable pub segments_fit : List String → Bool
  unfolding part count
  segments_fit ps =
      eqb (count ps) 8
      && (equal_fold (part 0 ps) "subscriptions"
          && equal_fold (part 2 ps) "resourceGroups"
          && equal_fold (part 4 ps) "providers"
          && equal_fold (part 5 ps) "Microsoft.ManagedIdentity"
          && equal_fold (part 6 ps) "userAssignedIdentities")

  unfoldable pub identity_store_key_from_arm_id : (arm_id : String) → Result String
  unfolding segments_fit part split trim ◌++◌
  identity_store_key_from_arm_id arm_id =
      let ps = split b'/' (trim b'/' arm_id) in
      if segments_fit ps
      then ok ("msi:identity:" ++ part 1 ps ++ ":" ++ part 3 ps ++ ":" ++ part 7 ps)
      else error ("'" ++ arm_id ++ "' is not a valid userAssignedIdentities resource id")

  props_entry : Option Value → Fields
  unfolding any_of lookup_field
  props_entry (some (obj props)) = fields (
      ("principalId", any_of (lookup_field "principalId" props))
      ∷ ("clientId", any_of (lookup_field "clientId" props))
      ∷ [])
  props_entry _ = no_fields

  unfoldable pub stored_entry : (arm_id : String) → Option Value → Result Fields
  unfolding props_entry map_of lookup_field ◌++◌
  stored_entry arm_id none = error ("the managed identity '" ++ arm_id ++ "' could not be found")
  stored_entry arm_id (some v) = ok (props_entry (lookup_field "properties" (map_of (some v))))

  unfoldable pub entry_at : Store Value → (arm_id : String) → Result String → Result Fields
  unfolding stored_entry
  entry_at s arm_id (error e) = error e
  entry_at s arm_id (ok key) = stored_entry arm_id (Store.get s key)

  unfoldable pub added : (arm_id : String) → Result Fields → Result Fields → Result Fields
  added arm_id (error e) rest = error e
  added arm_id (ok entry) (error e) = error e
  added arm_id (ok entry) (ok rest) = ok (field arm_id (obj entry) rest)

  -- the loop over the assignments
  unfoldable pub resolve_all : Store Value → (assignments : Fields) → Result Fields
  unfolding entry_at identity_store_key_from_arm_id added
  resolve_all s no_fields = ok no_fields
  resolve_all s (field arm_id v rest) =
      added arm_id (entry_at s arm_id (identity_store_key_from_arm_id arm_id)) (resolve_all s rest)

  unfoldable pub resolved_block : Result Fields → Result (Option Fields)
  resolved_block (error e) = error e
  resolved_block (ok resolved) =
      ok (
        some
          (fields (("type", str "UserAssigned") ∷ ("userAssignedIdentities", obj resolved) ∷ [])))

  unfoldable pub resolve_assignments : Store Value → Fields → Result (Option Fields)
  unfolding resolved_block resolve_all
  resolve_assignments s no_fields =
      error "identity type 'UserAssigned' requires at least one entry in userAssignedIdentities"
  resolve_assignments s (field arm_id v rest) = resolved_block (resolve_all s (field arm_id v rest))

  unfoldable pub resolve_block : Store Value → Option Value → Result (Option Fields)
  unfolding resolve_assignments string_or_empty map_of lookup_field ◌++◌
  resolve_block s (some (obj block)) =
      let type = string_or_empty (lookup_field "type" block) in
      if equal_fold type "None" || type == ""
      then ok none
      else if not (equal_fold type "UserAssigned")
      then error (
          "identity type '" ++ type
          ++ "' is not supported; only 'UserAssigned' (or 'None') is available")
      else resolve_assignments s (map_of (lookup_field "userAssignedIdentities" block))
  resolve_block s _ = ok none

  unfoldable pub resolve_identity_block : Store Value → (input : Fields) → Result (Option Fields)
  unfolding resolve_block lookup_field
  resolve_identity_block s input = resolve_block s (lookup_field "identity" input)
