-- ===== src/Tests/Machines.antt =====
-- The id of an identity, read by the virtual machines and by the identity service.
use miniblue.Prelude.{String, Bool, ◌≡◌, ◌↔◌, refl, some, ◌==◌}
use miniblue.Prelude.Split.{split, trim}
use miniblue.Identity.Token.Select.{identity_key_from_arm_id}
use miniblue.Vm.Identity.{ok, identity_store_key_from_arm_id}
use miniblue.Vm.Laws.{HasWords, parsers_iff}

abbrev fold : String → String → Bool
fold a b = a == b

abbrev id : String
id =
    "/subscriptions/s1/resourceGroups/g1/providers/Microsoft.ManagedIdentity/userAssignedIdentities/i1"

parsers_iff_example : (identity_store_key_from_arm_id fold id ≡ ok "msi:identity:s1:g1:i1") ↔ (
    HasWords fold (split b'/' (trim b'/' id))
    × (identity_key_from_arm_id id ≡ some "msi:identity:s1:g1:i1"))
parsers_iff_example = parsers_iff fold id "msi:identity:s1:g1:i1"

accepted : identity_store_key_from_arm_id fold id ≡ ok "msi:identity:s1:g1:i1"
unfolding identity_store_key_from_arm_id
accepted = refl
