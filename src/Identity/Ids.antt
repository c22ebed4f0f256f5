-- ===== src/Identity/Ids.antt =====
-- internal/services/identity/handler.go: an identity keeps its ids when it is updated.
use miniblue.Prelude.{
  String, ◌≡◌, refl, sym, ◌∙◌, true, false, Option, none, some, ◌++◌, ◌==◌, is_some, eq_refl,
}
use miniblue.Store
use miniblue.Store.{Store}
use miniblue.Store.Laws.{get-set, exists-get}
use miniblue.Value.{Value, Fields, str, lookup_field}
use miniblue.Arm.{put_resource}
use miniblue.Arm.Family.{kind_apart}
use miniblue.Arm.Properties.{property, shown, lookup-set_field, shown-created_or_updated}
use miniblue.Identity.{
  identity_key, stable_id, with_tags, identity_record, create_or_update_identity,
}

with_tags-properties :
    (o : Option Value) (rec : Fields)
    → lookup_field "properties" (with_tags o rec) ≡ lookup_field "properties" rec
unfolding with_tags
with_tags-properties none rec = refl
with_tags-properties (some tags) rec = lookup-set_field "tags" "properties" tags rec

kept :
    (sub rg name principal client new : String) (input : Fields)
    → (stable_id "principalId" new (some (identity_record sub rg name principal client input))
        ≡ principal)
      × (stable_id "clientId" new (some (identity_record sub rg name principal client input))
          ≡ client)
unfolding identity_record stable_id lookup_field
kept sub rg name principal client new input =
    rw (with_tags-properties (lookup_field "tags" input) _) (refl, refl)

shows :
    (sub rg name principal client : String) (input : Fields)
    → (property "principalId" (identity_record sub rg name principal client input)
        ≡ some (str principal))
      × (property "clientId" (identity_record sub rg name principal client input)
          ≡ some (str client))
unfolding identity_record property lookup_field
shows sub rg name principal client input =
    rw (with_tags-properties (lookup_field "tags" input) _) (refl, refl)

put_identity :
    (p c : String) (s : Store Value) (sub rg name : String) (input : Fields)
    → Store.exists s ("rg:" ++ sub ++ ":" ++ rg) ≡ true
    → create_or_update_identity p c s sub rg name input
      ≡ put_resource s (identity_key sub rg name) (
          identity_record sub rg name
            (stable_id "principalId" p (Store.get s (identity_key sub rg name)))
            (stable_id "clientId" c (Store.get s (identity_key sub rg name)))
            input)
unfolding create_or_update_identity
put_identity p c s sub rg name input h = rw h refl

group_there :
    (s : Store Value) (sub rg name : String) (v : Value)
    → Store.exists s ("rg:" ++ sub ++ ":" ++ rg) ≡ true
    → Store.exists (Store.set s (identity_key sub rg name) v) ("rg:" ++ sub ++ ":" ++ rg) ≡ true
unfolding identity_key
group_there s sub rg name v h =
    let g = "rg:" ++ sub ++ ":" ++ rg in
    let k = identity_key sub rg name in
    let apart : (k == g) ≡ false = kind_apart "msi:identity:" "rg:" _ _ refl in
    exists-get (Store.set s k v) g ∙ rw (get-set s k g v, apart) (sym (exists-get s g) ∙ h)

-- Where the resource group is there, a second PUT of an identity answers the principal and client
-- ids that the first one answered, whatever new ids are drawn and whatever the two bodies are.
pub create_or_update_identity-stable :
    (s : Store Value) (sub rg name p c p' c' : String) (input input' : Fields)
    → Store.exists s ("rg:" ++ sub ++ ":" ++ rg) ≡ true
    → let (s', first) = create_or_update_identity p c s sub rg name input in
      let second = (create_or_update_identity p' c' s' sub rg name input').1 in
      (shown "principalId" second ≡ shown "principalId" first)
      × (shown "clientId" second ≡ shown "clientId" first)
unfolding put_resource
create_or_update_identity-stable s sub rg name p c p' c' input input' there =
    let k = identity_key sub rg name in
    let p₀ = stable_id "principalId" p (Store.get s k) in
    let c₀ = stable_id "clientId" c (Store.get s k) in
    let v = identity_record sub rg name p₀ c₀ input in
    let s' = Store.set s k v in
    let held : Store.get s' k ≡ some v = rw (get-set s k k v, eq_refl k) refl in
    let keeps = (kept sub rg name p₀ c₀ p' input).0 in
    let keeps' = (kept sub rg name p₀ c₀ c' input).1 in
    let before = shows sub rg name p₀ c₀ input in
    let after = shows sub rg name p₀ c₀ input' in
    let found = is_some (Store.get s k) in
    rw
      (
        put_identity p c s sub rg name input there,
        put_identity p' c' s' sub rg name input' (group_there s sub rg name v there),
        held,
        keeps,
        keeps',
      )
      (
        shown-created_or_updated "principalId" true _
            ∙ after.0
            ∙ sym (shown-created_or_updated "principalId" found v ∙ before.0),
        shown-created_or_updated "clientId" true _
            ∙ after.1
            ∙ sym (shown-created_or_updated "clientId" found v ∙ before.1),
      )
