-- ===== src/ResourceGroups/Lifecycle.antt =====
-- Creating, reading and updating a resource group.
use mathlib.Core.Bool.{false≢true}
use miniblue.Prelude.{
  String, ◌≡◌, ◌≢◌, refl, Bool, true, false, none, some, ◌==◌, eq_iff, eq_refl, Bool-cases, is_some,
  if◌then◌else◌, Option-cases, inl, inr,
}
use miniblue.Store
use miniblue.Store.{Store, file}
use miniblue.Store.File.{Codec, Disk, new_file}
use miniblue.Store.File.Persistence.{new_file-all}
use miniblue.Store.Laws.{get-set, exists-get}
use miniblue.Value.{Value, Tags, nil, bool, number, str, array, obj, resource_group}
use miniblue.Http.{decoded, json_response, created_or_updated}
use miniblue.Http.Recover.{safe_recover}
use miniblue.ResourceGroups.{
  Input, key, new_group, create_or_update, get, update, update_found, patch_tags,
}

status_lem : (b : Bool) (v : Value) → (created_or_updated b v).status ≡ (if b then 200 else 201)
status_lem true v = refl
status_lem false v = refl

module _ (s : Store Value) (sub name : String) (input : Input) where
  -- With a location the PUT stores the group: a GET answers it, other keys keep their value, and
  -- the status of the PUT is 200 if the group was there and 201 if not.
  pub get-create_or_update :
      (k : String)
      → input.location ≢ ""
      → (get (create_or_update s sub name (decoded input)).0 sub name
          ≡ json_response 200 (resource_group (new_group sub name input)))
        × ((create_or_update s sub name (decoded input)).1.status
            ≡ (if Store.exists s (key sub name) then 200 else 201))
        × (Store.get (create_or_update s sub name (decoded input)).0 k ≡ (
            if key sub name == k
            then some (resource_group (new_group sub name input))
            else Store.get s k))
  unfolding create_or_update get
  get-create_or_update k located = elim (Bool-cases (input.location == "")) [
    | inl e ↦ absurd (located ((eq_iff input.location "").0 e))
    | inr e ↦
        let made = resource_group (new_group sub name input) in
        rw e (
          rw (get-set s (key sub name) (key sub name) made, eq_refl (key sub name)) refl,
          rw (exists-get s (key sub name)) (status_lem (is_some (Store.get s (key sub name))) made),
          get-set s (key sub name) k made,
        )
  ]

-- encoding/json decodes into an empty interface: nil, a bool, a number, a text, a slice or a map
abbrev pub IsJson : Value → Type 0
IsJson nil = Unit
IsJson (bool b) = Unit
IsJson (number n) = Unit
IsJson (str t) = Unit
IsJson (array vs) = Unit
IsJson (obj fs) = Unit
IsJson _ = ⊥

-- The store as NewFileBackend reads it from disk.
abbrev pub restarted : Codec Value → Disk → String → Store Value
restarted codec disk path = record { backend = file (new_file codec disk path) }

patch_tags-IsJson :
    (s : Store Value) (k : String) (v : Value) (tags : Tags)
    → IsJson v
    → (patch_tags s k v tags).1 ≡ none
unfolding patch_tags
patch_tags-IsJson s k (resource_group rg) tags h = absurd h
patch_tags-IsJson s k _ tags h = refl

got-IsJson :
    (codec : Codec Value) (disk : Disk) (path k : String) (v : Value)
    → ((raw : String) → IsJson (codec.decode raw))
    → Store.get (restarted codec disk path) k ≡ some v
    → IsJson v
unfolding Store.get
got-IsJson codec disk path k v json e = new_file-all codec IsJson json disk path k v e

-- After a restart from the file, PATCH of a resource group that is there panics, and the client
-- gets a 500: the stored value is a map, and the handler asserts a ResourceGroup.
pub update_after_restart :
    (codec : Codec Value) (disk : Disk) (path sub name : String) (tags : Tags)
    → ((raw : String) → IsJson (codec.decode raw))
    → Store.exists (restarted codec disk path) (key sub name) ≡ true
    → (safe_recover (update (restarted codec disk path) sub name tags).1).status ≡ 500
unfolding update
update_after_restart codec disk path sub name tags json there =
    let s = restarted codec disk path in
    let k = key sub name in
    elim (Option-cases (Store.get s k)) [
      | inl e ↦ absurd (false≢true (rw (exists-get s k, e) at there))
      | inr (v, e) ↦
          rw (e, update_found, patch_tags-IsJson s k v tags (got-IsJson codec disk path k v json e))
            (unfold safe_recover in refl)
    ]
