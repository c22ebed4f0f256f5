-- ===== src/ResourceGroups/Deletion.antt =====
-- Delete of internal/services/resourcegroups/handler.go, against the keys of all resources.
use mathlib.Core.Bool.{◌||◌}
use miniblue.Prelude.{
  String, ◌≡◌, refl, ◌∙◌, Bool, true, false, ◌&&◌, none, List, [], ◌∷◌, ◌++◌, ◌==◌, arith, eq_iff,
  inl, inr, Bool-cases, has_prefix, is_some, if◌then◌else◌,
}
use miniblue.Prelude.Lists.{contains}
use miniblue.Prelude.Text.{
  NoColon, differ, has_prefix_of_differ, has_prefix-append, has_prefix-append_self,
  has_prefix-segment_ne, has_prefix-segment_eq, has_prefix_refl, append-nil,
}
use miniblue.Store
use miniblue.Store.{Store}
use miniblue.Store.Laws.{get-delete, delete_found, exists-get}
use miniblue.Value.{Value}
use miniblue.ResourceGroups.Cascade.Laws.{cleared, under, get-cascade}
use miniblue.ResourceGroups.{Connection, key, delete}

-- The prefixes of container apps, their jobs and environments, of plans and slots, of the settings of
-- sites, and of deployments, none of which the deletion clears. A site itself stands under `func:`,
-- which the deletion clears.
abbrev pub uncleared : List String
uncleared =
    "containerapp:" ∷ "containerjob:" ∷ "managedenv:" ∷ "serverfarm:" ∷ "slot:" ∷ "webapp:"
    ∷ "deployment:" ∷ []

-- `kind ++ subscription ++ ":" ++ group ++ ":" ++ rest`: the key of a resource
abbrev pub resource_key : (kind sub rg rest : String) → String
resource_key kind sub rg rest = kind ++ sub ++ ":" ++ rg ++ ":" ++ rest

-- `kind` is each of the prefixes, or differs from it at some place
abbrev separate : String → List String → Bool
separate kind [] = true
separate kind (b ∷ bs) = (kind == b || differ kind b) && separate kind bs

abbrev every : (String → Bool) → List String → Bool
every f [] = true
every f (x ∷ xs) = f x && every f xs

every_sound :
    (f : String → Bool) (kind : String) (kinds : List String)
    → every f kinds ≡ true
    → contains kind kinds ≡ true
    → f kind ≡ true
every_sound f kind [] h c = ground arith
every_sound f kind (x ∷ xs) h c = elim (Bool-cases (x == kind)) [
  | inl e ↦ rw (← (eq_iff x kind).0 e) (ground arith)
  | inr e ↦ every_sound f kind xs (ground arith) (ground arith)
]

abbrev well_separated : String → Bool
well_separated kind = separate kind cleared && (differ kind "vmidsecret:" && differ kind "rg:")

cleared_table : every well_separated cleared ≡ true
cleared_table = refl

abbrev fully_separated : String → Bool
fully_separated kind =
    every (differ kind) cleared && (differ kind "vmidsecret:" && differ kind "rg:")

module _ (sub name sub' rg' : String) where
  -- The keys of another group do not begin with this group's prefix.
  other_group :
      (rest : String)
      → NoColon sub
      → NoColon name
      → NoColon sub'
      → NoColon rg'
      → ¬ ((sub' ≡ sub) × (rg' ≡ name))
      → has_prefix (sub' ++ ":" ++ rg' ++ ":" ++ rest) (sub ++ ":" ++ name ++ ":") ≡ false
  unfolding ◌++◌
  other_group rest ns nn ns' nr' h = elim (Bool-cases (sub' == sub)) [
    | inl e ↦
        let same : sub' ≡ sub = (eq_iff sub' sub).0 e in
        rw same (
          has_prefix-segment_eq sub (rg' ++ ":" ++ rest) (name ++ ":")
          ∙ has_prefix-segment_ne rg' name rest "" nr' nn (λ p. h (same, p)))
    | inr e ↦
        has_prefix-segment_ne sub' sub (rg' ++ ":" ++ rest) (name ++ ":") ns' ns
          (λ p. ground (arith, eq_iff sub' sub))
  ]

  under_other :
      (kind rest : String) (kinds : List String)
      → has_prefix (sub' ++ ":" ++ rg' ++ ":" ++ rest) (sub ++ ":" ++ name ++ ":") ≡ false
      → separate kind kinds ≡ true
      → under (sub ++ ":" ++ name ++ ":") kinds (resource_key kind sub' rg' rest) ≡ false
  under_other kind rest [] h t = refl
  under_other kind rest (b ∷ bs) h t = elim (Bool-cases (kind == b)) [
    | inl e ↦ rw (← (eq_iff kind b).0 e) (
        rw
          (
            has_prefix-append kind (sub' ++ ":" ++ rg' ++ ":" ++ rest) (sub ++ ":" ++ name ++ ":"),
            h,
          )
          (under_other kind rest bs h (ground arith)))
    | inr e ↦
        rw
          (has_prefix_of_differ kind b (sub' ++ ":" ++ rg' ++ ":" ++ rest)
            (sub ++ ":" ++ name ++ ":") (ground arith))
          (under_other kind rest bs h (ground arith))
  ]

under_self :
    (p kind rest : String) (kinds : List String)
    → contains kind kinds ≡ true
    → under p kinds (kind ++ p ++ rest) ≡ true
under_self p kind rest [] h = absurd (ground arith)
under_self p kind rest (b ∷ bs) h = elim (Bool-cases (b == kind)) [
  | inl e ↦
      rw (← (eq_iff b kind).0 e)
        (rw (has_prefix-append b (p ++ rest) p, has_prefix-append_self p rest))
  | inr e ↦ ground (arith, under_self p kind rest bs)
]

-- What the deletion does to a key that is neither the group's own nor an identity's secret.
get-delete_group :
    (docker_ok : Bool) (c : Connection) (s : Store Value) (sub name k : String)
    → has_prefix k "vmidsecret:" ≡ false
    → (key sub name == k) ≡ false
    → Store.get (delete docker_ok c s sub name).0 k ≡ (
        if is_some (Store.get s (key sub name)) && under (sub ++ ":" ++ name ++ ":") cleared k
        then none
        else Store.get s k)
unfolding delete
get-delete_group docker_ok c s sub name k secret other =
    let s' = (Store.delete s (key sub name)).0 in
    ground (
      arith,
      delete_found s (key sub name),
      get-delete s (key sub name) k,
      get-cascade k secret docker_ok s' sub name,
    )

key_differs :
    (kind rest sub name : String)
    → differ kind "rg:" ≡ true
    → (key sub name == kind ++ rest) ≡ false
unfolding key
key_differs kind rest sub name h = elim (Bool-cases ("rg:" ++ sub ++ ":" ++ name == kind ++ rest)) [
  | inl e ↦
      let same : "rg:" ++ sub ++ ":" ++ name ≡ kind ++ rest = (eq_iff _ _).0 e in
      let clash : has_prefix (kind ++ rest) ("rg:" ++ sub ++ ":" ++ name) ≡ false =
        has_prefix_of_differ kind "rg:" rest (sub ++ ":" ++ name) h in
      ground (arith, has_prefix_refl (kind ++ rest), clash, same)
  | inr e ↦ e
]

secret_differs :
    (kind rest : String)
    → differ kind "vmidsecret:" ≡ true
    → has_prefix (kind ++ rest) "vmidsecret:" ≡ false
secret_differs kind rest h =
    rw (append-nil "vmidsecret:") at (has_prefix_of_differ kind "vmidsecret:" rest "" h)

module _ (docker_ok : Bool) (c : Connection) (s : Store Value) (sub name : String) where
  -- Deleting an existing resource group removes every resource of it, of each of the 33 kinds.
  pub delete_removes :
      (kind rest : String)
      → contains kind cleared ≡ true
      → Store.exists s (key sub name) ≡ true
      → Store.get (delete docker_ok c s sub name).0 (kind ++ (sub ++ ":" ++ name ++ ":") ++ rest)
        ≡ none
  delete_removes kind rest known there =
      let sep = every_sound well_separated kind cleared cleared_table known in
      get-delete_group docker_ok c s sub name _
        (secret_differs kind ((sub ++ ":" ++ name ++ ":") ++ rest) (ground arith))
        (key_differs kind ((sub ++ ":" ++ name ++ ":") ++ rest) sub name (ground arith))
      ∙ rw (
        ← exists-get s (key sub name),
        there,
        under_self (sub ++ ":" ++ name ++ ":") kind rest cleared known,
      )

  -- The names of both subscriptions and of both groups have no colon: then deleting a resource group
  -- leaves the resources of the other group as they were, of each of the 33 kinds that the deletion
  -- clears, whether the other group is in the same subscription or in another.
  pub delete_keeps_others :
      (kind sub' rg' rest : String)
      → contains kind cleared ≡ true
      → NoColon sub
      → NoColon name
      → NoColon sub'
      → NoColon rg'
      → ¬ ((sub' ≡ sub) × (rg' ≡ name))
      → Store.get (delete docker_ok c s sub name).0 (resource_key kind sub' rg' rest)
        ≡ Store.get s (resource_key kind sub' rg' rest)
  delete_keeps_others kind sub' rg' rest known ns nn ns' nr' h =
      let sep = every_sound well_separated kind cleared cleared_table known in
      let away = other_group sub name sub' rg' rest ns nn ns' nr' h in
      get-delete_group docker_ok c s sub name _
        (secret_differs kind (sub' ++ ":" ++ rg' ++ ":" ++ rest) (ground arith))
        (key_differs kind (sub' ++ ":" ++ rg' ++ ":" ++ rest) sub name (ground arith))
      ∙ rw (under_other sub name sub' rg' kind rest cleared away (ground arith)) (ground arith)
