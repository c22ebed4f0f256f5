-- ===== src/Sites/Deletion.antt =====
-- What is left of a site after internal/services/sites/handler.go deletes it.
use Prim.Native.Char.{Char}
use Prim.Native.String.{[], ◌∷◌}
use miniblue.Prelude.{
  ℕ, suc, ◌+◌, Bool-cases, inl, inr, String, ◌≡◌, ◌≢◌, refl, ◌∙◌, sym, ap, true, false, none, some,
  ◌++◌, ◌==◌, is_some, eq_iff, eq_refl, arith,
}
use miniblue.Prelude.Text.{append_cancel}
use miniblue.Store
use miniblue.Store.{Store}
use miniblue.Store.Laws.{get-set, get-set_same, get-delete}
use miniblue.Value.{Value, Fields}
use miniblue.Http.{decoded, not_found}
use miniblue.Arm.{get_resource, delete_resource}
use miniblue.Arm.Family.{kind_apart, delete_resource-store}
use miniblue.Sites.Config.{
  site_key, value_or, get_setting, update_setting, config_response, properties_or,
}
use miniblue.Sites.Config.Defaults.{updated_auth_defaults}
use miniblue.Sites.Config.Settings.{auth_settings_key, get_auth_settings, update_auth_settings}
use miniblue.Sites.{
  site_resource_group_key, site_subscription_key, create_or_update, get, delete,
  check_name_availability, in_use, name_answer, build_site_response,
}

abbrev size : String → ℕ
size [] = 0
size (c ∷ s) = suc (size s)

size-append : (s t : String) → size (s ++ t) ≡ size s + size t
unfolding ◌++◌
size-append [] t = omega arith
size-append (c ∷ s) t = let h = size-append s t in omega arith

-- a text with something before it is another text
longer : (s : String) (c : Char) (t : String) → s ++ c ∷ t ≢ t
longer s c t e =
    let h : size s + suc (size t) ≡ size t = sym (size-append s (c ∷ t)) ∙ ap size e in omega arith

-- the two keys of a site
keys_apart :
    (sub rg name : String)
    → (site_resource_group_key sub rg name == site_subscription_key sub name) ≡ false
unfolding site_resource_group_key site_subscription_key
keys_apart sub rg name =
    elim (Bool-cases
      ("func:" ++ sub ++ ":" ++ rg ++ ":" ++ name == "func:" ++ sub ++ ":" ++ name)) [
        | inl e ↦ absurd (
            longer rg ":" name (
              append_cancel ":" _ _
                (append_cancel sub _ _ (append_cancel "func:" _ _ ((eq_iff _ _).0 e)))))
        | inr e ↦ e
      ]

build_site-in_use :
    (sub rg name : String) (input : Fields)
    → in_use (some (build_site_response sub rg name input)) ≡ true
unfolding in_use build_site_response
build_site-in_use sub rg name input = refl

-- After a site is created and deleted again, it is not found, but CheckNameAvailability says that its
-- name is taken.
pub name_stays_taken :
    (s : Store Value) (sub rg name : String) (input : Fields)
    → (get (delete (create_or_update s sub rg name input).0 sub rg name).0 sub rg name
        ≡ not_found "Microsoft.Web/sites" name)
      × (check_name_availability
            (delete (create_or_update s sub rg name input).0 sub rg name).0
            sub
            (decoded (name, "Microsoft.Web/sites"))
          ≡ name_answer name true)
unfolding get delete create_or_update check_name_availability get_resource delete_resource
name_stays_taken s sub rg name input =
    let site = build_site_response sub rg name input in
    let k = site_resource_group_key sub rg name in
    let k' = site_subscription_key sub name in
    let s' = Store.set (Store.set s k site) k' site in
    let gone : Store.get (Store.delete s' k).0 k ≡ none = rw (get-delete s' k k, eq_refl k) refl in
    let kept : Store.get (Store.delete s' k).0 k' ≡ some site =
      rw
        (
          get-delete s' k k',
          keys_apart sub rg name,
          get-set (Store.set s k site) k' k' site,
          eq_refl k',
        )
        refl in
    let after = delete_resource-store s' k (not_found "Microsoft.Web/sites" name) 200 in
    (rw (after, gone) refl, rw (after, kept, build_site-in_use sub rg name input) refl)

-- a site is there once it is created
created_there :
    (s : Store Value) (sub rg name : String) (input : Fields)
    → is_some (Store.get (create_or_update s sub rg name input).0 (site_key sub rg name)) ≡ true
unfolding create_or_update site_key site_resource_group_key site_subscription_key
created_there s sub rg name input =
    let k = "func:" ++ sub ++ ":" ++ rg ++ ":" ++ name in
    let k' = "func:" ++ sub ++ ":" ++ name in
    let site = build_site_response sub rg name input in
    elim (Bool-cases (k' == k)) [
      | inl e ↦ rw (get-set (Store.set s k site) k' k site, e) refl
      | inr e ↦ rw (get-set (Store.set s k site) k' k site, e, get-set s k k site, eq_refl k) refl
    ]

kept_setting :
    (s : Store Value) (sub rg name : String) (input : Fields) (v : Value)
    → Store.get s (auth_settings_key sub rg name) ≡ some v
    → Store.get
        (create_or_update (delete s sub rg name).0 sub rg name input).0
        (auth_settings_key sub rg name)
      ≡ some v
unfolding create_or_update delete auth_settings_key site_resource_group_key site_subscription_key
kept_setting s sub rg name input v h =
    let rest = sub ++ ":" ++ rg ++ ":" ++ name in
    let short = sub ++ ":" ++ name in
    let site = build_site_response sub rg name input in
    let s' = (Store.delete s ("func:" ++ rest)).0 in
    rw
      (
        delete_resource-store s ("func:" ++ rest) (not_found "Microsoft.Web/sites" name) 200,
        get-set (Store.set s' ("func:" ++ rest) site) ("func:" ++ short) ("webapp:auth:" ++ rest)
            site,
        kind_apart "func:" "webapp:auth:" short rest refl,
        get-set s' ("func:" ++ rest) ("webapp:auth:" ++ rest) site,
        kind_apart "func:" "webapp:auth:" rest rest refl,
        get-delete s ("func:" ++ rest) ("webapp:auth:" ++ rest),
        kind_apart "func:" "webapp:auth:" rest rest refl,
      )
      h

-- The authentication settings that were written for a site are shown after the site is deleted and
-- created again.
pub settings_survive :
    (s : Store Value) (sub rg name : String) (given input : Fields)
    → is_some (Store.get s (site_key sub rg name)) ≡ true
    → let t = update_auth_settings s sub rg name given in
      get_auth_settings
        (create_or_update (delete t.0 sub rg name).0 sub rg name input).0
        sub
        rg
        name
      ≡ t.1
unfolding update_auth_settings get_auth_settings get_setting update_setting value_or
settings_survive s sub rg name given input there =
    let key = auth_settings_key sub rg name in
    let made =
      config_response sub rg name "authsettings" "authsettings"
        (properties_or updated_auth_defaults given) in
    let t = Store.set s key made in
    let held : Store.get t key ≡ some made = get-set_same s key made in
    rw
      (
        there,
        created_there (delete t sub rg name).0 sub rg name input,
        kept_setting t sub rg name input made held,
      )
      refl
