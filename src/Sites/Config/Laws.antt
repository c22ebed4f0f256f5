-- ===== src/Sites/Config/Laws.antt =====
-- What the handlers of internal/services/sites/config/handler.go promise about the configuration of a
-- site: a client reads what it wrote.
use miniblue.Prelude.{
  String, ◌≡◌, refl, true, false, ◌++◌, ◌==◌, Bool-cases, inl, inr, none, some, Option, is_some,
  eq_refl, if◌then◌else◌,
}
use miniblue.Prelude.Text.{differ}
use miniblue.Store
use miniblue.Store.{Store}
use miniblue.Store.Laws.{get-set, get-set_same}
use miniblue.Value.{Value, Fields, obj, set_field, as_object}
use miniblue.Http.{Response}
use miniblue.Arm.{object_or, properties_of}
use miniblue.Arm.Family.{kind_apart}
use miniblue.Arm.Properties.{lookup-set_field, lookup-set_same}
use miniblue.Sites.Config.{
  site_key, config_response, value_or, get_setting, update_setting, properties_or, get_config,
  update_config, get_app_settings, update_app_settings, site_in, site_part, with_site_part,
  shown_part, updated_part,
}
use miniblue.Sites.Config.Settings.{
  auth_settings_key, get_auth_settings, update_auth_settings, backup_settings_key,
  get_backup_settings, update_backup_settings, logs_settings_key, get_logs_settings,
  update_logs_settings, slot_config_names_key, get_slot_config_names, update_slot_config_names,
  metadata_key, get_metadata, update_metadata, push_settings_key, get_push_settings,
  update_push_settings, auth_settings_v2_key, get_auth_settings_v2, update_auth_settings_v2,
}

-- A value under a key of another kind leaves a site as it is.
pub get-set_kind :
    (s : Store Value) (sub rg name kind rest : String) (v : Value)
    → differ kind "func:" ≡ true
    → Store.get (Store.set s (kind ++ rest) v) (site_key sub rg name)
      ≡ Store.get s (site_key sub rg name)
unfolding site_key
get-set_kind s sub rg name kind rest v h =
    rw
      (
        get-set s (kind ++ rest) ("func:" ++ sub ++ ":" ++ rg ++ ":" ++ name) v,
        kind_apart kind "func:" rest (sub ++ ":" ++ rg ++ ":" ++ name) h,
      )
      refl

pub get_setting-update_setting :
    (s : Store Value) (sub rg name path label kind rest : String) (d e : Value) (input : Fields)
    → differ kind "func:" ≡ true
    → get_setting
        (update_setting s sub rg name path label (kind ++ rest) d input).0
        sub
        rg
        name
        path
        label
        (kind ++ rest)
        e
      ≡ (update_setting s sub rg name path label (kind ++ rest) d input).1
unfolding get_setting update_setting value_or
get_setting-update_setting s sub rg name path label kind rest d e input h =
    let made = config_response sub rg name path label (properties_or d input) in
    elim (Bool-cases (is_some (Store.get s (site_key sub rg name)))) [
      | inl there ↦
          rw
            (
              there,
              get-set_kind s sub rg name kind rest made h,
              there,
              get-set_same s (kind ++ rest) made,
            )
            refl
      | inr missing ↦ rw (missing, missing) refl
    ]

-- a read after an update answers what the update answered
abbrev pub ReadsBack :
    (Store Value → String → String → String → Fields → Store Value × Response)
    → (Store Value → String → String → String → Response)
    → Store Value
    → (sub rg name : String) → Fields
    → Type 0
ReadsBack update read s sub rg name input =
    read (update s sub rg name input).0 sub rg name ≡ (update s sub rg name input).1

-- After an update of a setting of a site, a read of it answers what the update answered, whether the
-- site is there or not, for each of the seven settings.
pub read_back :
    (s : Store Value) (sub rg name : String) (input : Fields)
    → ReadsBack update_auth_settings get_auth_settings s sub rg name input
      × ReadsBack update_backup_settings get_backup_settings s sub rg name input
      × ReadsBack update_logs_settings get_logs_settings s sub rg name input
      × ReadsBack update_slot_config_names get_slot_config_names s sub rg name input
      × ReadsBack update_metadata get_metadata s sub rg name input
      × ReadsBack update_push_settings get_push_settings s sub rg name input
      × ReadsBack update_auth_settings_v2 get_auth_settings_v2 s sub rg name input
unfolding get_auth_settings update_auth_settings get_backup_settings update_backup_settings
    get_logs_settings update_logs_settings get_slot_config_names update_slot_config_names
    get_metadata update_metadata get_push_settings update_push_settings get_auth_settings_v2
    update_auth_settings_v2 auth_settings_key backup_settings_key logs_settings_key
    slot_config_names_key metadata_key push_settings_key auth_settings_v2_key
read_back s sub rg name input = (
  get_setting-update_setting s sub rg name _ _ "webapp:auth:" _ _ _ input refl,
  get_setting-update_setting s sub rg name _ _ "webapp:backup:" _ _ _ input refl,
  get_setting-update_setting s sub rg name _ _ "webapp:logs:" _ _ _ input refl,
  get_setting-update_setting s sub rg name _ _ "webapp:slotconfignames:" _ _ _ input refl,
  get_setting-update_setting s sub rg name _ _ "webapp:metadata:" _ _ _ input refl,
  get_setting-update_setting s sub rg name _ _ "webapp:pushsettings:" _ _ _ input refl,
  get_setting-update_setting s sub rg name _ _ "webapp:authv2:" _ _ _ input refl,
)

properties-with_site_part :
    (part : String) (v site : Fields)
    → properties_of (with_site_part part v site) ≡ set_field part (obj v) (properties_of site)
unfolding with_site_part properties_of object_or
properties-with_site_part part v site = rw (lookup-set_same "properties" _ site) refl

-- A map in the properties of a site after another, or the same, was written.
pub site_part-with_site_part :
    (part other : String) (v site : Fields)
    → site_part other (with_site_part part v site)
      ≡ (if part == other then v else site_part other site)
unfolding site_part object_or
site_part-with_site_part part other v site = elim (Bool-cases (part == other)) [
  | inl e ↦
      rw
        (
          properties-with_site_part part v site,
          lookup-set_field part other (obj v) (properties_of site),
          e,
        )
        refl
  | inr e ↦
      rw
        (
          properties-with_site_part part v site,
          lookup-set_field part other (obj v) (properties_of site),
          e,
        )
        refl
]

shown_same :
    (s : Store Value) (key name part : String) (show : Value → Value) (v : Fields)
    (o : Option Fields)
    → site_in (Store.get s key) ≡ o
    → shown_part name part show (site_in (Store.get (updated_part s key name part show v o).0 key))
      ≡ (updated_part s key name part show v o).1
unfolding updated_part shown_part site_in as_object
shown_same s key name part show v none h = rw h refl
shown_same s key name part show v (some site) h =
    rw
      (
        get-set_same s key (obj (with_site_part part v site)),
        site_part-with_site_part part part v site,
        eq_refl part,
      )
      refl

shown_other :
    (s : Store Value) (key name part other : String) (show show' : Value → Value) (v : Fields)
    (o : Option Fields)
    → (part == other) ≡ false
    → site_in (Store.get s key) ≡ o
    → shown_part name other show'
        (site_in (Store.get (updated_part s key name part show v o).0 key))
      ≡ shown_part name other show' (site_in (Store.get s key))
unfolding updated_part shown_part site_in as_object
shown_other s key name part other show show' v none ne h = refl
shown_other s key name part other show show' v (some site) ne h =
    rw
      (
        get-set_same s key (obj (with_site_part part v site)),
        h,
        site_part-with_site_part part other v site,
        ne,
      )
      refl

-- After an update of the configuration of a site, or of its application settings, a read answers what
-- the update answered, and a read of the other answers what it did before.
pub parts_apart :
    (s : Store Value) (sub rg name : String) (input : Fields)
    → (get_config (update_config s sub rg name input).0 sub rg name
        ≡ (update_config s sub rg name input).1)
      × (get_app_settings (update_config s sub rg name input).0 sub rg name
          ≡ get_app_settings s sub rg name)
      × (get_app_settings (update_app_settings s sub rg name input).0 sub rg name
          ≡ (update_app_settings s sub rg name input).1)
      × (get_config (update_app_settings s sub rg name input).0 sub rg name
          ≡ get_config s sub rg name)
unfolding get_config update_config get_app_settings update_app_settings
parts_apart s sub rg name input =
    let k = site_key sub rg name in
    let web = config_response sub rg name "web" "config/web" in
    let app = config_response sub rg name "appsettings" "appsettings" in
    (
      shown_same s k name "siteConfig" web _ _ refl,
      shown_other s k name "siteConfig" "appSettings" web app _ _ refl refl,
      shown_same s k name "appSettings" app _ _ refl,
      shown_other s k name "appSettings" "siteConfig" app web _ _ refl refl,
    )
