-- ===== src/Tests/Sites.antt =====
-- A site with its settings, deleted and created again.
use miniblue.Prelude.{◌≡◌, refl, true, [], ◌∷◌, is_some}
use miniblue.Prelude.Lists.{every}
use miniblue.Store
use miniblue.Store.{Store}
use miniblue.Value.{Value, Fields, no_fields, fields, str, dict, bool}
use miniblue.Http.{json_response, not_found, decoded}
use miniblue.Sites.{
  create_or_update, delete, get, check_name_availability, name_answer, site_resource_group_key,
  site_subscription_key,
}
use miniblue.Sites.Config.{site_key}
use miniblue.Sites.Config.Settings.{
  get_auth_settings, update_auth_settings, get_backup_settings, update_backup_settings,
  get_logs_settings, update_logs_settings, get_slot_config_names, update_slot_config_names,
  get_metadata, update_metadata, get_push_settings, update_push_settings, get_auth_settings_v2,
  update_auth_settings_v2,
}
use miniblue.Sites.Config.Named.{
  connection_strings_key, connection_strings_response, get_connection_strings,
  update_connection_strings,
}
use miniblue.Sites.Config.Laws.{ReadsBack, read_back}
use miniblue.Sites.Config.Hidden.{is_nameless, never_shown}
use miniblue.Sites.Deletion.{name_stays_taken, settings_survive}

abbrev with_site : Store Value
with_site = (create_or_update Store.new "s1" "g1" "app" no_fields).0

abbrev given : Fields
given = fields (("properties", dict (("enabled", bool true) ∷ [])) ∷ [])

abbrev strings : Fields
strings = fields (
    (
      "properties",
      dict (("connectionStrings", dict (("db", dict (("value", str "Server=x") ∷ [])) ∷ [])) ∷ []),
    )
    ∷ [])

read_back_example :
    ReadsBack update_auth_settings get_auth_settings with_site "s1" "g1" "app" given
    × ReadsBack update_backup_settings get_backup_settings with_site "s1" "g1" "app" given
    × ReadsBack update_logs_settings get_logs_settings with_site "s1" "g1" "app" given
    × ReadsBack update_slot_config_names get_slot_config_names with_site "s1" "g1" "app" given
    × ReadsBack update_metadata get_metadata with_site "s1" "g1" "app" given
    × ReadsBack update_push_settings get_push_settings with_site "s1" "g1" "app" given
    × ReadsBack update_auth_settings_v2 get_auth_settings_v2 with_site "s1" "g1" "app" given
read_back_example = read_back with_site "s1" "g1" "app" given

site_there : is_some (Store.get with_site (site_key "s1" "g1" "app")) ≡ true
unfolding create_or_update site_key site_resource_group_key site_subscription_key Store.get
    Store.set Store.new
site_there = refl

no_strings :
    every
      (is_nameless "name")
      (Store.list_by_prefix with_site (connection_strings_key "s1" "g1" "app"))
    ≡ true
unfolding create_or_update connection_strings_key site_resource_group_key site_subscription_key
    Store.list_by_prefix Store.set Store.new miniblue.Prelude.has_prefix
no_strings = refl

never_shown_example :
    get_connection_strings
      (update_connection_strings with_site "s1" "g1" "app" strings).0
      "s1"
      "g1"
      "app"
    ≡ json_response 200 (connection_strings_response "s1" "g1" "app" no_fields)
never_shown_example = never_shown with_site "s1" "g1" "app" strings site_there no_strings

name_stays_taken_example :
    (get
        (delete (create_or_update Store.new "s1" "g1" "app" no_fields).0 "s1" "g1" "app").0
        "s1"
        "g1"
        "app"
      ≡ not_found "Microsoft.Web/sites" "app")
    × (check_name_availability
          (delete (create_or_update Store.new "s1" "g1" "app" no_fields).0 "s1" "g1" "app").0
          "s1"
          (decoded ("app", "Microsoft.Web/sites"))
        ≡ name_answer "app" true)
name_stays_taken_example = name_stays_taken Store.new "s1" "g1" "app" no_fields

settings_survive_example :
    let t = update_auth_settings with_site "s1" "g1" "app" given in
    get_auth_settings
      (create_or_update (delete t.0 "s1" "g1" "app").0 "s1" "g1" "app" no_fields).0
      "s1"
      "g1"
      "app"
    ≡ t.1
settings_survive_example = settings_survive with_site "s1" "g1" "app" given no_fields site_there
