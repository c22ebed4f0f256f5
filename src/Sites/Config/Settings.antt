-- ===== src/Sites/Config/Settings.antt =====
-- internal/services/sites/config/handler.go: the configurations that are each one value in the store.
use miniblue.Prelude.{String, ◌++◌, []}
use miniblue.Store.{Store}
use miniblue.Value.{Value, Fields, dict}
use miniblue.Http.{Response}
use miniblue.Sites.Config.{get_setting, update_setting}
use miniblue.Sites.Config.Defaults.{
  auth_defaults, updated_auth_defaults, backup_defaults, updated_backup_defaults, logs_defaults,
  slot_config_names_defaults, push_defaults, auth_v2_defaults, publishing_credentials,
}

unfoldable pub auth_settings_key : (sub rg site : String) → String
unfolding ◌++◌
auth_settings_key sub rg site = "webapp:auth:" ++ sub ++ ":" ++ rg ++ ":" ++ site

unfoldable pub get_auth_settings : Store Value → (sub rg name : String) → Response
unfolding get_setting
get_auth_settings s sub rg name =
    get_setting s sub rg name "authsettings" "authsettings" (auth_settings_key sub rg name)
      auth_defaults

unfoldable pub update_auth_settings :
    Store Value → (sub rg name : String) → Fields → Store Value × Response
unfolding update_setting
update_auth_settings s sub rg name input =
    update_setting s sub rg name "authsettings" "authsettings" (auth_settings_key sub rg name)
      updated_auth_defaults input

unfoldable pub list_auth_settings : Store Value → (sub rg name : String) → Response
list_auth_settings s sub rg name = get_auth_settings s sub rg name

unfoldable pub backup_settings_key : (sub rg site : String) → String
unfolding ◌++◌
backup_settings_key sub rg site = "webapp:backup:" ++ sub ++ ":" ++ rg ++ ":" ++ site

unfoldable pub get_backup_settings : Store Value → (sub rg name : String) → Response
unfolding get_setting
get_backup_settings s sub rg name =
    get_setting s sub rg name "backup" "backup" (backup_settings_key sub rg name) backup_defaults

unfoldable pub update_backup_settings :
    Store Value → (sub rg name : String) → Fields → Store Value × Response
unfolding update_setting
update_backup_settings s sub rg name input =
    update_setting s sub rg name "backup" "backup" (backup_settings_key sub rg name)
      updated_backup_defaults input

unfoldable pub logs_settings_key : (sub rg site : String) → String
unfolding ◌++◌
logs_settings_key sub rg site = "webapp:logs:" ++ sub ++ ":" ++ rg ++ ":" ++ site

unfoldable pub get_logs_settings : Store Value → (sub rg name : String) → Response
unfolding get_setting
get_logs_settings s sub rg name =
    get_setting s sub rg name "logs" "logs" (logs_settings_key sub rg name) logs_defaults

unfoldable pub update_logs_settings :
    Store Value → (sub rg name : String) → Fields → Store Value × Response
unfolding update_setting
update_logs_settings s sub rg name input =
    update_setting s sub rg name "logs" "logs" (logs_settings_key sub rg name) logs_defaults input

unfoldable pub slot_config_names_key : (sub rg site : String) → String
unfolding ◌++◌
slot_config_names_key sub rg site = "webapp:slotconfignames:" ++ sub ++ ":" ++ rg ++ ":" ++ site

unfoldable pub get_slot_config_names : Store Value → (sub rg name : String) → Response
unfolding get_setting
get_slot_config_names s sub rg name =
    get_setting s sub rg name "slotConfigNames" "slotConfigNames"
      (slot_config_names_key sub rg name) slot_config_names_defaults

unfoldable pub update_slot_config_names :
    Store Value → (sub rg name : String) → Fields → Store Value × Response
unfolding update_setting
update_slot_config_names s sub rg name input =
    update_setting s sub rg name "slotConfigNames" "slotConfigNames"
      (slot_config_names_key sub rg name) slot_config_names_defaults input

unfoldable pub metadata_key : (sub rg site : String) → String
unfolding ◌++◌
metadata_key sub rg site = "webapp:metadata:" ++ sub ++ ":" ++ rg ++ ":" ++ site

unfoldable pub get_metadata : Store Value → (sub rg name : String) → Response
unfolding get_setting
get_metadata s sub rg name =
    get_setting s sub rg name "metadata" "metadata" (metadata_key sub rg name) (dict [])

unfoldable pub update_metadata :
    Store Value → (sub rg name : String) → Fields → Store Value × Response
unfolding update_setting
update_metadata s sub rg name input =
    update_setting s sub rg name "metadata" "metadata" (metadata_key sub rg name) (dict []) input

unfoldable pub push_settings_key : (sub rg site : String) → String
unfolding ◌++◌
push_settings_key sub rg site = "webapp:pushsettings:" ++ sub ++ ":" ++ rg ++ ":" ++ site

unfoldable pub get_push_settings : Store Value → (sub rg name : String) → Response
unfolding get_setting
get_push_settings s sub rg name =
    get_setting s sub rg name "pushsettings" "pushsettings" (push_settings_key sub rg name)
      push_defaults

unfoldable pub update_push_settings :
    Store Value → (sub rg name : String) → Fields → Store Value × Response
unfolding update_setting
update_push_settings s sub rg name input =
    update_setting s sub rg name "pushsettings" "pushsettings" (push_settings_key sub rg name)
      push_defaults input

unfoldable pub auth_settings_v2_key : (sub rg site : String) → String
unfolding ◌++◌
auth_settings_v2_key sub rg site = "webapp:authv2:" ++ sub ++ ":" ++ rg ++ ":" ++ site

unfoldable pub get_auth_settings_v2 : Store Value → (sub rg name : String) → Response
unfolding get_setting
get_auth_settings_v2 s sub rg name =
    get_setting s sub rg name "authsettingsV2" "authsettingsV2" (auth_settings_v2_key sub rg name)
      auth_v2_defaults

unfoldable pub update_auth_settings_v2 :
    Store Value → (sub rg name : String) → Fields → Store Value × Response
unfolding update_setting
update_auth_settings_v2 s sub rg name input =
    update_setting s sub rg name "authsettingsV2" "authsettingsV2"
      (auth_settings_v2_key sub rg name) auth_v2_defaults input

unfoldable pub list_auth_settings_v2 : Store Value → (sub rg name : String) → Response
list_auth_settings_v2 s sub rg name = get_auth_settings_v2 s sub rg name

unfoldable pub publishing_credentials_key : (sub rg site : String) → String
unfolding ◌++◌
publishing_credentials_key sub rg site =
    "webapp:publishingcredentials:" ++ sub ++ ":" ++ rg ++ ":" ++ site

unfoldable pub list_publishing_credentials : Store Value → (sub rg name : String) → Response
unfolding get_setting
list_publishing_credentials s sub rg name =
    get_setting s sub rg name "publishingcredentials" "publishingcredentials"
      (publishing_credentials_key sub rg name) (publishing_credentials name)
