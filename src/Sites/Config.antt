-- ===== src/Sites/Config.antt =====
-- internal/services/sites/config/handler.go: the configuration of a web site. `input` is what Decode
-- leaves in the variable, and a site is a map that two keys share: the handlers change the one that
-- they read, and no handler looks into the other.
pub mod Defaults
pub mod Settings
pub mod Named
pub mod Laws
pub mod Hidden
use miniblue.Prelude.{String, Option, none, some, ◌++◌, [], ◌∷◌, is_some, if◌then◌else◌}
use miniblue.Store
use miniblue.Store.{Store}
use miniblue.Value.{
  Value, Fields, nil, str, obj, no_fields, dict, lookup_field, set_field, as_object,
}
use miniblue.Http.{Response, json_response, not_found}
use miniblue.Arm.{object_or, properties_of}

unfoldable pub site_key : (sub rg name : String) → String
unfolding ◌++◌
site_key sub rg name = "func:" ++ sub ++ ":" ++ rg ++ ":" ++ name

-- The object that each of the handlers answers with: `path` ends its id, `label` its name.
unfoldable pub config_response : (sub rg name path label : String) → (properties : Value) → Value
unfolding ◌++◌
config_response sub rg name path label properties = dict (
    (
      "id",
      str (
          "/subscriptions/" ++ sub ++ "/resourceGroups/" ++ rg ++ "/providers/Microsoft.Web/sites/"
          ++ name ++ "/config/" ++ path),
    )
    ∷ ("name", str (name ++ "/" ++ label))
    ∷ ("type", str "Microsoft.Web/sites/config")
    ∷ ("kind", nil)
    ∷ ("properties", properties)
    ∷ [])

unfoldable pub value_or : Value → Option Value → Value
value_or d none = d
value_or d (some v) = v

-- the stored value, or one with the properties `d`, of a site that is there
unfoldable pub get_setting :
    Store Value → (sub rg name path label key : String) → (d : Value) → Response
unfolding value_or
get_setting s sub rg name path label key d =
    if is_some (Store.get s (site_key sub rg name))
    then json_response 200 (value_or (config_response sub rg name path label d) (Store.get s key))
    else not_found "Microsoft.Web/sites" name

object_given : Value → Option Value → Value
object_given d (some (obj fs)) = obj fs
object_given d (some v) = d
object_given d none = d

-- `props, _ := input["properties"].(map[string]interface{}); if props == nil { props = d }`
unfoldable pub properties_or : Value → Fields → Value
unfolding object_given lookup_field
properties_or d input = object_given d (lookup_field "properties" input)

-- a value with the properties of the body, or with `d`, on a site that is there
unfoldable pub update_setting :
    Store Value
    → (sub rg name path label key : String) → (d : Value) → Fields
    → Store Value × Response
update_setting s sub rg name path label key d input =
    let made = config_response sub rg name path label (properties_or d input) in
    if is_some (Store.get s (site_key sub rg name))
    then (Store.set s key made, json_response 200 made)
    else (s, not_found "Microsoft.Web/sites" name)

-- `v, ok := h.store.Get(k)` and `site, ok := v.(map[string]interface{})`
pub site_in : Option Value → Option Fields
site_in none = none
site_in (some v) = as_object v

-- a map in the properties of a site, or an empty one
unfoldable pub site_part : (part : String) → Fields → Fields
unfolding object_or lookup_field properties_of
site_part part site = object_or no_fields (lookup_field part (properties_of site))

unfoldable pub with_site_part : (part : String) → Fields → Fields → Fields
unfolding set_field properties_of
with_site_part part v site =
    set_field "properties" (obj (set_field part (obj v) (properties_of site))) site

pub shown_part : (name part : String) → (Value → Value) → Option Fields → Response
unfolding site_part
shown_part name part show none = not_found "Microsoft.Web/sites/config" name
shown_part name part show (some site) = json_response 200 (show (obj (site_part part site)))

pub updated_part :
    Store Value
    → (key name part : String) → (Value → Value)
    → Fields
    → Option Fields
    → Store Value × Response
unfolding with_site_part
updated_part s key name part show v none = (s, not_found "Microsoft.Web/sites/config" name)
updated_part s key name part show v (some site) =
    (Store.set s key (obj (with_site_part part v site)), json_response 200 (show (obj v)))

unfoldable pub get_config : Store Value → (sub rg name : String) → Response
unfolding shown_part site_in
get_config s sub rg name =
    shown_part name "siteConfig" (config_response sub rg name "web" "config/web")
      (site_in (Store.get s (site_key sub rg name)))

unfoldable pub update_config :
    Store Value → (sub rg name : String) → Fields → Store Value × Response
unfolding updated_part site_in properties_of
update_config s sub rg name input =
    updated_part s (site_key sub rg name) name "siteConfig"
      (config_response sub rg name "web" "config/web") (properties_of input)
      (site_in (Store.get s (site_key sub rg name)))

unfoldable pub get_app_settings : Store Value → (sub rg name : String) → Response
unfolding shown_part site_in
get_app_settings s sub rg name =
    shown_part name "appSettings" (config_response sub rg name "appsettings" "appsettings")
      (site_in (Store.get s (site_key sub rg name)))

unfoldable pub list_app_settings : Store Value → (sub rg name : String) → Response
list_app_settings s sub rg name = get_app_settings s sub rg name

unfoldable pub update_app_settings :
    Store Value → (sub rg name : String) → Fields → Store Value × Response
unfolding updated_part site_in properties_of
update_app_settings s sub rg name input =
    updated_part s (site_key sub rg name) name "appSettings"
      (config_response sub rg name "appsettings" "appsettings") (properties_of input)
      (site_in (Store.get s (site_key sub rg name)))
