-- ===== src/Sites/Publishing.antt =====
-- internal/services/sites/handler.go: who may publish to a site. The update of both policies at once
-- has no route.
use miniblue.Prelude.{String, true, ◌++◌, [], ◌∷◌}
use miniblue.Store.{Store}
use miniblue.Value.{Value, Fields, bool, dict}
use miniblue.Http.{Response}
use miniblue.Sites.Config.{get_setting, update_setting}

allowed : Value
allowed = dict (("allow", bool true) ∷ [])

both_allowed : Value
unfolding allowed
both_allowed = dict (("scm", allowed) ∷ ("ftp", allowed) ∷ [])

unfoldable pub basic_publishing_credentials_policies_key : (sub rg site : String) → String
unfolding ◌++◌
basic_publishing_credentials_policies_key sub rg site =
    "webapp:basicpublishingcredentialspolicies:" ++ sub ++ ":" ++ rg ++ ":" ++ site

unfoldable pub get_basic_publishing_credentials_policies :
    Store Value → (sub rg name : String) → Response
unfolding get_setting both_allowed
get_basic_publishing_credentials_policies s sub rg name =
    get_setting s sub rg name "basicPublishingCredentialsPolicies"
      "basicPublishingCredentialsPolicies" (basic_publishing_credentials_policies_key sub rg name)
      both_allowed

unfoldable pub update_basic_publishing_credentials_policies :
    Store Value → (sub rg name : String) → Fields → Store Value × Response
unfolding update_setting both_allowed
update_basic_publishing_credentials_policies s sub rg name input =
    update_setting s sub rg name "basicPublishingCredentialsPolicies"
      "basicPublishingCredentialsPolicies" (basic_publishing_credentials_policies_key sub rg name)
      both_allowed input

unfoldable pub scm_allowed_key : (sub rg site : String) → String
unfolding ◌++◌
scm_allowed_key sub rg site = "webapp:scmallowed:" ++ sub ++ ":" ++ rg ++ ":" ++ site

unfoldable pub get_scm_allowed : Store Value → (sub rg name : String) → Response
unfolding get_setting allowed
get_scm_allowed s sub rg name =
    get_setting s sub rg name "basicPublishingCredentialsPolicies/scm" "scm"
      (scm_allowed_key sub rg name) allowed

unfoldable pub update_scm_allowed :
    Store Value → (sub rg name : String) → Fields → Store Value × Response
unfolding update_setting allowed
update_scm_allowed s sub rg name input =
    update_setting s sub rg name "basicPublishingCredentialsPolicies/scm" "scm"
      (scm_allowed_key sub rg name) allowed input

unfoldable pub ftp_allowed_key : (sub rg site : String) → String
unfolding ◌++◌
ftp_allowed_key sub rg site = "webapp:ftpassigned:" ++ sub ++ ":" ++ rg ++ ":" ++ site

unfoldable pub get_ftp_allowed : Store Value → (sub rg name : String) → Response
unfolding get_setting allowed
get_ftp_allowed s sub rg name =
    get_setting s sub rg name "basicPublishingCredentialsPolicies/ftp" "ftp"
      (ftp_allowed_key sub rg name) allowed

unfoldable pub update_ftp_allowed :
    Store Value → (sub rg name : String) → Fields → Store Value × Response
unfolding update_setting allowed
update_ftp_allowed s sub rg name input =
    update_setting s sub rg name "basicPublishingCredentialsPolicies/ftp" "ftp"
      (ftp_allowed_key sub rg name) allowed input
