-- ===== src/Sites/Config/Defaults.antt =====
-- internal/services/sites/config/handler.go: the properties of a configuration that no client has set.
use miniblue.Prelude.{String, true, false, ◌++◌, [], ◌∷◌}
use miniblue.Value.{Value, nil, bool, int, str, slice, dict}

unfoldable pub auth_defaults : Value
auth_defaults = dict (
    ("enabled", bool false)
    ∷ ("unauthenticatedClientAction", str "RedirectToLoginPage")
    ∷ ("tokenStoreEnabled", bool false)
    ∷ ("allowedExternalRedirectUrls", slice [])
    ∷ ("defaultProvider", str "AzureActiveDirectory")
    ∷ ("tokenRefreshExtensionHours", int 0)
    ∷ ("validateNonce", bool true)
    ∷ ("excludedPaths", slice [])
    ∷ ("requireHttps", bool true)
    ∷ ("httpApi", dict (("enabled", bool false) ∷ []))
    ∷ [])

unfoldable pub updated_auth_defaults : Value
updated_auth_defaults = dict (
    ("enabled", bool false)
    ∷ ("unauthenticatedClientAction", str "RedirectToLoginPage")
    ∷ ("tokenStoreEnabled", bool false)
    ∷ ("allowedExternalRedirectUrls", slice [])
    ∷ ("defaultProvider", str "AzureActiveDirectory")
    ∷ ("httpApi", dict (("enabled", bool false) ∷ []))
    ∷ [])

unfoldable pub backup_defaults : Value
backup_defaults = dict (
    ("enabled", bool false)
    ∷ ("backupSchedule", dict (("frequencyInterval", int 0) ∷ ("frequencyUnit", str "Day") ∷ []))
    ∷ ("retentionPeriodInDays", int 0)
    ∷ ("storageAccountUrl", str "")
    ∷ ("databases", slice [])
    ∷ [])

unfoldable pub updated_backup_defaults : Value
updated_backup_defaults = dict (
    ("enabled", bool false)
    ∷ ("backupSchedule", dict (("frequencyInterval", int 0) ∷ ("frequencyUnit", str "Day") ∷ []))
    ∷ ("retentionPeriodInDays", int 0)
    ∷ ("databases", slice [])
    ∷ [])

unfoldable pub logs_defaults : Value
logs_defaults = dict (
    (
      "applicationLogs",
      dict (
          ("fileSystem", dict (("level", str "Off") ∷ []))
          ∷ ("azureTableStorage", dict (("level", str "Off") ∷ []))
          ∷ ("azureBlobStorage", dict (("level", str "Off") ∷ []))
          ∷ []),
    )
    ∷ (
      "httpLogs",
      dict (
          ("fileSystem", dict (("enabled", bool false) ∷ []))
          ∷ ("azureBlobStorage", dict (("enabled", bool false) ∷ []))
          ∷ []),
    )
    ∷ ("failedRequestsTracingEnabled", bool false)
    ∷ ("detailedErrorMessagesEnabled", bool false)
    ∷ [])

unfoldable pub slot_config_names_defaults : Value
slot_config_names_defaults = dict (
    ("azureStoragePaths", nil)
    ∷ ("connectionStringNames", slice [])
    ∷ ("appSettingNames", slice [])
    ∷ ("handlerMappingNames", slice [])
    ∷ [])

unfoldable pub push_defaults : Value
push_defaults = dict (
    ("isPushEnabled", bool false)
    ∷ ("dynamicTagsJson", str "")
    ∷ ("tagWhitelistJson", str "")
    ∷ ("tagsRequiringAuth", str "")
    ∷ [])

unfoldable pub auth_v2_defaults : Value
auth_v2_defaults = dict (
    (
      "globalValidation",
      dict (
          ("requireAuthentication", bool false)
          ∷ ("unauthenticatedClientAction", str "AllowAnonymous")
          ∷ ("excludedPaths", slice [])
          ∷ []),
    )
    ∷ (
      "httpSettings",
      dict (
          ("requireHttps", bool true)
          ∷ ("routes", dict (("apiPrefix", str "") ∷ []))
          ∷ ("forwardProxy", dict (("convention", str "NoProxy") ∷ []))
          ∷ []),
    )
    ∷ (
      "identityProviders",
      dict (
          ("azureActiveDirectory", dict (("enabled", bool false) ∷ []))
          ∷ ("facebook", dict (("enabled", bool false) ∷ []))
          ∷ ("gitHub", dict (("enabled", bool false) ∷ []))
          ∷ ("google", dict (("enabled", bool false) ∷ []))
          ∷ ("twitter", dict (("enabled", bool false) ∷ []))
          ∷ ("apple", dict (("enabled", bool false) ∷ []))
          ∷ []),
    )
    ∷ (
      "login",
      dict (
          ("routes", dict (("logoutEndpoint", str "") ∷ []))
          ∷ ("tokenStore", dict (("enabled", bool false) ∷ []))
          ∷ ("cookieExpiration", dict (("convention", str "FixedTime") ∷ []))
          ∷ []),
    )
    ∷ ("platform", dict (("enabled", bool false) ∷ ("runtimeVersion", str "") ∷ []))
    ∷ [])

unfoldable pub publishing_credentials : (name : String) → Value
unfolding ◌++◌
publishing_credentials name = dict (
    ("publishingUsername", str ("$" ++ name))
    ∷ ("publishingPassword", str "")
    ∷ ("passwordHash", nil)
    ∷ ("passwordSalt", nil)
    ∷ ("activeDirectoryUserTenantId", nil)
    ∷ ("activeDirectoryUserId", nil)
    ∷ [])
