-- ===== src/Metadata.antt =====
-- internal/services/metadata/handler.go: the endpoints that clients of Azure ask for.
use miniblue.Prelude.{String, ◌++◌, [], ◌∷◌, ◌==◌, if◌then◌else◌}
use miniblue.Value.{Value, str, dict, slice}
use miniblue.Http.{Response, json}

with_type : Value → Response
with_type v = record {
  status = 200;
  headers = ("Content-Type", "application/json") ∷ [];
  body = json v;
}

endpoint_map : (base port : String) → Value
unfolding ◌++◌
endpoint_map base port = dict (
    ("name", str "AzureCloud")
    ∷ ("portal", str base)
    ∷ (
      "authentication",
      dict (
          ("loginEndpoint", str base)
          ∷ ("audiences", slice (str base ∷ []))
          ∷ ("tenant", str "common")
          ∷ ("identityProvider", str "AAD")
          ∷ []),
    )
    ∷ ("media", str base)
    ∷ ("graphAudience", str base)
    ∷ ("graph", str base)
    ∷ (
      "suffixes",
      dict (
          ("azureDataLakeStoreFileSystem", str "localhost")
          ∷ ("acrLoginServer", str "localhost")
          ∷ ("sqlServerHostname", str "localhost")
          ∷ ("azureDataLakeAnalyticsCatalogAndJob", str "localhost")
          ∷ ("keyVaultDns", str "localhost")
          ∷ ("storage", str ("localhost:" ++ port))
          ∷ ("azureFrontDoorEndpointSuffix", str "localhost")
          ∷ ("storageSyncEndpointSuffix", str "localhost")
          ∷ ("mhsmDns", str "localhost")
          ∷ ("mysqlServerEndpoint", str "localhost")
          ∷ ("postgresqlServerEndpoint", str "localhost")
          ∷ ("mariadbServerEndpoint", str "localhost")
          ∷ ("synapseAnalytics", str "localhost")
          ∷ ("attestationEndpoint", str "localhost")
          ∷ []),
    )
    ∷ ("batch", str base)
    ∷ ("resourceManager", str base)
    ∷ ("vmImageAliasDoc", str "")
    ∷ ("activeDirectoryDataLake", str base)
    ∷ ("sqlManagement", str base)
    ∷ ("microsoftGraphResourceId", str base)
    ∷ ("appInsightsResourceId", str base)
    ∷ ("appInsightsTelemetryChannelResourceId", str base)
    ∷ ("attestationResourceId", str base)
    ∷ ("synapseAnalyticsResourceId", str base)
    ∷ ("logAnalyticsResourceId", str base)
    ∷ ("ossrDbmsResourceId", str base)
    ∷ ("gallery", str base)
    ∷ [])

-- `env`: the variable PORT
unfoldable pub endpoints : (env : String) → Response
unfolding with_type endpoint_map ◌++◌
endpoints env =
    let port = if env == "" then "4566" else env in
    with_type (endpoint_map ("http://localhost:" ++ port) port)

unfoldable pub instance_metadata : Response
unfolding with_type
instance_metadata = with_type (
    dict (
      (
        "compute",
        dict (
            ("location", str "eastus")
            ∷ ("name", str "miniblue-vm")
            ∷ ("resourceGroupName", str "miniblue-rg")
            ∷ ("subscriptionId", str "00000000-0000-0000-0000-000000000000")
            ∷ ("vmId", str "miniblue-vm-id")
            ∷ ("azEnvironment", str "miniblue")
            ∷ []),
      )
      ∷ []))
