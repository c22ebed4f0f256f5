-- ===== src/Subscriptions.antt =====
-- internal/services/subscriptions/handler.go: fixed answers about subscriptions and providers.
use miniblue.Prelude.{String, ◌++◌, List, [], ◌∷◌}
use miniblue.Value.{Value, str, dict, slice}
use miniblue.Http.{Response, json_response, list_response}

-- a Subscription of the server, with its two ids
unfoldable pub subscription : (id subscription_id : String) → Value
subscription id subscription_id = dict (
    ("id", str id)
    ∷ ("subscriptionId", str subscription_id)
    ∷ ("displayName", str "miniblue")
    ∷ ("state", str "Enabled")
    ∷ ("tenantId", str "00000000-0000-0000-0000-000000000001")
    ∷ ("authorizationSource", str "Legacy")
    ∷ [])

unfoldable pub default_sub : Value
unfolding subscription
default_sub =
    subscription "/subscriptions/00000000-0000-0000-0000-000000000000"
      "00000000-0000-0000-0000-000000000000"

unfoldable pub list_subscriptions : Response
unfolding default_sub
list_subscriptions = list_response "value" (default_sub ∷ [])

unfoldable pub get_subscription : (sub_id : String) → Response
unfolding subscription ◌++◌
get_subscription sub_id = json_response 200 (subscription ("/subscriptions/" ++ sub_id) sub_id)

unfoldable pub list_tenants : Response
list_tenants = list_response "value" (
    dict (
      ("id", str "/tenants/00000000-0000-0000-0000-000000000001")
      ∷ ("tenantId", str "00000000-0000-0000-0000-000000000001")
      ∷ ("displayName", str "miniblue")
      ∷ ("tenantType", str "AAD")
      ∷ [])
    ∷ [])

abbrev pub supported_providers : List String
supported_providers =
    "Microsoft.Resources" ∷ "Microsoft.Storage" ∷ "Microsoft.Network" ∷ "Microsoft.KeyVault"
    ∷ "Microsoft.DocumentDB" ∷ "Microsoft.ServiceBus" ∷ "Microsoft.Web"
    ∷ "Microsoft.ContainerRegistry" ∷ "Microsoft.EventGrid" ∷ "Microsoft.ManagedIdentity"
    ∷ "Microsoft.AppConfiguration" ∷ "Microsoft.Sql" ∷ "Microsoft.DBforMySQL"
    ∷ "Microsoft.DBforPostgreSQL" ∷ "Microsoft.Cache" ∷ "Microsoft.ContainerInstance" ∷ []

unfoldable pub provider_entry : (namespace : String) → Value
unfolding ◌++◌
provider_entry namespace = dict (
    ("id", str ("/subscriptions/00000000-0000-0000-0000-000000000000/providers/" ++ namespace))
    ∷ ("namespace", str namespace)
    ∷ ("registrationState", str "Registered")
    ∷ ("resourceTypes", slice [])
    ∷ [])

-- the loop of ListProviders
entries : List String → List Value
unfolding provider_entry
entries [] = []
entries (namespace ∷ rest) = provider_entry namespace ∷ entries rest

unfoldable pub list_providers : Response
unfolding entries
list_providers = list_response "value" (entries supported_providers)

unfoldable pub get_provider : (namespace : String) → Response
unfolding provider_entry
get_provider namespace = json_response 200 (provider_entry namespace)

unfoldable pub register_provider : (namespace : String) → Response
unfolding provider_entry
register_provider namespace = json_response 200 (provider_entry namespace)
