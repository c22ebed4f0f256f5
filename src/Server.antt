-- ===== src/Server.antt =====
-- internal/server/server.go: which services a server has, by the variable SERVICES, and the handlers
-- of the server itself. The routes that each service registers are its own.
pub mod Filter
use miniblue.Prelude.{
  String, Bool, true, false, Option, none, some, List, [], ◌∷◌, ◌==◌, ◌||◌, is_some, not,
  if◌then◌else◌,
}
use mathlib.Core.List
use miniblue.Prelude.Lists.{contains, length}
use miniblue.Prelude.Split.{split}
use miniblue.StorageAuth.Text.{trim_space}
use miniblue.Store
use miniblue.Store.{Store}
use miniblue.Value.{Value, int, str, dict, slice}
use miniblue.Http.{Response, json_response}

-- the set of names, a map[string]bool, as the list of its keys; `none` is the nil map
abbrev pub Allowed : Type 0
Allowed = Option (List String)

unfoldable pub service_enabled : (name : String) → Allowed → Bool
service_enabled name none = true
service_enabled name (some allowed) = contains name allowed

-- the loop of parseServicesFilter
names_of : List String → List String
unfolding trim_space
names_of [] = []
names_of (p ∷ ps) =
    let rest = names_of ps in let name = trim_space p in if name == "" then rest else name ∷ rest

-- `env`: the variable SERVICES
unfoldable pub parse_services_filter : (env : String) → Allowed
unfolding names_of split
parse_services_filter env = if env == "" then none else some (names_of (split b',' env))

-- the names of the table of setupRoutes, in its order
abbrev pub filterable : List String
filterable =
    "resourcegroups" ∷ "blob" ∷ "table" ∷ "queue" ∷ "keyvault" ∷ "cosmosdb" ∷ "servicebus" ∷ "sites"
    ∷ "apps" ∷ "network" ∷ "dns" ∷ "aci" ∷ "acr" ∷ "aks" ∷ "eventgrid" ∷ "appconfig" ∷ "identity"
    ∷ "dbpostgres" ∷ "redis" ∷ "sqldb" ∷ "dbmysql" ∷ "publicip" ∷ "nsg" ∷ "loadbalancer" ∷ "appgw"
    ∷ "deployments" ∷ "vm" ∷ []

select_services : Allowed → List String → List String
unfolding service_enabled
select_services allowed [] = []
select_services allowed (name ∷ names) =
    let rest = select_services allowed names in
    if service_enabled name allowed then name ∷ rest else rest

-- what is registered, and the list `services` of the server
pub record Routes : Type 0 where
  pub registered : List String
  pub services : List String

unfoldable pub chosen_services : Allowed → List String
unfolding select_services service_enabled
chosen_services allowed = select_services allowed filterable

unfoldable pub setup_routes : (env : String) → Routes
setup_routes env =
    let allowed = parse_services_filter env in
    let chosen = chosen_services allowed in
    let accounts = service_enabled "blob" allowed || service_enabled "storageaccounts" allowed in
    let listed = not (is_some allowed) || service_enabled "storageaccounts" allowed in
    let always = "metadata" ∷ "auth" ∷ "subscriptions" ∷ [] in
    record {
      registered =
          List.◌++◌ always (List.◌++◌ chosen (if accounts then "storageaccounts" ∷ [] else []));
      services =
          List.◌++◌ ("subscriptions" ∷ "tenants" ∷ chosen)
            (if accounts then (if listed then "storageaccounts" ∷ [] else []) else []);
    }

unfoldable pub reset_handler : Store Value → Store Value × Response
reset_handler s = (
  Store.reset s,
  json_response 200 (dict (("status", str "reset") ∷ ("message", str "All state cleared") ∷ [])),
)

texts : List String → List Value
texts [] = []
texts (t ∷ ts) = str t ∷ texts ts

unfoldable pub health_handler : (version : String) → Routes → Response
unfolding texts
health_handler version r = json_response 200 (
    dict (
      ("status", str "running")
      ∷ ("services", slice (texts r.services))
      ∷ ("service_count", int (length r.services))
      ∷ ("version", str version)
      ∷ []))

unfoldable pub store_backend_name : (persistence database_url : String) → String
store_backend_name persistence database_url =
    if persistence == "1" then "file" else if database_url == "" then "memory" else "postgres"
