-- ===== src/SqlDb.antt =====
-- internal/services/sqldb/handler.go: SQL servers and their databases.
use miniblue.Prelude.{String, ◌++◌, [], ◌∷◌, if◌then◌else◌}
use miniblue.Store
use miniblue.Store.{Store}
use miniblue.Value.{Value, Fields, int, str, dict, lookup_field}
use miniblue.Http.{Response, status_only, not_found}
use miniblue.Arm.{
  string_or, location_of, properties_of, resource_id, put_resource, get_resource, delete_resource,
  list_resources,
}

abbrev server_type : String
server_type = "Microsoft.Sql/servers"

abbrev database_type : String
database_type = "Microsoft.Sql/servers/databases"

unfoldable pub server_key : (sub rg name : String) → String
unfolding ◌++◌
server_key sub rg name = "sqldb:server:" ++ sub ++ ":" ++ rg ++ ":" ++ name

unfoldable pub db_key : (sub rg server db : String) → String
unfolding ◌++◌
db_key sub rg server db = "sqldb:db:" ++ sub ++ ":" ++ rg ++ ":" ++ server ++ ":" ++ db

unfoldable pub build_server_response : (sub rg name : String) → Fields → Value
unfolding string_or location_of properties_of lookup_field
build_server_response sub rg name input = dict (
    ("id", str (resource_id sub rg server_type name))
    ∷ ("name", str name)
    ∷ ("type", str server_type)
    ∷ ("location", str (location_of input))
    ∷ (
      "properties",
      dict (
          ("fullyQualifiedDomainName", str "localhost")
          ∷ ("state", str "Ready")
          ∷ ("version", str "12.0")
          ∷ (
            "administratorLogin",
            str (string_or "miniblue" (lookup_field "administratorLogin" (properties_of input))),
          )
          ∷ ("provisioningState", str "Succeeded")
          ∷ []),
    )
    ∷ [])

unfoldable pub build_database_response : (sub rg server db : String) → Fields → Value
unfolding location_of ◌++◌
build_database_response sub rg server db input = dict (
    ("id", str (resource_id sub rg server_type server ++ "/databases/" ++ db))
    ∷ ("name", str db)
    ∷ ("type", str database_type)
    ∷ ("location", str (location_of input))
    ∷ (
      "properties",
      dict (
          ("status", str "Online")
          ∷ ("collation", str "SQL_Latin1_General_CP1_CI_AS")
          ∷ ("maxSizeBytes", int 2147483648)
          ∷ ("currentServiceObjectiveName", str "Basic")
          ∷ ("provisioningState", str "Succeeded")
          ∷ []),
    )
    ∷ ("sku", dict (("name", str "Basic") ∷ ("tier", str "Basic") ∷ ("capacity", int 5) ∷ []))
    ∷ [])

unfoldable pub create_or_update_server :
    Store Value → (sub rg name : String) → Fields → Store Value × Response
unfolding put_resource
create_or_update_server s sub rg name input =
    put_resource s (server_key sub rg name) (build_server_response sub rg name input)

unfoldable pub get_server : Store Value → (sub rg name : String) → Response
unfolding get_resource
get_server s sub rg name = get_resource s (server_key sub rg name) (not_found server_type name)

unfoldable pub delete_server : Store Value → (sub rg name : String) → Store Value × Response
delete_server s sub rg name =
    let (s', found) = Store.delete s (server_key sub rg name) in
    if found
    then ((Store.delete_by_prefix s' (db_key sub rg name "")).0, status_only 202)
    else (s', not_found server_type name)

unfoldable pub list_servers : Store Value → (sub rg : String) → Response
unfolding ◌++◌ list_resources
list_servers s sub rg = list_resources s ("sqldb:server:" ++ sub ++ ":" ++ rg ++ ":")

unfoldable pub create_or_update_database :
    Store Value → (sub rg server db : String) → Fields → Store Value × Response
unfolding put_resource
create_or_update_database s sub rg server db input =
    if Store.exists s (server_key sub rg server)
    then put_resource s (db_key sub rg server db) (build_database_response sub rg server db input)
    else (s, not_found server_type server)

unfoldable pub get_database : Store Value → (sub rg server db : String) → Response
unfolding get_resource
get_database s sub rg server db =
    get_resource s (db_key sub rg server db) (not_found database_type db)

unfoldable pub delete_database : Store Value → (sub rg server db : String) → Store Value × Response
unfolding delete_resource
delete_database s sub rg server db =
    delete_resource s (db_key sub rg server db) (not_found database_type db) 202

unfoldable pub list_databases : Store Value → (sub rg server : String) → Response
unfolding list_resources
list_databases s sub rg server = list_resources s (db_key sub rg server "")
