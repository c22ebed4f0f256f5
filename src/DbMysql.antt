-- ===== src/DbMysql.antt =====
-- internal/services/dbmysql/handler.go: MySQL flexible servers and their databases
use miniblue.Prelude.{String, Option, some, ◌++◌, List, [], ◌∷◌, ◌==◌, not, if◌then◌else◌}
use miniblue.Store.{Store}
use miniblue.Value.{Value, Fields, int, str, obj, dict, lookup_field}
use miniblue.Http.{Response, bad_request, not_found}
use miniblue.Arm.{
  string_or, properties_of, location_of, resource_id, put_resource, get_resource, list_resources,
}
use miniblue.SqlServer.{
  Sql, valid_name, quoted, host_port, remove_server, put_database, remove_database,
}

abbrev pub type : String
type = "Microsoft.DBforMySQL/flexibleServers"

abbrev pub database_type : String
database_type = "Microsoft.DBforMySQL/flexibleServers/databases"

unfoldable pub server_key : (sub rg name : String) → String
unfolding ◌++◌
server_key sub rg name = "dbmysql:server:" ++ sub ++ ":" ++ rg ++ ":" ++ name

unfoldable pub db_key : (sub rg server db : String) → String
unfolding ◌++◌
db_key sub rg server db = "dbmysql:db:" ++ sub ++ ":" ++ rg ++ ":" ++ server ++ ":" ++ db

unfoldable pub quote_ident : String → String
unfolding quoted
quote_ident s = quoted "`" s

unfoldable pub build_database_response : (sub rg server db : String) → Fields → Value
unfolding ◌++◌ string_or lookup_field
build_database_response sub rg server db input =
    let props = properties_of input in
    dict (
      ("id", str (resource_id sub rg type (server ++ "/databases/" ++ db)))
      ∷ ("name", str db)
      ∷ ("type", str database_type)
      ∷ (
        "properties",
        dict (
            ("charset", str (string_or "utf8mb4" (lookup_field "charset" props)))
            ∷ ("collation", str (string_or "utf8mb4_0900_ai_ci" (lookup_field "collation" props)))
            ∷ ("provisioningState", str "Succeeded")
            ∷ []),
      )
      ∷ [])

name_added : Option Value → List String → List String
name_added (some (str n)) ns = n ∷ ns
name_added _ ns = ns

-- `db, ok := item.(map[string]interface{})`, and its name if it is a text
unfoldable pub database_names : List Value → List String
unfolding name_added lookup_field
database_names [] = []
database_names (obj m ∷ vs) = name_added (lookup_field "name" m) (database_names vs)
database_names (v ∷ vs) = database_names vs

unfoldable pub get_server : Store Value → (sub rg name : String) → Response
unfolding get_resource
get_server s sub rg name = get_resource s (server_key sub rg name) (not_found type name)

unfoldable pub list_servers : Store Value → (sub rg : String) → Response
unfolding ◌++◌ list_resources
list_servers s sub rg = list_resources s ("dbmysql:server:" ++ sub ++ ":" ++ rg ++ ":")

unfoldable pub get_database : Store Value → (sub rg server db : String) → Response
unfolding get_resource
get_database s sub rg server db =
    get_resource s (db_key sub rg server db) (not_found database_type db)

unfoldable pub list_databases : Store Value → (sub rg server : String) → Response
unfolding list_resources
list_databases s sub rg server = list_resources s (db_key sub rg server "")

module _ {W : Type 0} (sql : Sql W) where
  unfoldable pub server_fqdn : String × String → String
  unfolding ◌++◌
  server_fqdn (host, port) = if port == "3306" then host else host ++ ":" ++ port

  unfoldable pub build_server_response : (sub rg name : String) → Fields → Value
  unfolding server_fqdn host_port string_or lookup_field
  build_server_response sub rg name input = dict (
      ("id", str (resource_id sub rg type name))
      ∷ ("name", str name)
      ∷ ("type", str type)
      ∷ ("location", str (location_of input))
      ∷ (
        "properties",
        dict (
            ("fullyQualifiedDomainName", str (server_fqdn (host_port sql "3306")))
            ∷ ("state", str "Ready")
            ∷ ("version", str "8.0")
            ∷ (
              "administratorLogin",
              str (string_or "miniblue" (lookup_field "administratorLogin" (properties_of input))),
            )
            ∷ ("storage", dict (("storageSizeGB", int 20) ∷ []))
            ∷ ("provisioningState", str "Succeeded")
            ∷ []),
      )
      ∷ ("sku", dict (("name", str "Standard_B1ms") ∷ ("tier", str "Burstable") ∷ []))
      ∷ [])

  unfoldable pub create_or_update_server :
      Store Value → (sub rg name : String) → Fields → Store Value × Response
  unfolding valid_name put_resource
  create_or_update_server s sub rg name input =
      if not (valid_name name)
      then (s, bad_request "Invalid server name.")
      else put_resource s (server_key sub rg name) (build_server_response sub rg name input)

  unfoldable pub delete_server :
      W → Store Value → (sub rg name : String) → W × (Store Value × Response)
  unfolding remove_server
  delete_server w s sub rg name =
      remove_server sql "`" w s (server_key sub rg name) (db_key sub rg name "") database_names
        (not_found type name)

  unfoldable pub create_or_update_database :
      W → Store Value → (sub rg server db : String) → Fields → W × (Store Value × Response)
  unfolding put_database
  create_or_update_database w s sub rg server db input =
      put_database sql "`" w s (server_key sub rg server) (db_key sub rg server db) db
        (build_database_response sub rg server db input) (not_found type server)

  unfoldable pub delete_database :
      W → Store Value → (sub rg server db : String) → W × (Store Value × Response)
  unfolding remove_database
  delete_database w s sub rg server db =
      remove_database sql "`" w s (db_key sub rg server db) db (not_found database_type db)
