-- ===== src/DbPostgres.antt =====
-- internal/services/dbpostgres/handler.go: PostgreSQL flexible servers and their databases. The bodies
-- are ignored.
use miniblue.Prelude.{String, ◌++◌, List, [], ◌∷◌, not, if◌then◌else◌}
use miniblue.Store.{Store}
use miniblue.Value.{Value, FlexibleServer, Database, flexible_server, database}
use miniblue.Http.{Response, bad_request, not_found}
use miniblue.Arm.{resource_id, put_resource, get_resource, list_resources}
use miniblue.SqlServer.{
  Sql, valid_name, quoted, host_port, remove_server, put_database, remove_database,
}

abbrev pub type : String
type = "Microsoft.DBforPostgreSQL/flexibleServers"

abbrev pub database_type : String
database_type = "Microsoft.DBforPostgreSQL/flexibleServers/databases"

unfoldable pub server_key : (sub rg name : String) → String
unfolding ◌++◌
server_key sub rg name = "pgflex:server:" ++ sub ++ ":" ++ rg ++ ":" ++ name

unfoldable pub db_key : (sub rg server db : String) → String
unfolding ◌++◌
db_key sub rg server db = "pgflex:db:" ++ sub ++ ":" ++ rg ++ ":" ++ server ++ ":" ++ db

unfoldable pub quote_ident : String → String
unfolding quoted
quote_ident s = quoted "\"" s

unfoldable pub build_database : (sub rg server name : String) → Database
unfolding ◌++◌
build_database sub rg server name = record {
  id = resource_id sub rg type (server ++ "/databases/" ++ name);
  name = name;
  type = database_type;
  charset = "UTF8";
  collation = "en_US.utf8";
}

-- `db, ok := item.(Database)`, and its name
unfoldable pub database_names : List Value → List String
database_names [] = []
database_names (database d ∷ vs) = d.name ∷ database_names vs
database_names (v ∷ vs) = database_names vs

unfoldable pub get_server : Store Value → (sub rg name : String) → Response
unfolding get_resource
get_server s sub rg name = get_resource s (server_key sub rg name) (not_found type name)

unfoldable pub list_servers : Store Value → (sub rg : String) → Response
unfolding ◌++◌ list_resources
list_servers s sub rg = list_resources s ("pgflex:server:" ++ sub ++ ":" ++ rg ++ ":")

unfoldable pub get_database : Store Value → (sub rg server db : String) → Response
unfolding get_resource
get_database s sub rg server db =
    get_resource s (db_key sub rg server db) (not_found database_type db)

unfoldable pub list_databases : Store Value → (sub rg server : String) → Response
unfolding list_resources
list_databases s sub rg server = list_resources s (db_key sub rg server "")

module _ {W : Type 0} (sql : Sql W) where
  unfoldable pub build_server : (sub rg name : String) → FlexibleServer
  unfolding host_port
  build_server sub rg name = record {
    id = resource_id sub rg type name;
    name = name;
    type = type;
    location = "eastus";
    fqdn = (host_port sql "5432").0;
    state = "Ready";
    version = "16";
    administrator_login = "miniblue";
    storage_size_gb = 32;
    backup_retention_days = 7;
    public_network_access = "Enabled";
    high_availability_mode = "Disabled";
    sku_name = "Standard_B1ms";
    sku_tier = "Burstable";
  }

  unfoldable pub create_or_update_server :
      Store Value → (sub rg name : String) → Store Value × Response
  unfolding valid_name put_resource
  create_or_update_server s sub rg name =
      if not (valid_name name)
      then (s, bad_request "Invalid server name.")
      else put_resource s (server_key sub rg name) (flexible_server (build_server sub rg name))

  unfoldable pub delete_server :
      W → Store Value → (sub rg name : String) → W × (Store Value × Response)
  unfolding remove_server
  delete_server w s sub rg name =
      remove_server sql "\"" w s (server_key sub rg name) (db_key sub rg name "") database_names
        (not_found type name)

  unfoldable pub create_or_update_database :
      W → Store Value → (sub rg server db : String) → W × (Store Value × Response)
  unfolding put_database
  create_or_update_database w s sub rg server db =
      put_database sql "\"" w s (server_key sub rg server) (db_key sub rg server db) db
        (database (build_database sub rg server db)) (not_found type server)

  unfoldable pub delete_database :
      W → Store Value → (sub rg server db : String) → W × (Store Value × Response)
  unfolding remove_database
  delete_database w s sub rg server db =
      remove_database sql "\"" w s (db_key sub rg server db) db (not_found database_type db)
