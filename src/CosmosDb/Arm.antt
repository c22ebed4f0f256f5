-- ===== src/CosmosDb/Arm.antt =====
-- internal/services/cosmosdb/handler.go: accounts, SQL databases and containers as ARM resources.
use miniblue.Prelude.{String, false, ◌++◌, [], ◌∷◌}
use miniblue.Store.{Store}
use miniblue.Value.{Value, bool, int, str, dict, slice}
use miniblue.Http.{Response, not_found}
use miniblue.Arm.{resource_id, put_resource, get_resource, delete_resource, list_resources}

abbrev account_type : String
account_type = "Microsoft.DocumentDB/databaseAccounts"

unfoldable pub account_key : (sub rg name : String) → String
unfolding ◌++◌
account_key sub rg name = "cosmos:account:" ++ sub ++ ":" ++ rg ++ ":" ++ name

unfoldable pub build_account_response : (sub rg name : String) → Value
unfolding ◌++◌
build_account_response sub rg name = dict (
    ("id", str (resource_id sub rg account_type name))
    ∷ ("name", str name)
    ∷ ("type", str account_type)
    ∷ ("location", str "eastus")
    ∷ ("kind", str "GlobalDocumentDB")
    ∷ (
      "properties",
      dict (
          ("provisioningState", str "Succeeded")
          ∷ ("documentEndpoint", str ("https://" ++ name ++ ".documents.azure.com:443/"))
          ∷ ("databaseAccountOfferType", str "Standard")
          ∷ ("consistencyPolicy", dict (("defaultConsistencyLevel", str "Session") ∷ []))
          ∷ (
            "locations",
            slice (
                dict (
                  ("locationName", str "East US")
                  ∷ ("failoverPriority", int 0)
                  ∷ ("isZoneRedundant", bool false)
                  ∷ [])
                ∷ []),
          )
          ∷ []),
    )
    ∷ [])

unfoldable pub create_or_update_account :
    Store Value → (sub rg name : String) → Store Value × Response
unfolding put_resource
create_or_update_account s sub rg name =
    put_resource s (account_key sub rg name) (build_account_response sub rg name)

unfoldable pub get_account : Store Value → (sub rg name : String) → Response
unfolding get_resource
get_account s sub rg name = get_resource s (account_key sub rg name) (not_found account_type name)

unfoldable pub delete_account : Store Value → (sub rg name : String) → Store Value × Response
unfolding delete_resource
delete_account s sub rg name =
    delete_resource s (account_key sub rg name) (not_found account_type name) 202

unfoldable pub list_accounts : Store Value → (sub rg : String) → Response
unfolding ◌++◌ list_resources
list_accounts s sub rg = list_resources s ("cosmos:account:" ++ sub ++ ":" ++ rg ++ ":")

unfoldable pub sql_db_key : (sub rg acct db : String) → String
unfolding ◌++◌
sql_db_key sub rg acct db = "cosmos:sqldb:" ++ sub ++ ":" ++ rg ++ ":" ++ acct ++ ":" ++ db

unfoldable pub sql_database : (sub rg acct db : String) → Value
unfolding ◌++◌
sql_database sub rg acct db = dict (
    ("id", str (resource_id sub rg account_type acct ++ "/sqlDatabases/" ++ db))
    ∷ ("name", str db)
    ∷ ("type", str "Microsoft.DocumentDB/databaseAccounts/sqlDatabases")
    ∷ ("properties", dict (("resource", dict (("id", str db) ∷ [])) ∷ []))
    ∷ [])

unfoldable pub create_or_update_sql_database :
    Store Value → (sub rg acct db : String) → Store Value × Response
unfolding put_resource
create_or_update_sql_database s sub rg acct db =
    put_resource s (sql_db_key sub rg acct db) (sql_database sub rg acct db)

unfoldable pub get_sql_database : Store Value → (sub rg acct db : String) → Response
unfolding get_resource
get_sql_database s sub rg acct db =
    get_resource s (sql_db_key sub rg acct db)
      (not_found "Microsoft.DocumentDB/databaseAccounts/sqlDatabases" db)

unfoldable pub delete_sql_database :
    Store Value → (sub rg acct db : String) → Store Value × Response
unfolding delete_resource
delete_sql_database s sub rg acct db =
    delete_resource s (sql_db_key sub rg acct db)
      (not_found "Microsoft.DocumentDB/databaseAccounts/sqlDatabases" db) 202

unfoldable pub list_sql_databases : Store Value → (sub rg acct : String) → Response
unfolding ◌++◌ list_resources
list_sql_databases s sub rg acct =
    list_resources s ("cosmos:sqldb:" ++ sub ++ ":" ++ rg ++ ":" ++ acct ++ ":")

unfoldable pub container_key : (sub rg acct db name : String) → String
unfolding ◌++◌
container_key sub rg acct db name =
    "cosmos:container:" ++ sub ++ ":" ++ rg ++ ":" ++ acct ++ ":" ++ db ++ ":" ++ name

unfoldable pub container_value : (sub rg acct db name : String) → Value
unfolding ◌++◌
container_value sub rg acct db name = dict (
    (
      "id",
      str (
          resource_id sub rg account_type acct ++ "/sqlDatabases/" ++ db ++ "/containers/" ++ name),
    )
    ∷ ("name", str name)
    ∷ ("type", str "Microsoft.DocumentDB/databaseAccounts/sqlDatabases/containers")
    ∷ (
      "properties",
      dict (
          (
            "resource",
            dict (
                ("id", str name)
                ∷ (
                  "partitionKey",
                  dict (("paths", slice (str "/id" ∷ [])) ∷ ("kind", str "Hash") ∷ []),
                )
                ∷ []),
          )
          ∷ []),
    )
    ∷ [])

unfoldable pub create_or_update_container :
    Store Value → (sub rg acct db name : String) → Store Value × Response
unfolding put_resource
create_or_update_container s sub rg acct db name =
    put_resource s (container_key sub rg acct db name) (container_value sub rg acct db name)

unfoldable pub get_container : Store Value → (sub rg acct db name : String) → Response
unfolding get_resource
get_container s sub rg acct db name =
    get_resource s (container_key sub rg acct db name)
      (not_found "Microsoft.DocumentDB/databaseAccounts/sqlDatabases/containers" name)

unfoldable pub delete_container :
    Store Value → (sub rg acct db name : String) → Store Value × Response
unfolding delete_resource
delete_container s sub rg acct db name =
    delete_resource s (container_key sub rg acct db name)
      (not_found "Microsoft.DocumentDB/databaseAccounts/sqlDatabases/containers" name) 202

unfoldable pub list_containers : Store Value → (sub rg acct db : String) → Response
unfolding ◌++◌ list_resources
list_containers s sub rg acct db =
    list_resources s ("cosmos:container:" ++ sub ++ ":" ++ rg ++ ":" ++ acct ++ ":" ++ db ++ ":")
