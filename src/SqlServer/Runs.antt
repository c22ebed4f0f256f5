-- ===== src/SqlServer/Runs.antt =====
-- Runs of the handlers of internal/services/dbpostgres/handler.go: no database without its server, and
-- what a failure of the real server leaves.
use Prim.Native.Char.{Char}
use miniblue.Prelude.{
  String, ◌≡◌, refl, true, Option, eqb, is_some, if◌then◌else◌, Bool-cases, inl, inr,
}
use miniblue.Prelude.Text.{NoColon}
use miniblue.Store
use miniblue.Store.{Store}
use miniblue.Value.{Value, flexible_server, database}
use miniblue.Http.{Response, not_found}
use miniblue.Arm.{put_resource}
use miniblue.Arm.Family
use miniblue.SqlServer.{Sql, valid_name}
use miniblue.SqlServer.Parents.{put_database-Kept, remove_server-Kept, remove_database-Kept}
use miniblue.DbPostgres
use miniblue.DbPostgres.{
  type, database_type, database_names, build_database, server_key, db_key, build_server,
  create_or_update_server, delete_server, create_or_update_database, delete_database,
}
use miniblue.DbMysql

abbrev HasServer : Store Value → Type 0
HasServer = Family.HasParents "pgflex:server:" "pgflex:db:" refl refl

module _ {W : Type 0} (sql : Sql W) where
  -- One request that changes the store; names in URLs have no colon.
  pub data Step : Store Value → Store Value → Type 0 where
    put_server :
        (s : Store Value) (sub rg name : String)
        → Step s (create_or_update_server sql s sub rg name).0
    remove_server :
        (w : W) (s : Store Value) (sub rg name : String)
        → NoColon sub
        → NoColon rg
        → Step s (delete_server sql w s sub rg name).1.0
    put_db :
        (w : W) (s : Store Value) (sub rg server db : String)
        → NoColon sub
        → NoColon rg
        → NoColon server
        → Step s (create_or_update_database sql w s sub rg server db).1.0
    remove_db :
        (w : W) (s : Store Value) (sub rg server db : String)
        → Step s (delete_database sql w s sub rg server db).1.0

  pub data Reach (s : Store Value) : Store Value → Type 0 where
    here : Reach s s
    next : {t u : Store Value} → Reach s t → Step t u → Reach s u

  put_server-HasServer :
      (s : Store Value) (sub rg name : String)
      → HasServer s
      → HasServer (create_or_update_server sql s sub rg name).0
  unfolding create_or_update_server put_resource server_key
  put_server-HasServer s sub rg name h = elim (Bool-cases (valid_name name)) [
    | inl e ↦ rw e (
        Family.set_parent-HasParents "pgflex:server:" "pgflex:db:" refl refl s sub rg name
          (flexible_server (build_server sql sub rg name)) h)
    | inr e ↦ rw e h
  ]

  Step-HasServer : {s t : Store Value} → Step s t → HasServer s → HasServer t
  unfolding delete_server create_or_update_database delete_database server_key db_key
  Step-HasServer (put_server s sub rg name) h = put_server-HasServer s sub rg name h
  Step-HasServer (remove_server w s sub rg name ns nr) h =
      remove_server-Kept "pgflex:server:" "pgflex:db:" refl refl sql "\"" w s sub rg name
        database_names (not_found type name) ns nr h
  Step-HasServer (put_db w s sub rg server db ns nr nv) h =
      put_database-Kept "pgflex:server:" "pgflex:db:" refl refl sql "\"" w s sub rg server db
        (database (build_database sub rg server db)) (not_found type server) ns nr nv h
  Step-HasServer (remove_db w s sub rg server db) h =
      remove_database-Kept "pgflex:server:" "pgflex:db:" refl refl sql "\"" w s sub rg server db
        (not_found database_type db) h

  Reach-HasServer : {s t : Store Value} → Reach s t → HasServer s → HasServer t
  Reach-HasServer here h = h
  Reach-HasServer (next r st) h = Step-HasServer st (Reach-HasServer r h)

  new-HasServer : HasServer Store.new
  unfolding server_key db_key
  new-HasServer = Family.new-HasParents "pgflex:server:" "pgflex:db:" refl refl

-- After any requests to the handlers of PostgreSQL servers, from an empty store on and whatever the real
-- server answers, a database that is there has its server there, if the names in the URLs have no
-- colon.
pub database_has_server :
    {W : Type 0} (sql : Sql W) (s : Store Value) (sub rg server db : String)
    → Reach sql Store.new s
    → NoColon sub
    → NoColon rg
    → NoColon server
    → is_some (Store.get s (db_key sub rg server db)) ≡ true
    → is_some (Store.get s (server_key sub rg server)) ≡ true
unfolding server_key db_key
database_has_server sql s sub rg server db r =
    Reach-HasServer sql r (new-HasServer sql) sub rg server db

-- What a store and an answer are after a PUT whose CREATE DATABASE answered `error`.
abbrev pub Follows :
    (s : Store Value) (k : String) (v : Value) (error : Option String)
    → Store Value × Response
    → Type 0
Follows s k v error t =
    (t.0 ≡ (if is_some error then s else Store.set s k v)) × (eqb t.1.status 500 ≡ is_some error)
