-- ===== src/Tests/Databases.antt =====
-- A PostgreSQL server with a database, and a real server that refuses.
use miniblue.Prelude.{
  String, ◌≡◌, refl, true, false, none, some, ◌++◌, is_some, has_prefix, List, [], ◌∷◌, arith,
}
use miniblue.Prelude.Text.{NoColon}
use miniblue.Store
use miniblue.Store.{Store}
use miniblue.Value.{Value, no_fields}
use miniblue.SqlServer.{Sql}
use miniblue.SqlServer.Quoting.{read_identifier, quote_ident_lem}
use miniblue.SqlServer.Runs
use miniblue.SqlServer.Runs.{database_has_server}
use miniblue.DbPostgres
use miniblue.DbPostgres.{server_key, db_key}
use miniblue.DbMysql

s1-NoColon : NoColon "s1"
s1-NoColon = (omega arith, (omega arith, tt))

g1-NoColon : NoColon "g1"
g1-NoColon = (omega arith, (omega arith, tt))

pg-NoColon : NoColon "pg"
pg-NoColon = (omega arith, (omega arith, tt))

-- the log of the statements, each of which succeeds
abbrev logging : Sql (List String)
logging = record {
  url = "postgres://localhost";
  parsed = none;
  open_error = none;
  exec = λ w statement. (statement ∷ w, none);
  has_database = λ w name. (false, none);
}

abbrev refusing : Sql (List String)
refusing = record logging { exec = λ w statement. (w, some "refused") }

abbrev with_server : Store Value
with_server = (DbPostgres.create_or_update_server logging Store.new "s1" "g1" "pg").0

abbrev with_database : Store Value
with_database =
    (DbPostgres.create_or_update_database logging [] with_server "s1" "g1" "pg" "db").1.0

abbrev with_both : Store Value
with_both = (DbMysql.create_or_update_server logging with_server "s1" "g1" "pg" no_fields).0

reached : Runs.Reach logging Store.new with_database
reached =
    Runs.next (Runs.next Runs.here (Runs.put_server Store.new "s1" "g1" "pg"))
      (Runs.put_db [] with_server "s1" "g1" "pg" "db" s1-NoColon g1-NoColon pg-NoColon)

database_there : is_some (Store.get with_database (db_key "s1" "g1" "pg" "db")) ≡ true
unfolding DbPostgres.create_or_update_server DbPostgres.create_or_update_database server_key db_key
    Store.get Store.exists Store.set Store.new
database_there = refl

database_has_server_example : is_some (Store.get with_database (server_key "s1" "g1" "pg")) ≡ true
database_has_server_example =
    database_has_server logging with_database "s1" "g1" "pg" "db" reached s1-NoColon g1-NoColon
      pg-NoColon database_there

quote_ident_lem_example :
    (read_identifier "\"" (DbPostgres.quote_ident "a\"b" ++ "; --") ≡ some ("a\"b", "; --"))
    × (read_identifier "`" (DbMysql.quote_ident "a\"b" ++ "; --") ≡ some ("a\"b", "; --"))
unfolding has_prefix
quote_ident_lem_example = quote_ident_lem "a\"b" "; --" refl refl
