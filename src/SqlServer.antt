-- ===== src/SqlServer.antt =====
-- What internal/services/dbpostgres/handler.go and internal/services/dbmysql/handler.go share: databases
-- on a real server, beside their description in the store. The server is an argument, as a state and
-- what it answers; the package `sql` and url.Parse too. Logging is left out.
pub mod Quoting
pub mod Parents
pub mod Runs
use Prim.Native.Char.{Char, code}
use Prim.Native.String.{[] as nil, ◌∷◌ as cons}
use miniblue.Prelude.{
  String, Bool, true, false, Option, none, some, ◌++◌, List, [], ◌∷◌, ◌==◌, not, ◌&&◌, ◌||◌, eqb,
  leb, is_some, if◌then◌else◌,
}
use miniblue.Store
use miniblue.Store.{Store}
use miniblue.Value.{Value}
use miniblue.Http.{Response, status_only, write_error, bad_request, not_found}
use miniblue.Arm.{put_resource}

-- `url`: the variable with the URL of the server; `parsed`: the host and the port that url.Parse finds;
-- `open_error`: the error of sql.Open; `exec`: db.Exec, with its error; `has_database`: the row that
-- the query for a name scans, and its error
pub record Sql (W : Type 0) : Type 0 where
  pub url : String
  pub parsed : Option (String × String)
  pub open_error : Option String
  pub exec : W → String → W × Option String
  pub has_database : W → String → Bool × Option String

-- one character of `[a-zA-Z0-9_-]`
unfoldable pub is_name_code : Char → Bool
is_name_code c =
    leb b'a' (code c) && leb (code c) b'z'
    || leb b'A' (code c) && leb (code c) b'Z'
    || leb b'0' (code c) && leb (code c) b'9'
    || eqb (code c) b'_'
    || eqb (code c) b'-'

unfoldable pub is_name_text : String → Bool
unfolding is_name_code
is_name_text nil = true
is_name_text (cons c s) = is_name_code c && is_name_text s

unfoldable pub valid_name : String → Bool
unfolding is_name_text
valid_name s = not (s == "") && is_name_text s

-- strings.ReplaceAll(s, q, q + q), for a text q of one character
unfoldable pub doubled : (q : Char) → String → String
doubled q nil = nil
doubled q (cons c s) =
    let rest = doubled q s in if eqb (code c) (code q) then cons c (cons c rest) else cons c rest

unfoldable pub quoted : (q : Char) → String → String
unfolding doubled ◌++◌
quoted q s = cons q (doubled q s ++ cons q nil)

or_else : (d s : String) → String
or_else d s = if s == "" then d else s

host_port_parsed : (port : String) → Option (String × String) → String × String
unfolding or_else
host_port_parsed port none = ("localhost", port)
host_port_parsed port (some (h, p)) = (or_else "localhost" h, or_else port p)

module _ {W : Type 0} (sql : Sql W) where
  unfoldable pub host_port : (port : String) → String × String
  unfolding host_port_parsed
  host_port port = if sql.url == "" then ("localhost", port) else host_port_parsed port sql.parsed

  connected : W → (statement : String) → Option String → W × Option String
  unfolding ◌++◌
  connected w statement (some e) = (w, some ("connect: " ++ e))
  connected w statement none = sql.exec w statement

  unfoldable pub exec_ddl : W → (statement : String) → W × Option String
  unfolding connected
  exec_ddl w statement = connected w statement sql.open_error

  found_on : W → (name : String) → Option String → Bool × Option String
  found_on w name (some e) = (false, some e)
  found_on w name none = sql.has_database w name

  unfoldable pub db_exists : W → (name : String) → Bool × Option String
  unfolding found_on
  db_exists w name = found_on w name sql.open_error

  -- An error of DROP is only logged.
  unfoldable pub drop_database : (q : Char) → W → (name : String) → W
  unfolding exec_ddl quoted ◌++◌
  drop_database q w name = (exec_ddl w ("DROP DATABASE IF EXISTS " ++ quoted q name)).0

  unfoldable pub drop_databases : (q : Char) → W → List String → W
  unfolding drop_database
  drop_databases q w [] = w
  drop_databases q w (name ∷ names) = drop_databases q (drop_database q w name) names

  -- An error of the query for the name is only logged.
  unfoldable pub ensure_database :
      (q : Char) → W → (name : String) → (exists : Bool) → W × Option String
  unfolding db_exists exec_ddl quoted ◌++◌
  ensure_database q w name exists =
      if not (sql.url == "") && not exists && not (db_exists w name).0
      then exec_ddl w ("CREATE DATABASE " ++ quoted q name)
      else (w, none)

  -- the DELETE of a server: `names` are those of the databases that the list shows
  unfoldable pub remove_server :
      (q : Char)
      → W
      → Store Value
      → (server_key db_prefix : String) → (List Value → List String)
      → (missing : Response) → W × (Store Value × Response)
  unfolding drop_databases
  remove_server q w s server_key db_prefix names missing =
      let (s', found) = Store.delete s server_key in
      let dropped =
        if sql.url == ""
        then w
        else drop_databases q w (names (Store.list_by_prefix s' db_prefix)) in
      if found
      then (dropped, ((Store.delete_by_prefix s' db_prefix).0, status_only 202))
      else (w, (s', missing))

  unfoldable pub database_made :
      Store Value → (db_key : String) → Value → W × Option String → W × (Store Value × Response)
  unfolding put_resource write_error ◌++◌
  database_made s db_key v (w, none) = (w, put_resource s db_key v)
  database_made s db_key v (w, some e) =
      (w, (s, write_error 500 "InternalError" ("Failed to create database: " ++ e)))

  -- the PUT of a database
  unfoldable pub put_database :
      (q : Char)
      → W
      → Store Value
      → (server_key db_key name : String) → Value
      → (missing : Response) → W × (Store Value × Response)
  unfolding ensure_database database_made valid_name
  put_database q w s server_key db_key name v missing =
      if not (valid_name name)
      then (w, (s, bad_request "Invalid database name."))
      else if not (Store.exists s server_key)
      then (w, (s, missing))
      else database_made s db_key v (ensure_database q w name (is_some (Store.get s db_key)))

  -- the DELETE of a database
  unfoldable pub remove_database :
      (q : Char)
      → W
      → Store Value
      → (db_key name : String) → (missing : Response) → W × (Store Value × Response)
  unfolding drop_database
  remove_database q w s db_key name missing =
      let (s', found) = Store.delete s db_key in
      let dropped = if sql.url == "" then w else drop_database q w name in
      if found then (dropped, (s', status_only 202)) else (w, (s', missing))
