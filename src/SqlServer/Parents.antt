-- ===== src/SqlServer/Parents.antt =====
-- No database without its server, for the handlers of internal/services/dbpostgres/handler.go and
-- internal/services/dbmysql/handler.go, and what a failure of the real server leaves.
use Prim.Native.Char.{Char}
use miniblue.Prelude.{String, ◌≡◌, true, Option, none, some, ◌∙◌, sym, List, Bool-cases, inl, inr}
use miniblue.Prelude.Text.{NoColon, differ}
use miniblue.Store
use miniblue.Store.{Store}
use miniblue.Store.Laws.{exists-get}
use miniblue.Value.{Value}
use miniblue.Http.{Response}
use miniblue.Arm.{put_resource}
use miniblue.Arm.Family
use miniblue.SqlServer.{
  Sql, valid_name, database_made, remove_server, put_database, remove_database,
}

module _ (parent child : String) (away : differ child parent ≡ true)
    (away' : differ parent child ≡ true) {W : Type 0} (sql : Sql W) where
  abbrev Kept : Store Value → Type 0
  Kept = Family.HasParents parent child away away'

  abbrev server : (a b c : String) → String
  server = Family.parent_key parent child away away'

  abbrev db : (a b c d : String) → String
  db = Family.child_key parent child away away'

  database_made-Kept :
      (s : Store Value) (a b c d : String) (v : Value) (r : W × Option String)
      → NoColon a
      → NoColon b
      → NoColon c
      → Store.exists s (server a b c) ≡ true
      → Kept s
      → Kept (database_made sql s (db a b c d) v r).1.0
  unfolding database_made put_resource
  database_made-Kept s a b c d v (w, none) na nb nc e h =
      Family.set_child-HasParents parent child away away' s a b c d v na nb nc
        (sym (exists-get s (server a b c)) ∙ e) h
  database_made-Kept s a b c d v (w, some error) na nb nc e h = h

  pub put_database-Kept :
      (q : Char) (w : W) (s : Store Value) (a b c d : String) (v : Value) (missing : Response)
      → NoColon a
      → NoColon b
      → NoColon c
      → Kept s
      → Kept (put_database sql q w s (server a b c) (db a b c d) d v missing).1.0
  unfolding put_database
  put_database-Kept q w s a b c d v missing na nb nc h = elim (Bool-cases (valid_name d)) [
    | inl n ↦ elim (Bool-cases (Store.exists s (server a b c))) [
      | inl e ↦ rw (n, e) (database_made-Kept s a b c d v _ na nb nc e h)
      | inr e ↦ rw (n, e) h
    ]
    | inr n ↦ rw n h
  ]

  pub remove_server-Kept :
      (q : Char) (w : W) (s : Store Value) (a b c : String) (names : List Value → List String)
      (missing : Response)
      → NoColon a
      → NoColon b
      → Kept s
      → Kept (remove_server sql q w s (server a b c) (db a b c "") names missing).1.0
  unfolding remove_server
  remove_server-Kept q w s a b c names missing na nb h =
      elim (Bool-cases (Store.delete s (server a b c)).1) [
        | inl e ↦ rw e (Family.delete_family-HasParents parent child away away' s a b c na nb h)
        | inr e ↦
            rw e (Family.delete_absent-HasParents parent child away away' s (server a b c) e h)
      ]

  pub remove_database-Kept :
      (q : Char) (w : W) (s : Store Value) (a b c d : String) (missing : Response)
      → Kept s
      → Kept (remove_database sql q w s (db a b c d) d missing).1.0
  unfolding remove_database
  remove_database-Kept q w s a b c d missing h =
      let removed = Family.delete_child-HasParents parent child away away' s a b c d h in
      elim (Bool-cases (Store.delete s (db a b c d)).1) [
        | inl e ↦ rw e removed
        | inr e ↦ rw e removed
      ]
