-- ===== src/Http/Recover.antt =====
-- safeRecover of internal/server/server.go: a handler that panics, `none`, is answered by a 500.
use miniblue.Prelude.{Option, none, some, [], ◌∷◌}
use miniblue.Value.{dict, str}
use miniblue.Http.{Response, json}

unfoldable pub safe_recover : Option Response → Response
safe_recover (some r) = r
safe_recover none = record {
  status = 500;
  headers = ("Content-Type", "application/json") ∷ [];
  body = json (
      dict (
        (
          "error",
          dict (
              ("code", str "InternalServerError")
              ∷ ("message", str "An unexpected error occurred. The server has recovered.")
              ∷ []),
        )
        ∷ []));
}
