-- ===== src/StorageAuth/Request.antt =====
-- What internal/storageauth/sharedkey.go reads of an http.Request. net/http keeps header names in
-- their canonical form, and the code asks for them in that form. net/url parses the query, and
-- decodes a part of it: both are fields of the request, or arguments.
use miniblue.Prelude.{String, Option, none, some, List, [], ◌∷◌}
use miniblue.Prelude.Assoc.{Assoc, lookup, insert}

abbrev pub Header : Type 0
Header = Assoc (List String)

pub record Request : Type 0 where
  pub method : String
  pub header : Header
  pub escaped_path : String
  pub raw_query : String
  -- url.ParseQuery(raw_query)
  pub query : Option (Assoc (List String))

-- the functions of package strings and net/url on whole texts
pub record Library : Type 0 where
  pub to_upper : String → String
  pub to_lower : String → String
  pub unescape : String → Option String

first : Option (List String) → String
first none = ""
first (some []) = ""
first (some (v ∷ vs)) = v

-- r.Header.Get(name), r.Header.Set(name, v)
unfoldable pub header_get : Request → String → String
unfolding first
header_get r name = first (lookup name r.header)

unfoldable pub header_set : Request → String → String → Request
header_set r name v = record r { header = insert name (v ∷ []) r.header }
