-- ===== src/Sites/Config/Hidden.antt =====
-- The connection strings of internal/services/sites/config/handler.go: what is stored has no name, and
-- only what has a name is shown.
use mathlib.Core.Bool.{false≢true}
use miniblue.Prelude.{
  String, Bool, true, ◌≡◌, refl, ◌++◌, List, [], ◌∷◌, ◌==◌, is_some, ◌∙◌, Bool-cases, inl, inr,
}
use miniblue.Prelude.Text.{append_assoc, differ}
use miniblue.Prelude.Lists.{every}
use miniblue.Store
use miniblue.Store.{Store}
use miniblue.Store.Laws.{every-set}
use miniblue.Value.{Value, Fields, obj, no_fields, field, lookup_field, set_field, string_or_empty}
use miniblue.Http.{json_response}
use miniblue.Arm.{object_or, properties_of}
use miniblue.Sites.Config.{site_key}
use miniblue.Sites.Config.Laws.{get-set_kind}
use miniblue.Sites.Config.Named.{
  keep_named, all_named, store_entries, connection_string, connection_strings_key,
  connection_strings_response, get_connection_strings, update_connection_strings,
}

-- a value that no loop over named values keeps
pub is_nameless : (key : String) → Value → Bool
is_nameless key (obj m) = string_or_empty (lookup_field key m) == ""
is_nameless key v = true

keep_named-is_nameless :
    (key : String) (kept : Fields) (v : Value)
    → is_nameless key v ≡ true
    → keep_named key kept v ≡ kept
unfolding keep_named is_nameless
keep_named-is_nameless key kept (obj m) h = rw h refl
keep_named-is_nameless key kept _ h = refl

all_named-is_nameless :
    (key : String) (kept : Fields) (vs : List Value)
    → every (is_nameless key) vs ≡ true
    → all_named key kept vs ≡ kept
unfolding all_named
all_named-is_nameless key kept [] h = refl
all_named-is_nameless key kept (v ∷ vs) h = elim (Bool-cases (is_nameless key v)) [
  | inl e ↦ rw (keep_named-is_nameless key kept v e) (all_named-is_nameless key kept vs (rw e at h))
  | inr e ↦ absurd (false≢true (rw e at h))
]

-- Entries without a name, under keys of a prefix.
module _ (entry : String → Fields → Fields) (key : String)
    (bare : (n : String) (config : Fields) → is_nameless key (obj (entry n config)) ≡ true) where
  store_entries-is_nameless :
      (prefix p : String) (s : Store Value) (kept given : Fields)
      → every (is_nameless key) (Store.list_by_prefix s p) ≡ true
      → every (is_nameless key) (Store.list_by_prefix (store_entries entry prefix s kept given).0 p)
        ≡ true
  unfolding store_entries
  store_entries-is_nameless prefix p s kept no_fields h = h
  store_entries-is_nameless prefix p s kept (field n (obj config) rest) h =
      store_entries-is_nameless prefix p (Store.set s (prefix ++ ":" ++ n) (obj (entry n config)))
        (set_field n (obj (entry n config)) kept) rest
        (every-set (is_nameless key) s p (prefix ++ ":" ++ n) (obj (entry n config)) (bare n config)
          h)
  store_entries-is_nameless prefix p s kept (field n _ rest) h =
      store_entries-is_nameless prefix p s kept rest h

-- the loop over the entries leaves a site as it is
pub get-store_entries :
    (entry : String → Fields → Fields) (s : Store Value) (sub rg name kind rest : String)
    (kept given : Fields)
    → differ kind "func:" ≡ true
    → Store.get (store_entries entry (kind ++ rest) s kept given).0 (site_key sub rg name)
      ≡ Store.get s (site_key sub rg name)
unfolding store_entries
get-store_entries entry s sub rg name kind rest kept no_fields h = refl
get-store_entries entry s sub rg name kind rest kept (field n (obj config) more) h =
    get-store_entries entry (Store.set s ((kind ++ rest) ++ ":" ++ n) (obj (entry n config))) sub rg
      name kind rest _ more h
    ∙ rw (append_assoc kind rest (":" ++ n))
        (get-set_kind s sub rg name kind (rest ++ ":" ++ n) (obj (entry n config)) h)
get-store_entries entry s sub rg name kind rest kept (field n _ more) h =
    get-store_entries entry s sub rg name kind rest kept more h

-- A site is there, and no value under the prefix of its connection strings has a name: then, after any
-- update of its connection strings, GetConnectionStrings shows none.
pub never_shown :
    (s : Store Value) (sub rg name : String) (input : Fields)
    → is_some (Store.get s (site_key sub rg name)) ≡ true
    → every (is_nameless "name") (Store.list_by_prefix s (connection_strings_key sub rg name))
      ≡ true
    → get_connection_strings (update_connection_strings s sub rg name input).0 sub rg name
      ≡ json_response 200 (connection_strings_response sub rg name no_fields)
unfolding get_connection_strings update_connection_strings string_or_empty
never_shown s sub rg name input there h =
    let given = object_or no_fields (lookup_field "connectionStrings" (properties_of input)) in
    let key = connection_strings_key sub rg name in
    let kept : Store.get (store_entries connection_string key s no_fields given).0
          (site_key sub rg name)
        ≡ Store.get s (site_key sub rg name) =
      unfold connection_strings_key in
      get-store_entries connection_string s sub rg name "webapp:connectionstrings:" _ no_fields
        given refl in
    let bare =
      store_entries-is_nameless connection_string "name"
        (λ n config. unfold connection_string in unfold is_nameless in refl) key key s no_fields
        given h in
    rw (there, kept, there, all_named-is_nameless "name" no_fields _ bare) refl
