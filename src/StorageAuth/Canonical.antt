-- ===== src/StorageAuth/Canonical.antt =====
-- buildCanonicalizedHeaders and buildCanonicalizedResource of internal/storageauth/sharedkey.go.
use mathlib.Core.List
use mathlib.Core.List.{flatten}
use miniblue.Prelude.{
  String, Bool, Option, none, some, ◌++◌, List, [], ◌∷◌, ◌==◌, has_prefix, if◌then◌else◌,
}
use miniblue.Prelude.Assoc.{Assoc, lookup, insert}
use miniblue.Prelude.Sort.{str_le, sort_strings}
use miniblue.StorageAuth.Text.{join_commas, collapse_space}
use miniblue.StorageAuth.Request.{Header, Request, Library}

-- the `hdr` pairs of the x-ms- headers
unfoldable pub ms_headers : Library → Header → List (String × String)
ms_headers lib [] = []
ms_headers lib ((name, vals) ∷ h) =
    let ln = lib.to_lower name in
    let rest = ms_headers lib h in
    if has_prefix ln "x-ms-" then (ln, collapse_space (join_commas vals)) ∷ rest else rest

-- not (b sorts before a), by the function that sort.Slice is given
abbrev pub hdr_le : String × String → String × String → Bool
hdr_le (k, v) (j, w) = if k == j then str_le v w else str_le k j

unfoldable pub insert_header : String × String → List (String × String) → List (String × String)
insert_header x [] = x ∷ []
insert_header x (y ∷ ys) =
    let rest = insert_header x ys in if hdr_le x y then x ∷ y ∷ ys else y ∷ rest

unfoldable pub sort_headers : List (String × String) → List (String × String)
unfolding insert_header
sort_headers [] = []
sort_headers (x ∷ xs) = insert_header x (sort_headers xs)

print_headers : List (String × String) → String
unfolding ◌++◌
print_headers [] = ""
print_headers ((k, v) ∷ xs) = k ++ ":" ++ v ++ "\n" ++ print_headers xs

unfoldable pub canonicalized_headers : Library → Request → String
unfolding print_headers sort_headers
canonicalized_headers lib r = print_headers (sort_headers (ms_headers lib r.header))

-- the name or value itself if it does not decode
abbrev pub unescaped : Library → String → String
unescaped lib s = elim (lib.unescape s) [ none ↦ s | some t ↦ t ]

abbrev pub values_at : String → Assoc (List String) → List String
values_at k params = elim (lookup k params) [ none ↦ [] | some vs ↦ vs ]

-- params[dk] = append(params[dk], dv), for each value of one name
add_values : Library → String → List String → Assoc (List String) → Assoc (List String)
add_values lib dk [] params = params
add_values lib dk (v ∷ vs) params =
    add_values lib dk vs (insert dk (List.◌++◌ (values_at dk params) (unescaped lib v ∷ [])) params)

group : Library → Assoc (List String) → Assoc (List String) → Assoc (List String)
unfolding add_values
group lib [] params = params
group lib ((k, vs) ∷ q) params =
    group lib q (add_values lib (lib.to_lower (unescaped lib k)) vs params)

names : Assoc (List String) → List String
names [] = []
names ((k, vs) ∷ params) = k ∷ names params

print_params : Assoc (List String) → List String → String
unfolding ◌++◌
print_params params [] = ""
print_params params (k ∷ ks) =
    "\n" ++ k ++ ":" ++ join_commas (sort_strings (values_at k params)) ++ print_params params ks

-- `none` when url.ParseQuery reports an error
unfoldable pub canonicalized_resource : Library → (account : String) → Request → Option String
unfolding ◌++◌ group names print_params
canonicalized_resource lib account r =
    let path = if r.escaped_path == "" then "/" else r.escaped_path in
    let resource = "/" ++ account ++ path in
    if r.raw_query == "" then some resource else elim r.query [
      | none ↦ none
      | some q ↦
          let params = group lib q [] in
          some (resource ++ print_params params (sort_strings (names params)))
    ]
