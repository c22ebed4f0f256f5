-- ===== src/Store/Contract.antt =====
-- What the methods of `Store` promise, on a map from keys to values that has no order: a listing is
-- any list of the entries that the map has under a prefix, each key once.
use mathlib.Core.List.{map}
use miniblue.Prelude.{
  ℕ, String, ◌≡◌, Bool, true, false, Option, none, some, List, [], ◌∷◌, ◌==◌, has_prefix, is_some,
  if◌then◌else◌,
}
use miniblue.Prelude.Lists.{length}
use miniblue.Prelude.Assoc.{Assoc, lookup, IsMap}

pub data Command (V : Type 0) : Type 0 where
  set_command : String → V → Command V
  get_command : String → Command V
  exists_command : String → Command V
  set_if_not_exists_command : String → V → Command V
  delete_command : String → Command V
  list_command : Command V
  list_by_prefix_command : String → Command V
  list_keys_by_prefix_command : String → Command V
  count_by_prefix_command : String → Command V
  delete_by_prefix_command : String → Command V
  reset_command : Command V

-- what a caller sees
pub data Answer (V : Type 0) : Type 0 where
  done : Answer V
  value : Option V → Answer V
  flag : Bool → Answer V
  number : ℕ → Answer V
  names : List String → Answer V
  values : List V → Answer V

-- the map of the specification
abbrev pub Map : Type 0 → Type 0
Map V = String → Option V

-- The prefix that ListKeysByPrefix minds: a backend that does not filter lists every key.
abbrev pub minded : (filters : Bool) → String → String
minded filters prefix = if filters then prefix else ""

module _ {V : Type 0} where
  abbrev pub first_of : String × V → String
  first_of e = e.0

  abbrev pub second_of : String × V → V
  second_of e = e.1

  -- `es` is a listing of the entries of `m` under `prefix`.
  pub record Lists (m : Map V) (prefix : String) (es : Assoc V) : Type 0 where
    pub distinct : IsMap es
    pub exact : (k : String) → lookup k es ≡ (if has_prefix k prefix then m k else none)

  -- the map after a command
  unfoldable pub next : Command V → Map V → Map V
  next (set_command k v) m j = if k == j then some v else m j
  next (get_command k) m j = m j
  next (exists_command k) m j = m j
  next (set_if_not_exists_command k v) m j =
      if is_some (m k) then m j else if k == j then some v else m j
  next (delete_command k) m j = if k == j then none else m j
  next (list_command) m j = m j
  next (list_by_prefix_command p) m j = m j
  next (list_keys_by_prefix_command p) m j = m j
  next (count_by_prefix_command p) m j = m j
  next (delete_by_prefix_command p) m j = if has_prefix j p then none else m j
  next (reset_command) m j = none

  -- the answers that a command may give
  abbrev pub Allowed : (filters : Bool) → Command V → Map V → Answer V → Type 0
  Allowed filters (set_command k v) m a = a ≡ done
  Allowed filters (get_command k) m a = a ≡ value (m k)
  Allowed filters (exists_command k) m a = a ≡ flag (is_some (m k))
  Allowed filters (set_if_not_exists_command k v) m a =
      a ≡ flag (if is_some (m k) then false else true)
  Allowed filters (delete_command k) m a = a ≡ flag (is_some (m k))
  Allowed filters (list_command) m a =
      (es : Assoc V) × Lists m "" es × (a ≡ names (map first_of es))
  Allowed filters (list_by_prefix_command p) m a =
      (es : Assoc V) × Lists m p es × (a ≡ values (map second_of es))
  Allowed filters (list_keys_by_prefix_command p) m a =
      (es : Assoc V) × Lists m (minded filters p) es × (a ≡ names (map first_of es))
  Allowed filters (count_by_prefix_command p) m a =
      (es : Assoc V) × Lists m p es × (a ≡ number (length es))
  Allowed filters (delete_by_prefix_command p) m a =
      (es : Assoc V) × Lists m p es × (a ≡ number (length es))
  Allowed filters (reset_command) m a = a ≡ done

  -- The answers of a run are allowed one after the other, and the run ends in the map `end`.
  abbrev pub Accepts :
      (filters : Bool) → List (Command V) → Map V → List (Answer V) → Map V → Type 0
  Accepts filters [] m [] end = end ≡ m
  Accepts filters [] m (a ∷ as') end = ⊥
  Accepts filters (c ∷ cs) m [] end = ⊥
  Accepts filters (c ∷ cs) m (a ∷ as') end =
      Allowed filters c m a × Accepts filters cs (next c m) as' end
