-- ===== src/Store/Memory.antt =====
-- internal/store/memory.go, `MemoryBackend`. The mutex makes each method one step, so a method is
-- a function of the map. The entries stand in the order in which `range` visits them: Go leaves
-- that order open, and no theorem depends on it.
pub mod Laws
pub mod Listed
pub mod Entries
use miniblue.Prelude.{
  ℕ, ◌+◌, String, Bool, true, false, Option, List, [], ◌∷◌, ◌==◌, has_prefix, is_some,
  if◌then◌else◌,
}
use miniblue.Prelude.Assoc.{Assoc, lookup, insert, erase}

pub record MemoryBackend {ℓ} (V : Type ℓ) : Type ℓ where
  pub entries : Assoc V

module _ {ℓ} {V : Type ℓ} where
  -- the loops of ListByPrefix, ListKeysByPrefix, CountByPrefix and DeleteByPrefix
  values_under : String → Assoc V → List V
  values_under prefix [] = []
  values_under prefix ((k, v) ∷ m) =
      let rest = values_under prefix m in if has_prefix k prefix then v ∷ rest else rest

  keys_under : String → Assoc V → List String
  keys_under prefix [] = []
  keys_under prefix ((k, v) ∷ m) =
      let rest = keys_under prefix m in if has_prefix k prefix then k ∷ rest else rest

  count_under : String → ℕ → Assoc V → ℕ
  count_under prefix count [] = count
  count_under prefix count ((k, v) ∷ m) =
      count_under prefix (if has_prefix k prefix then count + 1 else count) m

  sweep : String → Assoc V → Assoc V × ℕ
  sweep prefix [] = ([], 0)
  sweep prefix ((k, v) ∷ m) =
      let (rest, count) = sweep prefix m in
      if has_prefix k prefix then (rest, count + 1) else ((k, v) ∷ rest, count)

  keys : Assoc V → List String
  keys [] = []
  keys ((k, v) ∷ m) = k ∷ keys m

  unfoldable pub set : MemoryBackend V → String → V → MemoryBackend V
  unfolding insert
  set b key value = record { entries = insert key value b.entries }

  unfoldable pub get : MemoryBackend V → String → Option V
  unfolding lookup
  get b key = lookup key b.entries

  unfoldable pub delete : MemoryBackend V → String → MemoryBackend V × Bool
  unfolding lookup erase
  delete b key =
      if is_some (lookup key b.entries)
      then (record { entries = erase key b.entries }, true)
      else (b, false)

  unfoldable pub list : MemoryBackend V → List String
  unfolding keys
  list b = keys b.entries

  unfoldable pub list_by_prefix : MemoryBackend V → String → List V
  unfolding values_under
  list_by_prefix b prefix = values_under prefix b.entries

  unfoldable pub list_keys_by_prefix : MemoryBackend V → String → List String
  unfolding keys_under
  list_keys_by_prefix b prefix = keys_under prefix b.entries

  unfoldable pub count_by_prefix : MemoryBackend V → String → ℕ
  unfolding count_under
  count_by_prefix b prefix = count_under prefix 0 b.entries

  unfoldable pub exists : MemoryBackend V → String → Bool
  unfolding lookup
  exists b key = is_some (lookup key b.entries)

  unfoldable pub delete_by_prefix : MemoryBackend V → String → MemoryBackend V × ℕ
  unfolding sweep
  delete_by_prefix b prefix =
      let (rest, count) = sweep prefix b.entries in (record { entries = rest }, count)

  -- a fresh map with the same entries
  snapshot_from : Assoc V → Assoc V → Assoc V
  snapshot_from copy [] = copy
  snapshot_from copy ((k, v) ∷ m) = snapshot_from (insert k v copy) m

  unfoldable pub snapshot : MemoryBackend V → Assoc V
  unfolding snapshot_from insert
  snapshot b = snapshot_from [] b.entries

-- NewMemoryBackend
unfoldable pub new {ℓ} : {V : Type ℓ} → MemoryBackend V
new = record { entries = [] }

unfoldable pub reset {ℓ} : {V : Type ℓ} → MemoryBackend V → MemoryBackend V
reset b = record { entries = [] }
