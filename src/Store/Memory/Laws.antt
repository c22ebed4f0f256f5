-- ===== src/Store/Memory/Laws.antt =====
-- What the methods of `MemoryBackend` do to a key, and what they count and list.
use mathlib.Core.List.{map}
use miniblue.Prelude.{
  false, ℕ, ◌+◌, String, ◌≡◌, refl, ap, ◌∙◌, ◌&&◌, none, some, [], ◌∷◌, arith, inl, inr, ◌==◌,
  eq_iff, eq_refl, has_prefix, is_some, if◌then◌else◌, Bool-cases,
}
use miniblue.Prelude.Lists.{length, contains}
use miniblue.Prelude.Assoc.{
  Assoc, lookup, insert, IsMap, lookup-insert, lookup-erase, insert-IsMap, erase-IsMap,
}
use miniblue.Store.Memory.{
  MemoryBackend, values_under, keys_under, count_under, sweep, keys, list, set, get, delete,
  list_by_prefix, list_keys_by_prefix, count_by_prefix, exists, delete_by_prefix, snapshot_from,
  snapshot, new, reset,
}

module _ {ℓ} {V : Type ℓ} where
  lookup-sweep :
      (p k : String) (m : Assoc V)
      → lookup k (sweep p m).0 ≡ (if has_prefix k p then none else lookup k m)
  unfolding lookup sweep
  lookup-sweep p k [] = ground arith
  lookup-sweep p k ((j, v) ∷ m) = elim (Bool-cases (j == k)) [
    | inl e ↦ rw ((eq_iff j k).0 e) (ground (arith, lookup-sweep p k m, eq_refl k))
    | inr e ↦ ground (arith, lookup-sweep p k m)
  ]

  sweep-IsMap : (p : String) (m : Assoc V) → IsMap m → IsMap (sweep p m).0
  unfolding lookup sweep
  sweep-IsMap p [] h = h
  sweep-IsMap p ((j, v) ∷ m) h = ground (arith, lookup-sweep p j m, sweep-IsMap p m h.1)

  count_under-length :
      (p : String) (n : ℕ) (m : Assoc V) → count_under p n m ≡ n + length (keys_under p m)
  unfolding count_under keys_under
  count_under-length p n [] = omega arith
  count_under-length p n ((j, v) ∷ m) =
      ground (arith, count_under-length p n m, count_under-length p (n + 1) m)

  sweep-count : (p : String) (m : Assoc V) → (sweep p m).1 ≡ length (keys_under p m)
  unfolding sweep keys_under
  sweep-count p [] = refl
  sweep-count p ((j, v) ∷ m) = ground (arith, sweep-count p m)

  values_under-length :
      (p : String) (m : Assoc V) → length (values_under p m) ≡ length (keys_under p m)
  unfolding values_under keys_under
  values_under-length p [] = refl
  values_under-length p ((j, v) ∷ m) = ground (arith, values_under-length p m)

  keys_under-sweep : (p : String) (m : Assoc V) → keys_under p (sweep p m).0 ≡ []
  unfolding sweep keys_under
  keys_under-sweep p [] = refl
  keys_under-sweep p ((j, v) ∷ m) = ground (arith, keys_under-sweep p m)

  pub get-set :
      (b : MemoryBackend V) (k j : String) (v : V)
      → get (set b k v) j ≡ (if k == j then some v else get b j)
  unfolding get set
  get-set b k j v = lookup-insert k j v b.entries

  pub get-delete :
      (b : MemoryBackend V) (k j : String)
      → get (delete b k).0 j ≡ (if k == j then none else get b j)
  unfolding get delete
  get-delete b k j = elim (Bool-cases (is_some (lookup k b.entries))) [
    | inl e ↦ rw e (lookup-erase k j b.entries)
    | inr e ↦ ground (arith, eq_iff k j)
  ]

  pub delete_found : (b : MemoryBackend V) (k : String) → (delete b k).1 ≡ is_some (get b k)
  unfolding get delete
  delete_found b k = ground arith

  pub exists-get : (b : MemoryBackend V) (k : String) → exists b k ≡ is_some (get b k)
  unfolding get exists
  exists-get b k = refl

  pub get-delete_by_prefix :
      (b : MemoryBackend V) (p k : String)
      → get (delete_by_prefix b p).0 k ≡ (if has_prefix k p then none else get b k)
  unfolding get delete_by_prefix
  get-delete_by_prefix b p k = lookup-sweep p k b.entries

  pub count-length :
      (b : MemoryBackend V) (p : String) → count_by_prefix b p ≡ length (list_keys_by_prefix b p)
  unfolding count_by_prefix list_keys_by_prefix
  count-length b p = count_under-length p 0 b.entries ∙ omega arith

  -- Listing by prefix, against `get`: the keys under the prefix that are there.
  contains-keys_under :
      (p k : String) (m : Assoc V)
      → contains k (keys_under p m) ≡ (is_some (lookup k m) && has_prefix k p)
  unfolding keys_under lookup has_prefix
  contains-keys_under p k [] = refl
  contains-keys_under p k ((j, v) ∷ m) = elim (Bool-cases (j == k)) [
    | inl e ↦ rw ((eq_iff j k).0 e) (ground (arith, contains-keys_under p k m, eq_refl k))
    | inr e ↦ ground (arith, contains-keys_under p k m)
  ]

  pub contains-list_keys :
      (b : MemoryBackend V) (p k : String)
      → contains k (list_keys_by_prefix b p) ≡ (is_some (get b k) && has_prefix k p)
  unfolding list_keys_by_prefix get
  contains-list_keys b p k = contains-keys_under p k b.entries

  contains-keys : (k : String) (m : Assoc V) → contains k (keys m) ≡ is_some (lookup k m)
  unfolding keys lookup
  contains-keys k [] = refl
  contains-keys k ((j, v) ∷ m) = ground (arith, contains-keys k m)

  pub contains-list : (b : MemoryBackend V) (k : String) → contains k (list b) ≡ is_some (get b k)
  unfolding list get
  contains-list b k = contains-keys k b.entries

  insert_all-lookup :
      (copy m : Assoc V) (k : String)
      → IsMap m
      → lookup k (snapshot_from copy m)
        ≡ (if is_some (lookup k m) then lookup k m else lookup k copy)
  unfolding lookup snapshot_from
  insert_all-lookup copy [] k h = refl
  insert_all-lookup copy ((j, v) ∷ m) k h = elim (Bool-cases (j == k)) [
    | inl e ↦
        let here : lookup k m ≡ none = rw ((eq_iff j k).0 e) at h.0 in
        ground (arith, here, insert_all-lookup (insert j v copy) m k h.1, lookup-insert j k v copy)
    | inr e ↦ ground (arith, insert_all-lookup (insert j v copy) m k h.1, lookup-insert j k v copy)
  ]

  -- The copy that Snapshot makes has the entries of the map.
  pub lookup-snapshot :
      (b : MemoryBackend V) (k : String) → IsMap b.entries → lookup k (snapshot b) ≡ get b k
  unfolding get snapshot
  lookup-snapshot b k h = insert_all-lookup [] b.entries k h ∙ ground arith

  map_entries : (V → V) → Assoc V → Assoc V
  map_entries f [] = []
  map_entries f ((k, v) ∷ m) = (k, f v) ∷ map_entries f m

  -- the map with `f` applied to every value
  pub map_values : (V → V) → MemoryBackend V → MemoryBackend V
  map_values f b = record { entries = map_entries f b.entries }

  values_under-map :
      (f : V → V) (p : String) (m : Assoc V)
      → values_under p (map_entries f m) ≡ map f (values_under p m)
  unfolding values_under map_entries
  values_under-map f p [] = refl
  values_under-map f p ((k, v) ∷ m) = elim (Bool-cases (has_prefix k p)) [
    | inl e ↦ rw (e, values_under-map f p m)
    | inr e ↦ rw (e, values_under-map f p m)
  ]

  pub list_by_prefix-map :
      (f : V → V) (b : MemoryBackend V) (p : String)
      → list_by_prefix (map_values f b) p ≡ map f (list_by_prefix b p)
  unfolding list_by_prefix map_values
  list_by_prefix-map f b p = values_under-map f p b.entries

  -- The keys stay pairwise different.
  values_under-insert :
      (p k : String) (v : V) (m : Assoc V)
      → has_prefix k p ≡ false
      → values_under p (insert k v m) ≡ values_under p m
  unfolding values_under insert
  values_under-insert p k v [] h = rw h refl
  values_under-insert p k v ((j, w) ∷ m) h =
      ground (arith, values_under-insert p k v m h, eq_iff j k, h)

  -- A Set under another prefix changes no list.
  pub list_by_prefix-set :
      (b : MemoryBackend V) (p k : String) (v : V)
      → has_prefix k p ≡ false
      → list_by_prefix (set b k v) p ≡ list_by_prefix b p
  unfolding list_by_prefix set
  list_by_prefix-set b p k v h = values_under-insert p k v b.entries h

  pub set-IsMap :
      (b : MemoryBackend V) (k : String) (v : V) → IsMap b.entries → IsMap (set b k v).entries
  unfolding set
  set-IsMap b k v h = insert-IsMap k v b.entries h

  pub delete-IsMap :
      (b : MemoryBackend V) (k : String) → IsMap b.entries → IsMap (delete b k).0.entries
  unfolding delete
  delete-IsMap b k h = ground (arith, erase-IsMap k b.entries h)

  pub delete_by_prefix-IsMap :
      (b : MemoryBackend V) (p : String) → IsMap b.entries → IsMap (delete_by_prefix b p).0.entries
  unfolding delete_by_prefix
  delete_by_prefix-IsMap b p h = sweep-IsMap p b.entries h

  -- DeleteByPrefix reports as many entries as CountByPrefix counted, and leaves none.
  pub delete_by_prefix-count :
      (b : MemoryBackend V) (p : String)
      → ((delete_by_prefix b p).1 ≡ count_by_prefix b p)
        × (count_by_prefix (delete_by_prefix b p).0 p ≡ 0)
  unfolding delete_by_prefix count_by_prefix
  delete_by_prefix-count b p = (
    omega (arith, sweep-count p b.entries, count_under-length p 0 b.entries),
    omega (
      arith,
      count_under-length p 0 (sweep p b.entries).0,
      ap length (keys_under-sweep p b.entries),
    ),
  )

  pub values-length :
      (b : MemoryBackend V) (p : String) → length (list_by_prefix b p) ≡ count_by_prefix b p
  unfolding list_by_prefix count_by_prefix
  values-length b p =
      omega (arith, values_under-length p b.entries, count_under-length p 0 b.entries)

pub get-reset {ℓ} : {V : Type ℓ} (b : MemoryBackend V) (k : String) → get (reset b) k ≡ none
unfolding get reset
get-reset b k = refl

pub get-new {ℓ} : {V : Type ℓ} (k : String) → get (new {V = V}) k ≡ none
unfolding get new
get-new k = refl
