-- ===== src/Store/Memory/Entries.antt =====
-- The loops of `MemoryBackend`, against the entries of the map under a prefix.
use mathlib.Core.List.{map}
use miniblue.Prelude.{
  String, ◌≡◌, refl, ◌∙◌, none, [], ◌∷◌, ◌==◌, has_prefix, if◌then◌else◌, arith, Bool-cases, inl,
  inr, eq_iff, eq_refl,
}
use miniblue.Prelude.Lists.{length}
use miniblue.Prelude.Assoc.{Assoc, lookup, IsMap}
use miniblue.Store.Contract.{Lists, first_of, second_of}
use miniblue.Store.Memory.{
  MemoryBackend, keys, keys_under, values_under, list, list_by_prefix, list_keys_by_prefix,
  count_by_prefix, delete_by_prefix,
}
use miniblue.Store.Memory.Laws.{delete_by_prefix-count, count-length}

module _ {V : Type 0} where
  -- the entries under a prefix
  pub under : String → Assoc V → Assoc V
  under p [] = []
  under p ((k, v) ∷ m) = let rest = under p m in if has_prefix k p then (k, v) ∷ rest else rest

  lookup-under :
      (p k : String) (m : Assoc V)
      → lookup k (under p m) ≡ (if has_prefix k p then lookup k m else none)
  unfolding lookup under
  lookup-under p k [] = ground arith
  lookup-under p k ((j, v) ∷ m) = elim (Bool-cases (j == k)) [
    | inl e ↦ rw ((eq_iff j k).0 e) (ground (arith, lookup-under p k m, eq_refl k))
    | inr e ↦ ground (arith, lookup-under p k m)
  ]

  under-IsMap : (p : String) (m : Assoc V) → IsMap m → IsMap (under p m)
  unfolding lookup under
  under-IsMap p [] h = tt
  under-IsMap p ((j, v) ∷ m) h = ground (arith, lookup-under p j m, under-IsMap p m h.1)

  pub under-Lists : (p : String) (m : Assoc V) → IsMap m → Lists (λ k. lookup k m) p (under p m)
  under-Lists p m h = record { distinct = under-IsMap p m h; exact = λ k. lookup-under p k m }

  keys_under-map : (p : String) (m : Assoc V) → keys_under p m ≡ map first_of (under p m)
  unfolding keys_under under
  keys_under-map p [] = refl
  keys_under-map p ((j, v) ∷ m) = elim (Bool-cases (has_prefix j p)) [
    | inl e ↦ rw (e, keys_under-map p m)
    | inr e ↦ rw (e, keys_under-map p m)
  ]

  values_under-map : (p : String) (m : Assoc V) → values_under p m ≡ map second_of (under p m)
  unfolding values_under under
  values_under-map p [] = refl
  values_under-map p ((j, v) ∷ m) = elim (Bool-cases (has_prefix j p)) [
    | inl e ↦ rw (e, values_under-map p m)
    | inr e ↦ rw (e, values_under-map p m)
  ]

  keys-map : (m : Assoc V) → keys m ≡ map first_of (under "" m)
  unfolding keys under has_prefix
  keys-map [] = refl
  keys-map ((j, v) ∷ m) = rw (keys-map m)

  keys_under-length : (p : String) (m : Assoc V) → length (keys_under p m) ≡ length (under p m)
  unfolding keys_under under
  keys_under-length p [] = refl
  keys_under-length p ((j, v) ∷ m) = ground (arith, keys_under-length p m)

  module _ (b : MemoryBackend V) where
    pub list-entries : list b ≡ map first_of (under "" b.entries)
    unfolding list
    list-entries = keys-map b.entries

    pub list_by_prefix-entries :
        (p : String) → list_by_prefix b p ≡ map second_of (under p b.entries)
    unfolding list_by_prefix
    list_by_prefix-entries p = values_under-map p b.entries

    pub list_keys_by_prefix-entries :
        (p : String) → list_keys_by_prefix b p ≡ map first_of (under p b.entries)
    unfolding list_keys_by_prefix
    list_keys_by_prefix-entries p = keys_under-map p b.entries

    pub count_by_prefix-entries : (p : String) → count_by_prefix b p ≡ length (under p b.entries)
    unfolding list_keys_by_prefix
    count_by_prefix-entries p = count-length b p ∙ keys_under-length p b.entries

    pub delete_by_prefix-entries :
        (p : String) → (delete_by_prefix b p).1 ≡ length (under p b.entries)
    delete_by_prefix-entries p = (delete_by_prefix-count b p).0 ∙ count_by_prefix-entries p
