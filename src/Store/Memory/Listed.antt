-- ===== src/Store/Memory/Listed.antt =====
-- What ListByPrefix shows after a Set: the values that it showed, and at most the new one.
use miniblue.Prelude.{String, Bool, true, ◌≡◌, arith, [], ◌∷◌, eq_iff}
use miniblue.Prelude.Assoc.{Assoc, insert}
use miniblue.Prelude.Lists.{every}
use miniblue.Store.Memory.{MemoryBackend, values_under, set, list_by_prefix}

module _ {ℓ} {V : Type ℓ} (P : V → Bool) where
  every-insert :
      (p k : String) (v : V) (m : Assoc V)
      → P v ≡ true
      → every P (values_under p m) ≡ true
      → every P (values_under p (insert k v m)) ≡ true
  unfolding values_under insert
  every-insert p k v [] h all = ground (arith, h)
  every-insert p k v ((j, w) ∷ m) h all = ground (arith, every-insert p k v m h, eq_iff j k, h, all)

  -- If a test holds of the new value and of each value under a prefix, it does so after the Set.
  pub every-set :
      (b : MemoryBackend V) (p k : String) (v : V)
      → P v ≡ true
      → every P (list_by_prefix b p) ≡ true
      → every P (list_by_prefix (set b k v) p) ≡ true
  unfolding list_by_prefix set
  every-set b p k v h all = every-insert p k v b.entries h all
