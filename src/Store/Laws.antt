-- ===== src/Store/Laws.antt =====
-- What the operations of `Store` do to a key, over either backend: what every handler relies on.
use mathlib.Core.List.{map}
use miniblue.Prelude.{
  String, ◌≡◌, refl, ap, ◌∙◌, none, some, ◌==◌, has_prefix, is_some, ◌&&◌, arith, eq_iff, eq_refl,
  false, true, Bool, if◌then◌else◌,
}
use miniblue.Prelude.Lists.{contains, every}
use miniblue.Store.Memory
use miniblue.Store.File.{FileBackend}
use miniblue.Store.Memory.{MemoryBackend}
use miniblue.Store.Memory.Laws
use miniblue.Store.Memory.Listed
use miniblue.Store.{
  Backend, memory, file, Store, mem, with_mem, new, set, get, exists, delete, list_by_prefix,
  list_keys_by_prefix, delete_by_prefix, reset,
}

module _ {V : Type 0} where
  pub mem-with_mem : (k : Backend V) (b : MemoryBackend V) → mem (with_mem k b) ≡ b
  unfolding mem with_mem
  mem-with_mem (memory _) b = refl
  mem-with_mem (file _) b = refl

  get-of_mem :
      (s : Store V) (b : MemoryBackend V) (j : String)
      → get (record { backend = with_mem s.backend b }) j ≡ Memory.get b j
  unfolding get
  get-of_mem s b j = ap (λ m. Memory.get m j) (mem-with_mem s.backend b)

  -- Get after Set.
  pub get-set :
      (s : Store V) (k j : String) (v : V)
      → get (set s k v) j ≡ (if k == j then some v else get s j)
  get-set s k j v =
      unfold set in
      (get-of_mem s (Memory.set (mem s.backend) k v) j
        ∙ unfold get in Laws.get-set (mem s.backend) k j v)

  pub get-set_same : (s : Store V) (k : String) (v : V) → get (set s k v) k ≡ some v
  get-set_same s k v = rw (get-set s k k v, eq_refl k) refl

  -- Get after Delete.
  pub get-delete :
      (s : Store V) (k j : String) → get (delete s k).0 j ≡ (if k == j then none else get s j)
  unfolding delete
  get-delete s k j =
      get-of_mem s (Memory.delete (mem s.backend) k).0 j
      ∙ (unfold get in Laws.get-delete (mem s.backend) k j)

  pub delete_found : (s : Store V) (k : String) → (delete s k).1 ≡ is_some (get s k)
  unfolding delete get
  delete_found s k = Laws.delete_found (mem s.backend) k

  -- A Delete that finds nothing changes nothing.
  pub get-delete_absent :
      (s : Store V) (k j : String) → (delete s k).1 ≡ false → get (delete s k).0 j ≡ get s j
  get-delete_absent s k j h = ground (arith, get-delete s k j, delete_found s k, eq_iff k j, h)

  pub exists-get : (s : Store V) (k : String) → exists s k ≡ is_some (get s k)
  unfolding exists get
  exists-get s k = Laws.exists-get (mem s.backend) k

  -- After DeleteByPrefix a key under the prefix is gone, and every other key keeps its value.
  pub get-delete_by_prefix :
      (s : Store V) (p k : String)
      → get (delete_by_prefix s p).0 k ≡ (if has_prefix k p then none else get s k)
  unfolding delete_by_prefix
  get-delete_by_prefix s p k =
      get-of_mem s (Memory.delete_by_prefix (mem s.backend) p).0 k
      ∙ (unfold get in Laws.get-delete_by_prefix (mem s.backend) p k)

  pub get-reset : (s : Store V) (k : String) → get (reset s) k ≡ none
  unfolding reset
  get-reset s k = get-of_mem s _ k ∙ Laws.get-reset (mem s.backend) k

  pub get-new : (k : String) → get (new {V = V}) k ≡ none
  unfolding get new
  get-new k = refl

  -- Over a memory backend ListKeysByPrefix lists a key if and only if it is there and begins with the
  -- prefix.
  pub contains-list_keys :
      (b : MemoryBackend V) (p k : String)
      → contains k (list_keys_by_prefix (record { backend = memory b }) p)
        ≡ (is_some (get (record { backend = memory b }) k) && has_prefix k p)
  unfolding list_keys_by_prefix get
  contains-list_keys b p k = Laws.contains-list_keys b p k

  -- Over a file backend it lists a key if and only if it is there, whatever the prefix.
  pub contains-list_keys_file :
      (f : FileBackend V) (p k : String)
      → contains k (list_keys_by_prefix (record { backend = file f }) p)
        ≡ is_some (get (record { backend = file f }) k)
  unfolding list_keys_by_prefix get
  contains-list_keys_file f p k = Laws.contains-list f.mem k

  pub list_by_prefix-set :
      (s : Store V) (p k : String) (v : V)
      → has_prefix k p ≡ false
      → list_by_prefix (set s k v) p ≡ list_by_prefix s p
  unfolding list_by_prefix set
  list_by_prefix-set s p k v h =
      ap (λ m. Memory.list_by_prefix m p) (mem-with_mem s.backend (Memory.set (mem s.backend) k v))
      ∙ Laws.list_by_prefix-set (mem s.backend) p k v h

  -- If a test holds of the new value and of each value under a prefix, it does so after the Set.
  pub every-set :
      (P : V → Bool) (s : Store V) (p k : String) (v : V)
      → P v ≡ true
      → every P (list_by_prefix s p) ≡ true
      → every P (list_by_prefix (set s k v) p) ≡ true
  unfolding list_by_prefix set
  every-set P s p k v h all =
      rw (mem-with_mem s.backend (Memory.set (mem s.backend) k v))
        (Listed.every-set P (mem s.backend) p k v h all)

  -- the store with `f` applied to every value
  pub map_values : (V → V) → Store V → Store V
  map_values f s = record { backend = with_mem s.backend (Laws.map_values f (mem s.backend)) }

  pub list_by_prefix-map :
      (f : V → V) (s : Store V) (p : String)
      → list_by_prefix (map_values f s) p ≡ map f (list_by_prefix s p)
  unfolding list_by_prefix map_values
  list_by_prefix-map f s p =
      rw (mem-with_mem s.backend (Laws.map_values f (mem s.backend)))
        (Laws.list_by_prefix-map f (mem s.backend) p)

pub ruleset store_laws =
    (get-set, get-delete, delete_found, exists-get, get-delete_by_prefix, get-reset)
