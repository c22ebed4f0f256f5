-- ===== src/Store/Refinement.antt =====
-- The methods of internal/store/memory.go, run one after the other over either backend, against the
-- contract on a map from keys to values.
use mathlib.Core.Path.{fun_ext, subst}
use mathlib.Core.List.{map}
use miniblue.Prelude.{
  String, ◌≡◌, refl, ap, Bool, true, false, some, List, [], ◌∷◌, ◌==◌, is_some, if◌then◌else◌,
  Bool-cases, inl, inr,
}
use miniblue.Prelude.Assoc.{Assoc, IsMap}
use miniblue.Store.{
  Store, Backend, memory, file, mem, with_mem, set, get, exists, set_if_not_exists, delete, list,
  list_by_prefix, list_keys_by_prefix, count_by_prefix, delete_by_prefix, reset,
}
use miniblue.Store.Contract.{
  Command, set_command, get_command, exists_command, set_if_not_exists_command, delete_command,
  list_command, list_by_prefix_command, list_keys_by_prefix_command, count_by_prefix_command,
  delete_by_prefix_command, reset_command, Answer, done, value, flag, number, names, values, Map,
  Lists, minded, next, Allowed, Accepts, first_of,
}
use miniblue.Store.Laws.{
  get-set, get-delete, delete_found, exists-get, get-delete_by_prefix, get-reset, mem-with_mem,
}
use miniblue.Store.Memory.Laws.{set-IsMap, delete-IsMap, delete_by_prefix-IsMap}
use miniblue.Store.Memory.Entries
use miniblue.Store.Memory

module _ {V : Type 0} where
  -- a command on the store of the code
  unfoldable pub step : Command V → Store V → Store V × Answer V
  step (set_command k v) s = (set s k v, done)
  step (get_command k) s = (s, value (get s k))
  step (exists_command k) s = (s, flag (exists s k))
  step (set_if_not_exists_command k v) s =
      let (s', fresh) = set_if_not_exists s k v in (s', flag fresh)
  step (delete_command k) s = let (s', found) = delete s k in (s', flag found)
  step (list_command) s = (s, names (list s))
  step (list_by_prefix_command p) s = (s, values (list_by_prefix s p))
  step (list_keys_by_prefix_command p) s = (s, names (list_keys_by_prefix s p))
  step (count_by_prefix_command p) s = (s, number (count_by_prefix s p))
  step (delete_by_prefix_command p) s = let (s', count) = delete_by_prefix s p in (s', number count)
  step (reset_command) s = (reset s, done)

  unfoldable pub run : List (Command V) → Store V → Store V × List (Answer V)
  run [] s = (s, [])
  run (c ∷ cs) s =
      let (s', answer) = step c s in let (s'', answers) = run cs s' in (s'', answer ∷ answers)

  -- the map that a store stands for
  abbrev pub contents : Store V → Map V
  contents s k = get s k

  -- Only the memory backend filters the keys by a prefix.
  abbrev pub filters : Backend V → Bool
  filters (memory b) = true
  filters (file f) = false

  -- the keys of a store are pairwise different
  abbrev pub HasMap : Store V → Type 0
  HasMap s = IsMap (mem s.backend).entries

  pub memory-HasMap :
      (b : Memory.MemoryBackend V) → IsMap b.entries → HasMap (record { backend = memory b })
  unfolding mem
  memory-HasMap b h = h

  keeps_backend :
      (k : Backend V) (b : Memory.MemoryBackend V)
      → IsMap b.entries
      → IsMap (mem (with_mem k b)).entries
  keeps_backend k b h = rw (mem-with_mem k b) h

  step-HasMap : (c : Command V) (s : Store V) → HasMap s → HasMap (step c s).0
  unfolding step set set_if_not_exists delete delete_by_prefix reset Memory.reset
  step-HasMap (set_command k v) s h = keeps_backend s.backend _ (set-IsMap (mem s.backend) k v h)
  step-HasMap (get_command k) s h = h
  step-HasMap (exists_command k) s h = h
  step-HasMap (set_if_not_exists_command k v) s h = elim (Bool-cases (exists s k)) [
    | inl e ↦ rw e h
    | inr e ↦ rw e (keeps_backend s.backend _ (set-IsMap (mem s.backend) k v h))
  ]
  step-HasMap (delete_command k) s h = keeps_backend s.backend _ (delete-IsMap (mem s.backend) k h)
  step-HasMap (list_command) s h = h
  step-HasMap (list_by_prefix_command p) s h = h
  step-HasMap (list_keys_by_prefix_command p) s h = h
  step-HasMap (count_by_prefix_command p) s h = h
  step-HasMap (delete_by_prefix_command p) s h =
      keeps_backend s.backend _ (delete_by_prefix-IsMap (mem s.backend) p h)
  step-HasMap (reset_command) s h = keeps_backend s.backend _ tt

  -- No run of commands makes a key occur twice.
  pub run-HasMap : (cs : List (Command V)) (s : Store V) → HasMap s → HasMap (run cs s).0
  unfolding run
  run-HasMap [] s h = h
  run-HasMap (c ∷ cs) s h = run-HasMap cs (step c s).0 (step-HasMap c s h)

  get-set_if_not_exists :
      (s : Store V) (k j : String) (v : V)
      → get (set_if_not_exists s k v).0 j
        ≡ (if is_some (get s k) then get s j else if k == j then some v else get s j)
  unfolding set_if_not_exists
  get-set_if_not_exists s k j v = elim (Bool-cases (is_some (get s k))) [
    | inl e ↦ rw (exists-get s k, e) refl
    | inr e ↦ rw (exists-get s k, e) (get-set s k j v)
  ]

  step-next : (c : Command V) (s : Store V) → contents (step c s).0 ≡ next c (contents s)
  unfolding step next set_if_not_exists
  step-next (set_command k v) s = fun_ext (λ j. get-set s k j v)
  step-next (get_command k) s = refl
  step-next (exists_command k) s = refl
  step-next (set_if_not_exists_command k v) s = fun_ext (λ j. get-set_if_not_exists s k j v)
  step-next (delete_command k) s = fun_ext (λ j. get-delete s k j)
  step-next (list_command) s = refl
  step-next (list_by_prefix_command p) s = refl
  step-next (list_keys_by_prefix_command p) s = refl
  step-next (count_by_prefix_command p) s = refl
  step-next (delete_by_prefix_command p) s = fun_ext (λ j. get-delete_by_prefix s p j)
  step-next (reset_command) s = fun_ext (λ j. get-reset s j)

  -- the entries of a store under a prefix
  entries : Store V → String → Assoc V
  entries s p = Entries.under p (mem s.backend).entries

  entries-Lists : (s : Store V) (p : String) → HasMap s → Lists (contents s) p (entries s p)
  unfolding entries get miniblue.Store.Memory.get
  entries-Lists s p h = Entries.under-Lists p (mem s.backend).entries h

  list_keys_by_prefix-entries :
      (k : Backend V) (p : String)
      → list_keys_by_prefix (record { backend = k }) p
        ≡ map first_of (entries (record { backend = k }) (minded (filters k) p))
  unfolding list_keys_by_prefix entries mem
  list_keys_by_prefix-entries (memory b) p = Entries.list_keys_by_prefix-entries b p
  list_keys_by_prefix-entries (file f) p = Entries.list-entries f.mem

  step-Allowed :
      (c : Command V) (s : Store V)
      → HasMap s
      → Allowed (filters s.backend) c (contents s) (step c s).1
  unfolding step set_if_not_exists list list_by_prefix list_keys_by_prefix count_by_prefix
      delete_by_prefix entries
  step-Allowed (set_command k v) s h = refl
  step-Allowed (get_command k) s h = refl
  step-Allowed (exists_command k) s h = ap flag (exists-get s k)
  step-Allowed (set_if_not_exists_command k v) s h = elim (Bool-cases (is_some (get s k))) [
    | inl e ↦ rw (exists-get s k, e) refl
    | inr e ↦ rw (exists-get s k, e) refl
  ]
  step-Allowed (delete_command k) s h = ap flag (delete_found s k)
  step-Allowed (list_command) s h =
      (entries s "", entries-Lists s "" h, ap names (Entries.list-entries (mem s.backend)))
  step-Allowed (list_by_prefix_command p) s h = (
    entries s p,
    entries-Lists s p h,
    ap values (Entries.list_by_prefix-entries (mem s.backend) p),
  )
  step-Allowed (list_keys_by_prefix_command p) s h =
      let q = minded (filters s.backend) p in
      (entries s q, entries-Lists s q h, ap names (list_keys_by_prefix-entries s.backend p))
  step-Allowed (count_by_prefix_command p) s h = (
    entries s p,
    entries-Lists s p h,
    ap number (Entries.count_by_prefix-entries (mem s.backend) p),
  )
  step-Allowed (delete_by_prefix_command p) s h = (
    entries s p,
    entries-Lists s p h,
    ap number (Entries.delete_by_prefix-entries (mem s.backend) p),
  )
  step-Allowed (reset_command) s h = refl

  filters-with_mem :
      (k : Backend V) (b : Memory.MemoryBackend V) → filters (with_mem k b) ≡ filters k
  unfolding with_mem
  filters-with_mem (memory _) b = refl
  filters-with_mem (file _) b = refl

  -- No command exchanges the backend.
  step-filters : (c : Command V) (s : Store V) → filters (step c s).0.backend ≡ filters s.backend
  unfolding step set set_if_not_exists delete delete_by_prefix reset
  step-filters (set_command k v) s = filters-with_mem s.backend _
  step-filters (get_command k) s = refl
  step-filters (exists_command k) s = refl
  step-filters (set_if_not_exists_command k v) s = elim (Bool-cases (exists s k)) [
    | inl e ↦ rw e refl
    | inr e ↦ rw e (filters-with_mem s.backend _)
  ]
  step-filters (delete_command k) s = filters-with_mem s.backend _
  step-filters (list_command) s = refl
  step-filters (list_by_prefix_command p) s = refl
  step-filters (list_keys_by_prefix_command p) s = refl
  step-filters (count_by_prefix_command p) s = refl
  step-filters (delete_by_prefix_command p) s = filters-with_mem s.backend _
  step-filters (reset_command) s = filters-with_mem s.backend _

  -- Whatever commands are run, over either backend, on a store whose keys are pairwise different:
  -- the answers are ones that the map which the store stands for allows, one command after the
  -- other, and the store at the end stands for the map that the commands lead to. A listing has
  -- each entry under the prefix once, in any order, and a count, DeleteByPrefix's too, is the
  -- number of these entries; over the file backend ListKeysByPrefix lists every key, whatever the
  -- prefix.
  pub run-refines :
      (cs : List (Command V)) (s : Store V)
      → HasMap s
      → Accepts (filters s.backend) cs (contents s) (run cs s).1 (contents (run cs s).0)
  unfolding run
  run-refines [] s h = refl
  run-refines (c ∷ cs) s h = (
    step-Allowed c s h,
    subst
        (λ m.
          Accepts (filters s.backend) cs m (run cs (step c s).0).1
            (contents (run cs (step c s).0).0))
        (step-next c s)
        (subst
          (λ b.
            Accepts b cs (contents (step c s).0) (run cs (step c s).0).1
              (contents (run cs (step c s).0).0))
          (step-filters c s) (run-refines cs (step c s).0 (step-HasMap c s h))),
  )
