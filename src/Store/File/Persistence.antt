-- ===== src/Store/File/Persistence.antt =====
-- Save and NewFileBackend of internal/store/file.go, one after the other.
use mathlib.Core.Option
use mathlib.Core.Path.{subst}
use mathlib.Core.Option.{some-injective}
use miniblue.Prelude.{
  String, ◌≡◌, ◌≢◌, refl, ap, ◌∙◌, sym, Option, Bool, true, false, none, some, [], ◌∷◌, arith, ◌==◌,
  eq_iff, eq_refl, if◌then◌else◌, Bool-cases, Option-cases, inl, inr,
}
use miniblue.Prelude.Text.{append-ne_self}
use miniblue.Prelude.Assoc.{Assoc, lookup, IsMap}
use miniblue.Store.Memory
use miniblue.Store.Memory.{MemoryBackend}
use miniblue.Store.Memory.Laws.{get-set, lookup-snapshot, get-new}
use miniblue.Store.File.{
  Codec, Disk, Faults, SaveError, FileBackend, tmp_path, load_entries, restore, restore_state,
  new_file, save,
}

or_else {ℓ} : {A : Type ℓ} → Option A → Option A → Option A
or_else none d = d
or_else (some a) d = some a

or_else-none {ℓ} : {A : Type ℓ} (o : Option A) → or_else o none ≡ o
unfolding or_else
or_else-none none = refl
or_else-none (some a) = refl

none≢some {ℓ} : {A : Type ℓ} {a : A} → ◌≢◌ {A = Option A} none (some a)
none≢some e = cc

module _ {V : Type 0} (codec : Codec V) where
  -- What the file holds after a run of Save that ended with `error`.
  abbrev pub outcome : FileBackend V → Disk → Option SaveError → Option String
  outcome f disk none = codec.marshal (Memory.snapshot f.mem)
  outcome f disk (some e) = disk f.path

  -- If Save reports no error, the file is the encoding of the whole map; if it reports one,
  -- whatever failed, the file is as it was.
  pub save_atomic :
      (faults : Faults) (f : FileBackend V) (disk : Disk)
      → (save codec faults f disk).0 f.path ≡ outcome f disk (save codec faults f disk).1
  unfolding save
  save_atomic faults f disk =
      ground
        (arith, eq_refl f.path, eq_iff (tmp_path f.path) f.path, append-ne_self f.path "." "tmp")

  -- Save changes no other file than that one and its temporary neighbour.
  pub save_keeps_others :
      (faults : Faults) (f : FileBackend V) (disk : Disk) (p : String)
      → p ≢ f.path
      → p ≢ tmp_path f.path
      → (save codec faults f disk).0 p ≡ disk p
  unfolding save
  save_keeps_others faults f disk p h i =
      ground (arith, eq_iff f.path p, eq_iff (tmp_path f.path) p)

  load_entries-get :
      (mem : MemoryBackend V) (state : Assoc String) (k : String)
      → IsMap state
      → Memory.get (load_entries codec mem state) k
        ≡ or_else (Option.map codec.decode (lookup k state)) (Memory.get mem k)
  unfolding load_entries lookup or_else
  load_entries-get mem [] k h = refl
  load_entries-get mem ((j, raw) ∷ state) k h = elim (Bool-cases (j == k)) [
    | inl e ↦
        let same : j ≡ k = (eq_iff j k).0 e in
        let gone : lookup k state ≡ none = rw same at h.0 in
        load_entries-get (Memory.set mem j (codec.decode raw)) state k h.1 ∙ rw (get-set, e, gone)
    | inr e ↦ load_entries-get (Memory.set mem j (codec.decode raw)) state k h.1 ∙ rw (get-set, e)
  ]

  saved_bytes :
      (faults : Faults) (f : FileBackend V) (disk : Disk)
      → (save codec faults f disk).1 ≡ none
      → (bytes : String) × (codec.marshal (Memory.snapshot f.mem) ≡ some bytes)
  unfolding save
  saved_bytes faults f disk h = elim (Option-cases (codec.marshal (Memory.snapshot f.mem))) [
    | inl e ↦ absurd (ground arith)
    | inr e ↦ e
  ]

  new_file-get :
      (disk : Disk) (path bytes : String) (state : Assoc String) (k : String)
      → disk path ≡ some bytes
      → codec.unmarshal bytes ≡ some state
      → IsMap state
      → Memory.get (new_file codec disk path).mem k ≡ Option.map codec.decode (lookup k state)
  unfolding new_file or_else
  new_file-get disk path bytes state k e parsed keys =
      rw (e, parsed)
        (load_entries-get Memory.new state k keys
          ∙ rw get-new (or_else-none (Option.map codec.decode (lookup k state))))

  -- encoding/json gives back every key, at the JSON image of its value
  pub record IsFaithful (image : V → V) : Type 0 where
    pub unmarshals :
        (m : Assoc V) (bytes : String)
        → codec.marshal m ≡ some bytes
        → (state : Assoc String) × (codec.unmarshal bytes ≡ some state)
          × IsMap state
          × ((k : String)
              → Option.map codec.decode (lookup k state) ≡ Option.map image (lookup k m))

  -- After a Save that reported no error, a backend that starts from the file answers each key with
  -- the JSON image of the value that the saved backend had for it, and no other key.
  pub restart_get :
      (image : V → V) (faults : Faults) (f : FileBackend V) (disk : Disk) (k : String)
      → IsFaithful image
      → IsMap f.mem.entries
      → (save codec faults f disk).1 ≡ none
      → Memory.get (new_file codec (save codec faults f disk).0 f.path).mem k
        ≡ Option.map image (Memory.get f.mem k)
  restart_get image faults f disk k ok m saved =
      let (bytes, encoded) = saved_bytes faults f disk saved in
      let (state, parsed, keys, same) = ok.unmarshals (Memory.snapshot f.mem) bytes encoded in
      let on_disk : (save codec faults f disk).0 f.path ≡ some bytes =
        save_atomic faults f disk ∙ (rw saved encoded) in
      new_file-get _ f.path bytes state k on_disk parsed keys
      ∙ same k
      ∙ ap (Option.map image) (lookup-snapshot f.mem k m)

  -- What holds of every decoded value holds of every value of a backend that was read from disk.
  module _ (P : V → Type 0) (sound : (raw : String) → P (codec.decode raw)) where
    load_entries-all :
        (mem : MemoryBackend V) (state : Assoc String)
        → ((k : String) (v : V) → Memory.get mem k ≡ some v → P v)
        → (k : String) (v : V) → Memory.get (load_entries codec mem state) k ≡ some v
        → P v
    unfolding load_entries
    load_entries-all mem [] h = h
    load_entries-all mem ((j, raw) ∷ state) h =
        load_entries-all (Memory.set mem j (codec.decode raw)) state
          (λ k v e. set_all mem j raw h k v (rw get-set at e))
      where
        pick :
            (b : Bool) (raw : String) (v : V) (o : Option V)
            → (o ≡ some v → P v)
            → (if b then some (codec.decode raw) else o) ≡ some v
            → P v
        pick true raw v o h e = subst P (some-injective _ _ e) (sound raw)
        pick false raw v o h e = h e

        set_all :
            (mem : MemoryBackend V) (j raw : String)
            → ((k : String) (v : V) → Memory.get mem k ≡ some v → P v)
            → (k : String) (v : V)
            → (if j == k then some (codec.decode raw) else Memory.get mem k) ≡ some v
            → P v
        set_all mem j raw h k v e = pick (j == k) raw v (Memory.get mem k) (h k v) e

    restore-all :
        (path : String) (content : Option String) (k : String) (v : V)
        → Memory.get (restore codec (record { mem = Memory.new; path = path }) content).mem k
          ≡ some v
        → P v
    unfolding restore
    restore-all path none k v e = absurd (none≢some (sym (get-new k) ∙ e))
    restore-all path (some bytes) k v e = parsed (codec.unmarshal bytes) e
      where
        parsed :
            (state : Option (Assoc String))
            → Memory.get
                (restore_state codec (record { mem = Memory.new; path = path }) state).mem
                k
              ≡ some v
            → P v
        parsed none e' = absurd (none≢some (sym (get-new k) ∙ e'))
        parsed (some st) e' =
            load_entries-all Memory.new st (λ j w q. absurd (none≢some (sym (get-new j) ∙ q))) k v
              e'

    pub new_file-all :
        (disk : Disk) (path k : String) (v : V)
        → Memory.get (new_file codec disk path).mem k ≡ some v
        → P v
    unfolding new_file
    new_file-all disk path k v e = restore-all path (disk path) k v e
