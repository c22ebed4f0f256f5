-- ===== src/Tests/Files.antt =====
-- A file backend with one entry, and a memory backend with three.
use miniblue.Prelude.{
  String, ◌≡◌, refl, arith, true, false, none, some, [], ◌∷◌, ◌==◌, eq_iff, if◌then◌else◌,
  Bool-cases, inl, inr, Option,
}
use mathlib.Core.Option
use mathlib.Core.Option.{some-injective}
use miniblue.Prelude.Assoc.{Assoc, lookup, IsMap}
use miniblue.Store.Memory
use miniblue.Store.Memory.{MemoryBackend}
use miniblue.Store.File.{Codec, Disk, Faults, FileBackend, new_file, save}
use miniblue.Store.File.Persistence.{outcome, save_atomic, IsFaithful, restart_get}
use miniblue.Value.{Value, str}

-- a map with the one key "a", as the text that it holds
abbrev marshal_one : Assoc String → Option String
marshal_one [] = none
marshal_one ((k, v) ∷ []) = if k == "a" then some v else none
marshal_one (x ∷ (y ∷ m)) = none

abbrev one_text : Codec String
one_text = record {
  marshal = marshal_one;
  unmarshal = λ bytes. some (("a", bytes) ∷ []);
  decode = λ raw. raw;
}

abbrev same : String → String
same v = v

lookup_one :
    (k v bytes j : String)
    → (k == "a") ≡ true
    → (if k == "a" then some v else none) ≡ some bytes
    → Option.map same (lookup j (("a", bytes) ∷ [])) ≡ Option.map same (lookup j ((k, v) ∷ []))
unfolding lookup
lookup_one k v bytes j e h =
    let equal : v ≡ bytes = some-injective _ _ (rw e at h) in rw (equal, (eq_iff k "a").0 e)

one_text-IsFaithful : IsFaithful one_text same
one_text-IsFaithful = record { unmarshals = unmarshals }
  where
    unmarshals :
        (m : Assoc String) (bytes : String)
        → marshal_one m ≡ some bytes
        → (state : Assoc String) × (one_text.unmarshal bytes ≡ some state)
          × IsMap state
          × ((k : String)
              → Option.map one_text.decode (lookup k state) ≡ Option.map same (lookup k m))
    unmarshals [] bytes h = absurd (ground arith)
    unmarshals (x ∷ (y ∷ m)) bytes h = absurd (ground arith)
    unmarshals ((k, v) ∷ []) bytes h = elim (Bool-cases (k == "a")) [
      | inl e ↦
          (("a", bytes) ∷ [], refl, (unfold lookup in refl, tt), λ j. lookup_one k v bytes j e h)
      | inr e ↦ absurd (ground arith)
    ]

abbrev works : Faults
works = record { mkdir_fails = false; write_fails = false; torn = none; rename_fails = false }

abbrev torn_write : Faults
torn_write = record {
  mkdir_fails = false;
  write_fails = true;
  torn = some "{";
  rename_fails = false;
}

abbrev backend : FileBackend String
backend = record { mem = record { entries = ("a", "1") ∷ [] }; path = "state.json" }

abbrev old : Disk
old path = some "0"

saves : (save one_text works backend old).1 ≡ none
unfolding save Memory.snapshot
saves = refl

save_atomic_example :
    (save one_text torn_write backend old).0 "state.json"
    ≡ outcome one_text backend old (save one_text torn_write backend old).1
save_atomic_example = save_atomic one_text torn_write backend old

restart_get_example :
    Memory.get (new_file one_text (save one_text works backend old).0 "state.json").mem "a"
    ≡ Option.map same (Memory.get backend.mem "a")
restart_get_example =
    restart_get one_text same works backend old "a" one_text-IsFaithful
      (unfold lookup in (refl, tt)) saves

abbrev three : MemoryBackend Value
three = record {
  entries = ("rg:s1:g1", str "1") ∷ ("rg:s1:g2", str "2") ∷ ("kv:v:a", str "3") ∷ [];
}
