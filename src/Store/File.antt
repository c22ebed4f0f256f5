-- ===== src/Store/File.antt =====
-- internal/store/file.go, `FileBackend`: the in-memory map, and its file on disk. The disk is a
-- function from paths to contents. encoding/json and the operating system are not this program's
-- code: the codec and the outcomes of the calls of package os are arguments.
pub mod Persistence
use miniblue.Prelude.{ℕ, String, ◌==◌, ◌++◌, Bool, Option, none, some, List, [], ◌∷◌, if◌then◌else◌}
use miniblue.Prelude.Assoc.{Assoc}
use miniblue.Store.Memory
use miniblue.Store.Memory.{MemoryBackend}

-- encoding/json: a whole state to bytes, bytes to the raw value of each key, a raw value to a value
pub record Codec (V : Type 0) : Type 0 where
  pub marshal : Assoc V → Option String
  pub unmarshal : String → Option (Assoc String)
  pub decode : String → V

abbrev pub Disk : Type 0
Disk = String → Option String

abbrev pub write : Disk → String → Option String → Disk
write disk path content p = if path == p then content else disk p

-- What the calls of package os do in one run of Save. A write that fails may leave anything.
pub record Faults : Type 0 where
  pub mkdir_fails : Bool
  pub write_fails : Bool
  pub torn : Option String
  pub rename_fails : Bool

pub data SaveError : Type 0 where
  marshal_failed mkdir_failed write_failed rename_failed : SaveError

pub record FileBackend (V : Type 0) : Type 0 where
  pub mem : MemoryBackend V
  pub path : String

abbrev pub tmp_path : String → String
tmp_path path = path ++ ".tmp"

module _ {V : Type 0} where
  -- the loop of load
  load_entries : Codec V → MemoryBackend V → Assoc String → MemoryBackend V
  load_entries codec mem [] = mem
  load_entries codec mem ((k, raw) ∷ state) =
      load_entries codec (Memory.set mem k (codec.decode raw)) state

  -- what load does with the file's contents, and with what json.Unmarshal makes of them
  restore_state : Codec V → FileBackend V → Option (Assoc String) → FileBackend V
  unfolding load_entries
  restore_state codec f none = f
  restore_state codec f (some state) = record f { mem = load_entries codec f.mem state }

  restore : Codec V → FileBackend V → Option String → FileBackend V
  unfolding restore_state
  restore codec f none = f
  restore codec f (some bytes) = restore_state codec f (codec.unmarshal bytes)

  unfoldable pub load : Codec V → Disk → FileBackend V → FileBackend V
  unfolding restore
  load codec disk f = restore codec f (disk f.path)

  unfoldable pub new_file : Codec V → Disk → String → FileBackend V
  unfolding load
  new_file codec disk path = load codec disk (record { mem = Memory.new; path = path })

  unfoldable pub save : Codec V → Faults → FileBackend V → Disk → Disk × Option SaveError
  unfolding ◌++◌
  save codec faults f disk = elim (codec.marshal (Memory.snapshot f.mem)) [
    | none ↦ (disk, some marshal_failed)
    | some bytes ↦
        if faults.mkdir_fails
        then (disk, some mkdir_failed)
        else if faults.write_fails
        then (write disk (tmp_path f.path) faults.torn, some write_failed)
        else if faults.rename_fails
        then (write disk (tmp_path f.path) (some bytes), some rename_failed)
        else (write (write disk (tmp_path f.path) none) f.path (some bytes), none)
  ]
