-- ===== src/Store.antt =====
-- internal/store: the key-value store behind every handler (memory.go from line 123 on, and
-- backend.go). A method of `Store` is a call of the backend that it wraps. PostgresBackend talks SQL
-- to a server that is not this program's, and is left out.
pub mod Memory
pub mod File
pub mod Laws
pub mod Contract
pub mod Refinement
use miniblue.Prelude.{ℕ, String, Bool, true, false, Option, none, some, List, if◌then◌else◌}
use miniblue.Store.Memory
use miniblue.Store.Memory.{MemoryBackend}
use miniblue.Store.File
use miniblue.Store.File.{FileBackend, Codec, Disk, Faults, SaveError}

pub data Backend (V : Type 0) : Type 0 where
  memory : MemoryBackend V → Backend V
  file : FileBackend V → Backend V

pub record Store (V : Type 0) : Type 0 where
  pub backend : Backend V

module _ {V : Type 0} where
  -- the map that both backends keep
  pub mem : Backend V → MemoryBackend V
  mem (memory b) = b
  mem (file f) = f.mem

  pub with_mem : Backend V → MemoryBackend V → Backend V
  with_mem (memory _) b = memory b
  with_mem (file f) b = file (record f { mem = b })

  unfoldable pub new : Store V
  unfolding Memory.new
  new = record { backend = memory Memory.new }

  unfoldable pub new_with_backend : Backend V → Store V
  new_with_backend b = record { backend = b }

  unfoldable pub set : Store V → String → V → Store V
  unfolding Memory.set mem with_mem
  set s key value = record { backend = with_mem s.backend (Memory.set (mem s.backend) key value) }

  unfoldable pub get : Store V → String → Option V
  unfolding Memory.get mem
  get s key = Memory.get (mem s.backend) key

  unfoldable pub exists : Store V → String → Bool
  unfolding Memory.exists mem
  exists s key = Memory.exists (mem s.backend) key

  unfoldable pub set_if_not_exists : Store V → String → V → Store V × Bool
  unfolding set exists
  set_if_not_exists s key value = if exists s key then (s, false) else (set s key value, true)

  unfoldable pub delete : Store V → String → Store V × Bool
  unfolding Memory.delete mem with_mem
  delete s key =
      let (b, found) = Memory.delete (mem s.backend) key in
      (record { backend = with_mem s.backend b }, found)

  unfoldable pub list : Store V → List String
  unfolding Memory.list mem
  list s = Memory.list (mem s.backend)

  unfoldable pub list_by_prefix : Store V → String → List V
  unfolding Memory.list_by_prefix mem
  list_by_prefix s prefix = Memory.list_by_prefix (mem s.backend) prefix

  -- Only the memory backend filters: the fallback lists every key.
  keys_by_prefix : Backend V → String → List String
  unfolding Memory.list_keys_by_prefix Memory.list
  keys_by_prefix (memory b) prefix = Memory.list_keys_by_prefix b prefix
  keys_by_prefix (file f) prefix = Memory.list f.mem

  unfoldable pub list_keys_by_prefix : Store V → String → List String
  unfolding keys_by_prefix
  list_keys_by_prefix s prefix = keys_by_prefix s.backend prefix

  unfoldable pub count_by_prefix : Store V → String → ℕ
  unfolding Memory.count_by_prefix mem
  count_by_prefix s prefix = Memory.count_by_prefix (mem s.backend) prefix

  unfoldable pub delete_by_prefix : Store V → String → Store V × ℕ
  unfolding Memory.delete_by_prefix mem with_mem
  delete_by_prefix s prefix =
      let (b, count) = Memory.delete_by_prefix (mem s.backend) prefix in
      (record { backend = with_mem s.backend b }, count)

  unfoldable pub reset : Store V → Store V
  unfolding Memory.reset mem with_mem
  reset s = record { backend = with_mem s.backend (Memory.reset (mem s.backend)) }

  save_backend : Codec V → Faults → Backend V → Disk → Disk × Option SaveError
  unfolding File.save
  save_backend codec faults (memory b) disk = (disk, none)
  save_backend codec faults (file f) disk = File.save codec faults f disk

  unfoldable pub save : Codec V → Faults → Store V → Disk → Disk × Option SaveError
  unfolding save_backend
  save codec faults s disk = save_backend codec faults s.backend disk
