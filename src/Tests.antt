-- ===== src/Tests.antt =====
-- Concrete inputs of the theorems, one module per part, and what the children share.
mod Groups
mod Access
mod Files
mod Messages
mod Secrets
mod Networks
mod Runs
mod Deploys
mod Tokens
mod Sites
mod Apps
mod Databases
mod Machines
mod Clusters
use mathlib.Core.Bool.{false≢true}
use miniblue.Prelude.{String, ◌≡◌, ◌≢◌, ◌∙◌, sym, false, ◌==◌, eq_iff}
use miniblue.Prelude.Assoc.{Assoc}
use miniblue.Store.{Store, memory}
use miniblue.Value.{Value}

abbrev pub store_of : Assoc Value → Store Value
store_of m = record { backend = memory (record { entries = m }) }

-- two texts that the test tells apart
pub apart : (a b : String) → (a == b) ≡ false → a ≢ b
apart a b h e = false≢true (sym h ∙ (eq_iff a b).1 e)
