-- ===== src/Prelude/Split/Laws.antt =====
-- Splitting a text at a character that its parts do not have.
use Prim.Native.Nat.{ℕ}
use Prim.Native.Char.{code}
use Prim.Native.String.{String, [], ◌∷◌}
use mathlib.Core.Path.{◌≡◌, refl}
use mathlib.Core.Option.{some}
use native.Mathlib.Omega.{arith}
use miniblue.Prelude.Text.{◌++◌, append-is_not_empty}
use miniblue.Prelude.{◌≢◌, ◌==◌, false}
use miniblue.Prelude.Split.{split_once}

-- a text without a character, by its code
abbrev pub IsWithout : (sep : ℕ) → String → Type 0
IsWithout sep [] = Unit
IsWithout sep (c ∷ s) = (code c ≢ sep) × IsWithout sep s

pub split_once-append :
    (a rest : String) → IsWithout b'/' a → split_once b'/' (a ++ "/" ++ rest) ≡ some (a, rest)
unfolding split_once ◌++◌
split_once-append [] rest n = refl
split_once-append (c ∷ a) rest n = ground (arith, split_once-append a rest n.1, n.0)

-- A text with a separator is not empty.
pub append-slash_ne : (a rest : String) → (a ++ "/" ++ rest == "") ≡ false
unfolding ◌++◌
append-slash_ne a rest = append-is_not_empty a "/" rest
