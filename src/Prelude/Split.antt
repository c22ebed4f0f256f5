-- ===== src/Prelude/Split.antt =====
-- strings.Split by one character, and strings.Trim of one character.
pub mod Laws
use Prim.Native.Nat.{ℕ}
use Prim.Native.Char.{Char, code}
use Prim.Native.String.{String, [], ◌∷◌}
use mathlib.Core.Bool.{◌&&◌}
use mathlib.Core.Option.{Option, none, some}
use mathlib.Core.List
use mathlib.Core.List.{List}
use text.Mathlib.Text.{◌==◌}
use miniblue.Prelude.Tests.{eqb, if◌then◌else◌}

-- a character before the first part
extend : Char → List String → List String
extend c List.[] = List.◌∷◌ (c ∷ []) List.[]
extend c (List.◌∷◌ part parts) = List.◌∷◌ (c ∷ part) parts

-- strings.Split(s, sep), for a separator of one character, by its code; it has at least one part
unfoldable pub split : (sep : ℕ) → String → List String
unfolding extend
split sep [] = List.◌∷◌ "" List.[]
split sep (c ∷ s) =
    let rest = split sep s in if eqb (code c) sep then List.◌∷◌ "" rest else extend c rest

-- strings.SplitN(s, sep, 2), `none` unless it has two parts
unfoldable pub split_once : (sep : ℕ) → String → Option (String × String)
split_once sep [] = none
split_once sep (c ∷ s) =
    let rest = split_once sep s in
    if eqb (code c) sep
    then some ("", s)
    else elim rest [ none ↦ none | some (a, b) ↦ some (c ∷ a, b) ]

trim_left : (cut : ℕ) → String → String
trim_left cut [] = []
trim_left cut (c ∷ s) = let rest = trim_left cut s in if eqb (code c) cut then rest else c ∷ s

trim_right : (cut : ℕ) → String → String
trim_right cut [] = []
trim_right cut (c ∷ s) =
    let rest = trim_right cut s in if eqb (code c) cut && rest == "" then "" else c ∷ rest

-- strings.Trim(s, cut)
unfoldable pub trim : (cut : ℕ) → String → String
unfolding trim_left trim_right
trim cut s = trim_right cut (trim_left cut s)
