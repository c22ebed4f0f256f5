-- ===== src/Prelude/Sort.antt =====
-- sort.Strings: the byte order of UTF-8 is the order of the code points.
pub mod Least
use Prim.Native.Char.{Char, code}
use Prim.Native.String.{String, [], ◌∷◌}
use mathlib.Core.Bool.{Bool, true, false}
use mathlib.Core.List
use mathlib.Core.List.{List}
use miniblue.Prelude.Tests.{ltb, eqb, if◌then◌else◌}

-- s <= t
unfoldable pub str_le : String → String → Bool
str_le [] t = true
str_le (c ∷ s) [] = false
str_le (c ∷ s) (d ∷ t) =
    let rest = str_le s t in
    if ltb (code c) (code d) then true else if eqb (code c) (code d) then rest else false

unfoldable pub insert_sorted : String → List String → List String
unfolding str_le
insert_sorted k List.[] = List.◌∷◌ k List.[]
insert_sorted k (List.◌∷◌ j js) =
    let rest = insert_sorted k js in
    if str_le k j then List.◌∷◌ k (List.◌∷◌ j js) else List.◌∷◌ j rest

unfoldable pub sort_strings : List String → List String
unfolding insert_sorted
sort_strings List.[] = List.[]
sort_strings (List.◌∷◌ k ks) = insert_sorted k (sort_strings ks)
