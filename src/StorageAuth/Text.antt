-- ===== src/StorageAuth/Text.antt =====
-- The text routines of internal/storageauth/sharedkey.go: collapseSpace, and the standard library's
-- strings.TrimSpace, strings.Join and strings.LastIndex as that file uses them.
use Prim.Native.Char.{code}
use Prim.Native.String.{String, [], ◌∷◌}
use mathlib.Core.Bool.{Bool, true, false, not, ◌&&◌, ◌||◌}
use mathlib.Core.Option.{Option, none, some}
use mathlib.Core.List.{List}
use Prim.Native.Nat.{ℕ}
use text.Mathlib.Text.{◌==◌}
use miniblue.Prelude.{eqb, leb, if◌then◌else◌, ◌++◌}

-- the four characters that collapseSpace tests
abbrev pub is_blank : ℕ → Bool
is_blank r = eqb r 32 || eqb r 9 || eqb r 10 || eqb r 13

-- unicode.IsSpace
abbrev pub is_space : ℕ → Bool
is_space r =
    leb 9 r && leb r 13
    || eqb r 32
    || eqb r 0x85
    || eqb r 0xa0
    || eqb r 0x1680
    || leb 0x2000 r && leb r 0x200a
    || eqb r 0x2028
    || eqb r 0x2029
    || eqb r 0x202f
    || eqb r 0x205f
    || eqb r 0x3000

unfoldable pub trim_left : String → String
trim_left [] = []
trim_left (c ∷ s) = let rest = trim_left s in if is_space (code c) then rest else c ∷ s

unfoldable pub trim_right : String → String
trim_right [] = []
trim_right (c ∷ s) =
    let rest = trim_right s in if is_space (code c) && rest == "" then "" else c ∷ rest

-- strings.TrimSpace
unfoldable pub trim_space : String → String
unfolding trim_left trim_right
trim_space s = trim_right (trim_left s)

-- The loop of collapseSpace, what it still writes: `space` is its variable, and `written` is
-- `b.Len() > 0`.
unfoldable pub collapse_from : (space written : Bool) → String → String
collapse_from space written [] = []
collapse_from space written (r ∷ s) =
    let blank = collapse_from true written s in
    let skipped = collapse_from space written s in
    let kept = collapse_from false true s in
    if is_blank (code r) then (if not space && written then " " ++ blank else skipped) else r ∷ kept

unfoldable pub collapse_space : String → String
unfolding collapse_from trim_space ◌++◌
collapse_space s = trim_space (collapse_from false false s)

-- strings.Join(vals, ",")
unfoldable pub join_commas : List String → String
unfolding ◌++◌
join_commas List.[] = ""
join_commas (List.◌∷◌ v List.[]) = v
join_commas (List.◌∷◌ v (List.◌∷◌ w ws)) = v ++ "," ++ join_commas (List.◌∷◌ w ws)

-- what stands before and after the last `:`, as strings.LastIndex finds it
unfoldable pub split_last_colon : String → Option (String × String)
split_last_colon [] = none
split_last_colon (c ∷ s) = elim (split_last_colon s) [
  | some (a, b) ↦ some (c ∷ a, b)
  | none ↦ if eqb (code c) b':' then some ("", s) else none
]

-- s[len(p):], for a text with this prefix
unfoldable pub drop_prefix : String → String → String
drop_prefix [] s = s
drop_prefix (c ∷ p) [] = []
drop_prefix (c ∷ p) (d ∷ s) = drop_prefix p s
