-- ===== src/Prelude/Sort/Least.antt =====
-- The head of a sorted list is the least key.
use Prim.Native.String.{String}
use Prim.Native.String.{[] as nil, ◌∷◌ as cons}
use mathlib.Core.Path.{◌≡◌, refl, ap₂, sym, ◌∙◌}
use mathlib.Core.Logic.{inl, inr}
use mathlib.Core.Bool.{true, false, false≢true}
use mathlib.Core.List.{List, [], ◌∷◌}
use native.Mathlib.Omega.{arith}
use text.Mathlib.Text.{◌==◌}
use text.Mathlib.TextEquality.{eq_iff, Char-path}
use text.Mathlib.TextPositions.{eq_refl}
use miniblue.Prelude.Tests.{Bool-cases}
use miniblue.Prelude.Text.{◌++◌}
use miniblue.Prelude.Lists.{contains}
use miniblue.Prelude.Sort.{str_le, insert_sorted, sort_strings}

str_le_antisym : (s t : String) → str_le s t ≡ true → str_le t s ≡ true → s ≡ t
unfolding str_le
str_le_antisym nil nil h k = refl
str_le_antisym nil (cons d t) h k = absurd (ground arith)
str_le_antisym (cons c s) nil h k = absurd (ground arith)
str_le_antisym (cons c s) (cons d t) h k =
    ap₂ (λ x y. cons x y) (Char-path c d (ground arith))
      (str_le_antisym s t (ground arith) (ground arith))

pub str_le-append : (p s t : String) → str_le (p ++ s) (p ++ t) ≡ str_le s t
unfolding str_le ◌++◌
str_le-append nil s t = refl
str_le-append (cons c p) s t = ground (arith, str_le-append p s t)

contains-insert :
    (a j : String) (ks : List String) → contains j (insert_sorted a ks) ≡ contains j (a ∷ ks)
unfolding insert_sorted
contains-insert a j [] = refl
contains-insert a j (k ∷ ks) = ground (arith, contains-insert a j ks)

pub contains-sort : (j : String) (ks : List String) → contains j (sort_strings ks) ≡ contains j ks
unfolding sort_strings
contains-sort j [] = refl
contains-sort j (k ∷ ks) = ground (arith, contains-insert k j (sort_strings ks), contains-sort j ks)

abbrev pub IsLeast : String → List String → Type 0
IsLeast k ks = (j : String) → contains j ks ≡ true → str_le k j ≡ true

contains-head : (k : String) (ks : List String) → contains k (k ∷ ks) ≡ true
contains-head k ks = rw (eq_refl k)

contains-tail :
    (j k : String) (ks : List String) → contains j ks ≡ true → contains j (k ∷ ks) ≡ true
contains-tail j k ks h = ground arith

-- inserting a key that is below every other puts it first
insert-least : (k : String) (ks : List String) → IsLeast k ks → insert_sorted k ks ≡ k ∷ ks
unfolding insert_sorted
insert-least k [] h = refl
insert-least k (j ∷ ks) h = rw (h j (contains-head j ks))

-- inserting a key above the head keeps the head
insert-above :
    (a k : String) (ks : List String)
    → str_le k a ≡ true
    → (k == a) ≡ false
    → (rest : List String) × (insert_sorted a (k ∷ ks) ≡ k ∷ rest)
unfolding insert_sorted
insert-above a k ks h n = elim (Bool-cases (str_le a k)) [
  | inl e ↦ absurd (false≢true (sym n ∙ (eq_iff k a).1 (str_le_antisym k a h e)))
  | inr e ↦ (insert_sorted a ks, rw e)
]

pub sort-least :
    (k : String) (ks : List String)
    → contains k ks ≡ true
    → IsLeast k ks
    → (rest : List String) × (sort_strings ks ≡ k ∷ rest)
unfolding sort_strings
sort-least k [] c h = absurd (false≢true c)
sort-least k (a ∷ ks) c h = elim (Bool-cases (a == k)) [
  | inl e ↦
      let same : a ≡ k = (eq_iff a k).0 e in
      (
        sort_strings ks,
        rw same (
            insert-least k (sort_strings ks)
              (λ j cj. h j (contains-tail j a ks (sym (contains-sort j ks) ∙ cj)))),
      )
  | inr e ↦
      let (rest, eq) = sort-least k ks (rw (e) at c) (λ j cj. h j (contains-tail j a ks cj)) in
      let (more, eq') =
        insert-above a k rest (h a (contains-head a ks)) (ground (arith, eq_iff k a, eq_iff a k)) in
      (more, rw eq eq')
]
