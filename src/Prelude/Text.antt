-- ===== src/Prelude/Text.antt =====
-- Concatenation and `strings.HasPrefix`, by recursion, so that they compute at a literal head.
use Prim.Native.Char.{Char, code}
use Prim.Native.String.{String, [], ◌∷◌}
use mathlib.Core.Path.{◌≡◌, refl, ap, ap₂, ◌∙◌}
use mathlib.Core.Logic.{◌≢◌, inl, inr}
use mathlib.Core.Bool.{Bool, true, false, false≢true}
use native.Mathlib.Omega.{arith}
use text.Mathlib.Text.{◌==◌}
use text.Mathlib.TextEquality.{Char-path, eq_iff}
use text.Mathlib.TextLemmas.{cons-ne-nil}
use miniblue.Prelude.Tests.{eqb, if◌then◌else◌, eqb_iff, Bool-cases}

infixr 65 ◌++◌
unfoldable pub ◌++◌ : String → String → String
[] ++ t = t
(c ∷ s) ++ t = c ∷ (s ++ t)

-- strings.HasPrefix(s, p)
unfoldable pub has_prefix : String → String → Bool
has_prefix s [] = true
has_prefix [] (c ∷ p) = false
has_prefix (d ∷ s) (c ∷ p) = if eqb (code d) (code c) then has_prefix s p else false

pub append_assoc : (s t u : String) → (s ++ t) ++ u ≡ s ++ (t ++ u)
unfolding ◌++◌
append_assoc [] t u = refl
append_assoc (c ∷ s) t u = ap (λ x. c ∷ x) (append_assoc s t u)

pub append-nil : (s : String) → s ++ "" ≡ s
unfolding ◌++◌
append-nil [] = refl
append-nil (c ∷ s) = ap (λ x. c ∷ x) (append-nil s)

-- A common head decides nothing.
pub has_prefix-append : (s t p : String) → has_prefix (s ++ t) (s ++ p) ≡ has_prefix t p
unfolding ◌++◌ has_prefix
has_prefix-append [] t p = refl
has_prefix-append (c ∷ s) t p = ground (arith, has_prefix-append s t p)

pub has_prefix-append_self : (s t : String) → has_prefix (s ++ t) s ≡ true
unfolding ◌++◌ has_prefix
has_prefix-append_self [] t = refl
has_prefix-append_self (c ∷ s) t = ground (arith, has_prefix-append_self s t)

pub append_cancel : (s t u : String) → s ++ t ≡ s ++ u → t ≡ u
unfolding ◌++◌
append_cancel [] t u h = h
append_cancel (c ∷ s) t u h = append_cancel s t u (cc h)

-- A text without the separator `:`.
abbrev pub NoColon : String → Type 0
NoColon [] = Unit
NoColon (c ∷ s) = (code c ≢ b':') × NoColon s

-- Two keys that begin with a colon-free part and a colon: one is a prefix of the other only if
-- the parts are the same.
pub has_prefix-segment :
    (a b s p : String)
    → NoColon a
    → NoColon b
    → has_prefix (a ++ ":" ++ s) (b ++ ":" ++ p) ≡ true
    → a ≡ b
unfolding ◌++◌ has_prefix
has_prefix-segment [] [] s p _ _ h = refl
has_prefix-segment [] (d ∷ b) s p _ nb h = absurd (ground (arith, nb.0))
has_prefix-segment (c ∷ a) [] s p na _ h = absurd (ground (arith, na.0))
has_prefix-segment (c ∷ a) (d ∷ b) s p na nb h = elim (Bool-cases (eqb (code c) (code d))) [
  | inl e ↦
      ap₂ (λ x y. x ∷ y) (Char-path c d ((eqb_iff _ _).0 e))
        (has_prefix-segment a b s p na.1 nb.1 (ground arith))
  | inr e ↦ ground arith
]

-- Keys with different first parts are never a prefix of one another.
pub has_prefix-segment_ne :
    (a b s p : String)
    → NoColon a
    → NoColon b
    → a ≢ b
    → has_prefix (a ++ ":" ++ s) (b ++ ":" ++ p) ≡ false
has_prefix-segment_ne a b s p na nb h =
    elim (Bool-cases (has_prefix (a ++ ":" ++ s) (b ++ ":" ++ p))) [
      | inl e ↦ absurd (h (has_prefix-segment a b s p na nb e))
      | inr e ↦ e
    ]

pub has_prefix-segment_eq :
    (a s p : String) → has_prefix (a ++ ":" ++ s) (a ++ ":" ++ p) ≡ has_prefix s p
has_prefix-segment_eq a s p = has_prefix-append a (":" ++ s) (":" ++ p) ∙ has_prefix-append ":" s p

pub has_prefix_refl : (s : String) → has_prefix s s ≡ true
has_prefix_refl s = rw (append-nil s) at (has_prefix-append_self s "")

-- A key determines its colon-free first part, and then the rest.
pub segment_inj :
    (a b s t : String) → NoColon a → NoColon b → a ++ ":" ++ s ≡ b ++ ":" ++ t → (a ≡ b) × (s ≡ t)
segment_inj a b s t na nb h =
    let e : a ≡ b = has_prefix-segment a b s t na nb (rw h (has_prefix_refl (b ++ ":" ++ t))) in
    (e, append_cancel ":" s t (append_cancel b (":" ++ s) (":" ++ t) (rw e at h)))

-- A text followed by something is another text.
pub append-ne_self : (s : String) (c : Char) (t : String) → s ++ c ∷ t ≢ s
unfolding ◌++◌
append-ne_self [] c t h = absurd (cc h)
append-ne_self (d ∷ s) c t h = append-ne_self s c t (cc h)

pub cons-is_not_empty : (c : Char) (s : String) → (c ∷ s == "") ≡ false
cons-is_not_empty c s = elim (Bool-cases (c ∷ s == "")) [
  | inl e ↦ absurd (cons-ne-nil c s ((eq_iff (c ∷ s) "").0 e))
  | inr e ↦ e
]

pub append-is_not_empty : (s : String) (c : Char) (t : String) → (s ++ c ∷ t == "") ≡ false
unfolding ◌++◌
append-is_not_empty [] c t = cons-is_not_empty c t
append-is_not_empty (d ∷ s) c t = cons-is_not_empty d (s ++ c ∷ t)

-- Two texts that differ at some place, so that neither is a prefix of the other.
abbrev pub differ : String → String → Bool
differ [] t = false
differ (c ∷ s) [] = false
differ (c ∷ s) (d ∷ t) = let rest = differ s t in if eqb (code c) (code d) then rest else true

pub has_prefix_of_differ :
    (a b s p : String) → differ a b ≡ true → has_prefix (a ++ s) (b ++ p) ≡ false
unfolding ◌++◌ has_prefix
has_prefix_of_differ [] b s p h = absurd (false≢true h)
has_prefix_of_differ (c ∷ a) [] s p h = absurd (false≢true h)
has_prefix_of_differ (c ∷ a) (d ∷ b) s p h = ground (arith, has_prefix_of_differ a b s p)
