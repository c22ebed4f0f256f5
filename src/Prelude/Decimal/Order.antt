-- ===== src/Prelude/Decimal/Order.antt =====
-- Decimals of a fixed width in the order of texts.
use Prim.Native.Nat.{ℕ, zero, suc, ◌+◌, ◌*◌, ◌/◌, ◌%◌, ◌^◌, ◌≤◌, ◌<◌}
use Prim.Native.Char.{Char, code}
use Prim.Native.String.{String, ◌∷◌}
use mathlib.Core.Path.{◌≡◌, refl, ap}
use mathlib.Core.Logic.{◌⊎◌, inl, inr}
use mathlib.Core.Bool.{true}
use native.Mathlib.Omega.{arith}
use native.Mathlib.Decide.{dec_lt, ℕ_discrete}
use native.Mathlib.Nat.{mod-lt, div-add-mod, pow-suc}
use miniblue.Prelude.Tests.{ltb}
use miniblue.Prelude.Sort.{str_le}
use miniblue.Prelude.Decimal.{digit, digits, decimal_010}

code-digit : (d : ℕ) → d < 10 → code (digit d) ≡ 48 + d
unfolding digit
code-digit zero h = refl
code-digit (suc zero) h = refl
code-digit (suc (suc zero)) h = refl
code-digit (suc (suc (suc zero))) h = refl
code-digit (suc (suc (suc (suc zero)))) h = refl
code-digit (suc (suc (suc (suc (suc zero))))) h = refl
code-digit (suc (suc (suc (suc (suc (suc zero)))))) h = refl
code-digit (suc (suc (suc (suc (suc (suc (suc zero))))))) h = refl
code-digit (suc (suc (suc (suc (suc (suc (suc (suc zero)))))))) h = refl
code-digit (suc (suc (suc (suc (suc (suc (suc (suc (suc zero))))))))) h = refl
code-digit (suc (suc (suc (suc (suc (suc (suc (suc (suc (suc n)))))))))) h = absurd (omega arith)

pow_pos : (w : ℕ) → 0 < 10 ^ w
pow_pos zero = omega arith
pow_pos (suc w) = rw (pow-suc 10 w) (omega (arith, pow_pos w))

-- the leading digit of a number of at most `w + 1` digits
leading : (d n : ℕ) → 0 < d → n < 10 * d → n / d < 10
leading d n p h = grind arith

mul_gap : (d q r : ℕ) → q < r → d * q + d ≤ d * r
mul_gap d q r h = grind arith

-- a smaller number has a smaller leading digit, or the same and a smaller rest
div_mod_le : (d i j : ℕ) → 0 < d → i ≤ j → (i / d < j / d) ⊎ ((i / d ≡ j / d) × (i % d ≤ j % d))
div_mod_le d i j p h = elim (dec_lt (i / d) (j / d)) [
  | yes l ↦ inl l
  | no l ↦ elim (ℕ_discrete (i / d) (j / d)) [
    | yes e ↦ inr (e, omega (arith, div-add-mod i d, div-add-mod j d, ap (λ t. d * t) e))
    | no n ↦ absurd (
        omega (
          arith,
          mul_gap d (j / d) (i / d) (omega arith),
          div-add-mod i d,
          div-add-mod j d,
          mod-lt j p,
        ))
  ]
]

lt→ltb : (a b : ℕ) → a < b → ltb a b ≡ true
lt→ltb a b h = ground arith

str_le_lt : (c d : Char) (s t : String) → code c < code d → str_le (c ∷ s) (d ∷ t) ≡ true
unfolding str_le
str_le_lt c d s t h = ground arith

str_le_same :
    (c d : Char) (s t : String)
    → code c ≡ code d
    → str_le s t ≡ true
    → str_le (c ∷ s) (d ∷ t) ≡ true
unfolding str_le
str_le_same c d s t e h = ground arith

pub digits_le : (w i j : ℕ) → i ≤ j → j < 10 ^ w → str_le (digits w i) (digits w j) ≡ true
unfolding digits str_le
digits_le zero i j h k = refl
digits_le (suc w) i j h k =
    let d = 10 ^ w in
    let p = pow_pos w in
    let small : j < 10 * d = omega (arith, pow-suc 10 w) in
    let lj = leading d j p small in
    let li = leading d i p (omega arith) in
    elim (div_mod_le d i j p h) [
      | inl l ↦
          str_le_lt (digit (i / d % 10)) (digit (j / d % 10)) (digits w (i % d)) (digits w (j % d))
            (omega
              (arith, code-digit (i / d % 10) (omega arith), code-digit (j / d % 10) (omega arith)))
      | inr (e, r) ↦
          str_le_same (digit (i / d % 10)) (digit (j / d % 10)) (digits w (i % d))
            (digits w (j % d)) (ap (λ q. code (digit (q % 10))) e)
            (digits_le w (i % d) (j % d) r (mod-lt j p))
    ]

decimal_010-small : (n : ℕ) → n < 10 ^ 10 → decimal_010 n ≡ digits 10 n
decimal_010-small n h = unfold decimal_010 in rw (lt→ltb n (10 ^ 10) h)

-- Numbers of at most ten digits sort by value.
pub decimal_010_le : (i j : ℕ) → i ≤ j → j < 10 ^ 10 → str_le (decimal_010 i) (decimal_010 j) ≡ true
decimal_010_le i j h k =
    rw (decimal_010-small i (omega arith), decimal_010-small j k) (digits_le 10 i j h k)
