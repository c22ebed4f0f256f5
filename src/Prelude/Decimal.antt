-- ===== src/Prelude/Decimal.antt =====
-- fmt.Sprintf("%d", n) and fmt.Sprintf("%010d", n) for a number that is not negative.
pub mod Order
use Prim.Native.Nat.{ℕ, zero, suc, ◌+◌, ◌/◌, ◌%◌, ◌^◌}
use Prim.Native.Char.{Char}
use Prim.Native.String.{String, [], ◌∷◌}
use mathlib.Core.Bool.{Bool}
use miniblue.Prelude.Tests.{ltb, if◌then◌else◌}

unfoldable pub digit : ℕ → Char
digit zero = "0"
digit (suc zero) = "1"
digit (suc (suc zero)) = "2"
digit (suc (suc (suc zero))) = "3"
digit (suc (suc (suc (suc zero)))) = "4"
digit (suc (suc (suc (suc (suc zero))))) = "5"
digit (suc (suc (suc (suc (suc (suc zero)))))) = "6"
digit (suc (suc (suc (suc (suc (suc (suc zero))))))) = "7"
digit (suc (suc (suc (suc (suc (suc (suc (suc zero)))))))) = "8"
digit (suc (suc (suc (suc (suc (suc (suc (suc (suc n))))))))) = "9"

-- the last `width` digits of a number
unfoldable pub digits : ℕ → ℕ → String
unfolding digit
digits zero n = []
digits (suc width) n = digit (n / 10 ^ width % 10) ∷ digits width (n % 10 ^ width)

-- the number of digits, at most the fuel
width_from : ℕ → ℕ → ℕ
width_from zero n = 1
width_from (suc fuel) n = let rest = width_from fuel (n / 10) in if ltb n 10 then 1 else suc rest

-- %d; a number has at most as many digits as its value, or one
unfoldable pub decimal : ℕ → String
unfolding width_from digits
decimal n = digits (width_from n n) n

-- %010d
unfoldable pub decimal_010 : ℕ → String
unfolding decimal
decimal_010 n = if ltb n (10 ^ 10) then digits 10 n else decimal n
