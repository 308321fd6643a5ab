-- ===== src/Prelude/Text.antt =====
-- `str` of a number: its decimal digits.
use Prim.Native.String.{String, ◌++◌}
use Prim.Native.Nat.{ℕ, zero, suc, ◌+◌, ◌/◌, ◌%◌}
use mathlib.Core.Path.{◌≡◌, refl}
use predictive_consistent_ha.Prelude.Tests.{ltb, if◌then◌else◌}

digit : ℕ → String
digit zero = "0"
digit (suc zero) = "1"
digit (suc (suc zero)) = "2"
digit (suc (suc (suc zero))) = "3"
digit (suc (suc (suc (suc zero)))) = "4"
digit (suc (suc (suc (suc (suc zero))))) = "5"
digit (suc (suc (suc (suc (suc (suc zero)))))) = "6"
digit (suc (suc (suc (suc (suc (suc (suc zero))))))) = "7"
digit (suc (suc (suc (suc (suc (suc (suc (suc zero)))))))) = "8"
digit (suc (suc (suc (suc (suc (suc (suc (suc (suc n))))))))) = "9"

-- A number below `10 ^ f` has at most `f` digits; `n + 1` rounds are enough for every `n`.
decimal : ℕ → ℕ → String
unfolding digit
decimal zero n = ""
decimal (suc f) n =
    let front = decimal f (n / 10) in if ltb n 10 then digit n else front ++ digit (n % 10)

unfoldable pub str : ℕ → String
unfolding decimal
str n = decimal (n + 1) n

str_runs : str 340282366920938463463374607431768211455 ≡ "340282366920938463463374607431768211455"
unfolding str
str_runs = refl
