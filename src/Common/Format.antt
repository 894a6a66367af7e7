-- ===== src/Common/Format.antt =====
-- `fmt.Sprintf` with `%d` and `%s`: decimal numbers, signed ones too, and concatenation.
use Prim.Native.Nat.{ℕ, zero, suc, ◌/◌, ◌%◌}
use Prim.Native.String.{String}
use Prim.Native.String
use astrolabe_server.Common.Int.{ℤ, pos, negsuc}
use astrolabe_server.Common.Tests.{ltb, if◌then◌else◌}

infixr 65 ◌<>◌
abbrev pub ◌<>◌ : String → String → String
s <> t = String.◌++◌ s t

abbrev digit : ℕ → String
digit zero = "0"
digit (suc zero) = "1"
digit (suc (suc zero)) = "2"
digit (suc (suc (suc zero))) = "3"
digit (suc (suc (suc (suc zero)))) = "4"
digit (suc (suc (suc (suc (suc zero))))) = "5"
digit (suc (suc (suc (suc (suc (suc zero)))))) = "6"
digit (suc (suc (suc (suc (suc (suc (suc zero))))))) = "7"
digit (suc (suc (suc (suc (suc (suc (suc (suc zero)))))))) = "8"
digit n = "9"

-- More than `n` rounds are never needed for the digits of `n`.
unfoldable pub decimal_rounds : ℕ → ℕ → String
decimal_rounds zero n = ""
decimal_rounds (suc f) n =
    let front = decimal_rounds f (n / 10) in if ltb n 10 then digit n else front <> digit (n % 10)

unfoldable pub decimal : ℕ → String
unfolding decimal_rounds
decimal n = decimal_rounds (suc n) n

unfoldable pub signed_decimal : ℤ → String
unfolding decimal
signed_decimal (pos n) = decimal n
signed_decimal (negsuc n) = "-" <> decimal (suc n)
