-- ===== src/Common/Decimal.antt =====
-- `str(n)` of Python, on natural numbers.
use Prim.Native.Nat.{ℕ, zero, suc, ◌+◌, ◌/◌, ◌%◌}
use Prim.Native.String.{String, ◌++◌ as ◌<>◌, slice}
use scripthut.Common.Tests.{ltb, if◌then◌else◌}

abbrev digit : ℕ → String
digit n = slice "0123456789" n (n + 1)

-- On fuel for each digit.
unfoldable pub decimal_on : ℕ → ℕ → String
decimal_on zero n = ""
decimal_on (suc fuel) n =
    let front = decimal_on fuel (n / 10) in if ltb n 10 then digit n else front <> digit (n % 10)

-- A number has no more digits than it counts, but for 0.
unfoldable pub decimal : ℕ → String
unfolding decimal_on
decimal n = decimal_on (suc n) n
