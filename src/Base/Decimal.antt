-- ===== src/Base/Decimal.antt =====
-- A natural number in a template literal: its decimal digits.
pub mod Reading
use Prim.Native.Nat.{ℕ, zero, suc, ◌/◌, ◌%◌}
use Prim.Native.String
use mathlib.Core.List.{List, [], ◌∷◌}
use Prim.Native.String.{String}
use casecellshop.Base.Tests.{ltb, if◌then◌else◌}

abbrev pub nth_digit : List String → ℕ → String
nth_digit [] n = ""
nth_digit (d ∷ ds) zero = d
nth_digit (d ∷ ds) (suc n) = nth_digit ds n

abbrev pub ten_digits : List String
ten_digits = "0" ∷ "1" ∷ "2" ∷ "3" ∷ "4" ∷ "5" ∷ "6" ∷ "7" ∷ "8" ∷ "9" ∷ []

-- The digit of a number below ten.
abbrev pub digit : ℕ → String
digit = nth_digit ten_digits

-- The fuel bounds the number of digits.
unfoldable pub decimal_from : ℕ → ℕ → String
decimal_from zero n = ""
decimal_from (suc fuel) n =
    let rest = String.◌++◌ (decimal_from fuel (n / 10)) (digit (n % 10)) in
    if ltb n 10 then digit n else rest

-- A number has fewer digits than its successor counts.
unfoldable pub decimal : ℕ → String
unfolding decimal_from
decimal n = decimal_from (suc n) n
