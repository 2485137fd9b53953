-- ===== src/Shared/Decimal.antt =====
-- `std::to_string` of an unsigned 64-bit number.
use Prim.Native.Nat.{ℕ, zero, suc, ◌/◌, ◌%◌, ◌^◌, ◌-◌}
use Prim.Native.String.{String, ◌++◌}
use mathlib.Core.Path.{◌≡◌, refl}
use graft_ng.Shared.Tests.{if◌then◌else◌, ltb}

digit : ℕ → String
digit zero = "0"
digit (suc zero) = "1"
digit (suc (suc zero)) = "2"
digit (suc (suc (suc zero))) = "3"
digit (suc (suc (suc (suc zero)))) = "4"
digit (suc (suc (suc (suc (suc zero))))) = "5"
digit (suc (suc (suc (suc (suc (suc zero)))))) = "6"
digit (suc (suc (suc (suc (suc (suc (suc zero))))))) = "7"
digit (suc (suc (suc (suc (suc (suc (suc (suc zero)))))))) = "8"
digit (suc (suc (suc (suc (suc (suc (suc (suc (suc n))))))))) = "9"

-- One round for each digit; `rounds` bounds their number.
digits : ℕ → ℕ → String
digits zero n = ""
digits (suc rounds) n =
    let more = digits rounds (n / 10) ++ digit (n % 10) in if ltb n 10 then digit n else more

-- A number below 2 ^ 64 has at most twenty digits.
unfoldable pub to_string : ℕ → String
unfolding digits digit
to_string n = digits 20 n

to_string-largest : to_string (2 ^ 64 - 1) ≡ "18446744073709551615"
unfolding to_string
to_string-largest = refl
