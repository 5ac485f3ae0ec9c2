-- ===== src/Base/Decimal.antt =====
-- Decimal numerals: Rust's `Display` of `u64` and `usize`, and `str::parse::<u64>`.
pub mod RoundTrip
use Prim.Native.Nat.{ℕ, zero, suc, ◌+◌, ◌-◌, ◌*◌, ◌/◌, ◌%◌, ◌^◌}
use Prim.Native.Char.{Char, code}
use Prim.Native.String.{String, [], ◌∷◌}
use mathlib.Core.Bool.{Bool, ◌&&◌, true, false}
use mathlib.Core.Option.{Option, none, some}
use mathlib.Core.Path.{◌≡◌, refl}
use service_sdk.Base.Tests.{ltb, leb, eqb, if◌then◌else◌}

abbrev pub u64_limit : ℕ
u64_limit = 2 ^ 64

abbrev pub digit_char : ℕ → Char
digit_char zero = "0"
digit_char (suc zero) = "1"
digit_char (suc (suc zero)) = "2"
digit_char (suc (suc (suc zero))) = "3"
digit_char (suc (suc (suc (suc zero)))) = "4"
digit_char (suc (suc (suc (suc (suc zero))))) = "5"
digit_char (suc (suc (suc (suc (suc (suc zero)))))) = "6"
digit_char (suc (suc (suc (suc (suc (suc (suc zero))))))) = "7"
digit_char (suc (suc (suc (suc (suc (suc (suc (suc zero)))))))) = "8"
digit_char _ = "9"

-- The last digit is written first. `suc n` rounds are enough.
emit : ℕ → ℕ → String → String
emit zero n out = out
emit (suc rounds) n out =
    let more = emit rounds (n / 10) (digit_char (n % 10) ∷ out) in
    if ltb n 10 then digit_char (n % 10) ∷ out else more

unfoldable pub decimal : ℕ → String
unfolding emit
decimal n = emit (suc n) n []

abbrev pub is_digit : Char → Bool
is_digit c = leb b'0' (code c) && leb (code c) b'9'

-- Each digit is added with an overflow check.
read : ℕ → String → Option ℕ
read acc [] = some acc
read acc (c ∷ s) =
    let acc' = acc * 10 + (code c - b'0') in
    elim (is_digit c && ltb acc' u64_limit) [ true ↦ read acc' s | false ↦ none ]

-- A leading plus sign is accepted, a text with no digit is not.
unfoldable pub parse_u64 : String → Option ℕ
unfolding read
parse_u64 [] = none
parse_u64 (c ∷ []) = read 0 (c ∷ [])
parse_u64 (c ∷ d ∷ s) = if eqb (code c) b'+' then read 0 (d ∷ s) else read 0 (c ∷ d ∷ s)

decimal_tests : (decimal 0 ≡ "0") × (decimal 1070 ≡ "1070")
unfolding decimal
decimal_tests = (refl, refl)

parse_tests :
    (parse_u64 "+007" ≡ some 7) × (parse_u64 "+" ≡ none) × (parse_u64 "18446744073709551616" ≡ none)
unfolding parse_u64
parse_tests = (refl, refl, refl)
