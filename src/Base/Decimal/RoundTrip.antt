-- ===== src/Base/Decimal/RoundTrip.antt =====
-- A printed numeral is read back, and holds nothing but digits.
use Prim.Native.Nat.{ℕ, zero, suc, ◌+◌, ◌-◌, ◌*◌, ◌/◌, ◌%◌, ◌<◌}
use Prim.Native.Char.{Char, code}
use Prim.Native.String.{String, [], ◌∷◌, ◌++◌}
use mathlib.Core.Option.{some}
use mathlib.Core.Path.{◌≡◌, refl, ap, ◌∙◌, sym}
use mathlib.Core.Logic.{inl, inr}
use native.Mathlib.Omega.{arith}
use text.Mathlib.TextLemmas.{cons-append}
use service_sdk.Base.Tests.{ltb, Bool-cases}
use service_sdk.Base.Text.Split.{Free}
use service_sdk.Base.Decimal.{u64_limit, digit_char, emit, decimal, read, parse_u64}

pub code-digit_char : (d : ℕ) → d < 10 → code (digit_char d) ≡ 48 + d
code-digit_char zero h = refl
code-digit_char (suc zero) h = refl
code-digit_char (suc (suc zero)) h = refl
code-digit_char (suc (suc (suc zero))) h = refl
code-digit_char (suc (suc (suc (suc zero)))) h = refl
code-digit_char (suc (suc (suc (suc (suc zero))))) h = refl
code-digit_char (suc (suc (suc (suc (suc (suc zero)))))) h = refl
code-digit_char (suc (suc (suc (suc (suc (suc (suc zero))))))) h = refl
code-digit_char (suc (suc (suc (suc (suc (suc (suc (suc zero)))))))) h = refl
code-digit_char (suc (suc (suc (suc (suc (suc (suc (suc (suc n))))))))) h = omega arith

-- What a numeral written before `t` reads as.
read-emit :
    (rounds n : ℕ) (t : String) → n < rounds → n < u64_limit → read 0 (emit rounds n t) ≡ read n t
unfolding emit read
read-emit zero n t h k = absurd (omega arith)
read-emit (suc rounds) n t h k = elim (Bool-cases (ltb n 10)) [
  | inl small ↦ rw small (ground (arith, code-digit_char (n % 10)))
  | inr large ↦ rw large (
      read-emit rounds (n / 10) (digit_char (n % 10) ∷ t) (ground arith) (omega arith)
      ∙ ground (arith, code-digit_char (n % 10)))
]

read-decimal : (n : ℕ) → n < u64_limit → read 0 (decimal n) ≡ some n
unfolding decimal
read-decimal n h = read-emit (suc n) n [] (omega arith) h ∙ (unfold read in refl)

emit-append : (rounds n : ℕ) (t u : String) → emit rounds n t ++ u ≡ emit rounds n (t ++ u)
unfolding emit
emit-append zero n t u = refl
emit-append (suc rounds) n t u = ground (
  arith,
  emit-append rounds (n / 10) (digit_char (n % 10) ∷ t) u,
  cons-append (digit_char (n % 10)) t u,
)

emit-Free : (k rounds n : ℕ) (t : String) → 57 < k → Free k t → Free k (emit rounds n t)
unfolding emit
emit-Free k zero n t h f = f
emit-Free k (suc rounds) n t h f =
    ground (arith, code-digit_char (n % 10), emit-Free k rounds (n / 10) (digit_char (n % 10) ∷ t))

-- A numeral holds no character above "9", such as a colon or a bar.
pub decimal-Free : (k n : ℕ) → 57 < k → Free k (decimal n)
unfolding decimal
decimal-Free k n h = emit-Free k (suc n) n [] h tt

-- The first character of a numeral is a digit.
emit_starts :
    (rounds n : ℕ) (t : String)
    → n < rounds
    → (c : Char) × (s : String) × (emit rounds n t ≡ c ∷ s) × (code c < 58) × (47 < code c)
unfolding emit
emit_starts zero n t h = absurd (omega arith)
emit_starts (suc rounds) n t h = elim (Bool-cases (ltb n 10)) [
  | inl small ↦ rw small (
    digit_char (n % 10),
    t,
    refl,
    omega (arith, code-digit_char (n % 10)),
    omega (arith, code-digit_char (n % 10)),
  )
  | inr large ↦ rw large (emit_starts rounds (n / 10) (digit_char (n % 10) ∷ t) (ground arith))
]

parse_u64_of_digit : (c : Char) (s : String) → 47 < code c → parse_u64 (c ∷ s) ≡ read 0 (c ∷ s)
unfolding parse_u64
parse_u64_of_digit c [] h = refl
parse_u64_of_digit c (d ∷ s) h = ground arith

-- Reading back a printed number.
pub parse_u64-decimal : (n : ℕ) → n < u64_limit → parse_u64 (decimal n) ≡ some n
unfolding decimal
parse_u64-decimal n h =
    let (c, s, e, _, low) = emit_starts (suc n) n [] (omega arith) in
    ap parse_u64 e ∙ parse_u64_of_digit c s low ∙ sym (ap (read 0) e) ∙ read-decimal n h

-- The number that a text of digits stands for, with no bound.
value : ℕ → String → ℕ
value acc [] = acc
value acc (c ∷ s) = value (acc * 10 + (code c - 48)) s

value-emit : (rounds n : ℕ) (t : String) → n < rounds → value 0 (emit rounds n t) ≡ value n t
unfolding emit value
value-emit zero n t h = absurd (omega arith)
value-emit (suc rounds) n t h = elim (Bool-cases (ltb n 10)) [
  | inl small ↦ rw small (ap (λ m. value m t) (ground (arith, code-digit_char (n % 10))))
  | inr large ↦ rw large (
      value-emit rounds (n / 10) (digit_char (n % 10) ∷ t) (ground arith)
      ∙ ap (λ m. value m t) (ground (arith, code-digit_char (n % 10))))
]

value-decimal : (n : ℕ) → value 0 (decimal n) ≡ n
unfolding decimal value
value-decimal n = value-emit (suc n) n [] (omega arith)

-- Different numbers are printed differently.
pub decimal_inj : (n m : ℕ) → decimal n ≡ decimal m → n ≡ m
decimal_inj n m h = sym (value-decimal n) ∙ ap (value 0) h ∙ value-decimal m
