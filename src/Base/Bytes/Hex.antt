-- ===== src/Base/Bytes/Hex.antt =====
-- Lowercase hexadecimal: two digits for each byte.
use Prim.Native.Nat.{ℕ, zero, suc, ◌+◌, ◌-◌, ◌/◌, ◌%◌, ◌<◌}
use Prim.Native.Char.{Char, code}
use Prim.Native.String.{String, [], ◌∷◌}
use mathlib.Core.List.{[], ◌∷◌}
use mathlib.Core.Path.{◌≡◌, refl, ap}
use mathlib.Core.Logic.{◌≢◌}
use native.Mathlib.Omega.{arith}
use text.Mathlib.TextLemmas.{head-eq_of_cons-eq, tail-eq_of_cons-eq, nil≢cons, cons≢nil}
use service_sdk.Base.Tests.{ltb, if◌then◌else◌}
use service_sdk.Base.Lists.{All}
use service_sdk.Base.Decimal.{digit_char}
use service_sdk.Base.Decimal.RoundTrip.{code-digit_char}
use service_sdk.Base.Text.Split.{Free}
use service_sdk.Base.Bytes.{Bytes}

abbrev letter : ℕ → Char
letter zero = "a"
letter (suc zero) = "b"
letter (suc (suc zero)) = "c"
letter (suc (suc (suc zero))) = "d"
letter (suc (suc (suc (suc zero)))) = "e"
letter _ = "f"

hex_char : ℕ → Char
hex_char d = if ltb d 10 then digit_char d else letter (d - 10)

unfoldable pub hex : Bytes → String
unfolding hex_char
hex [] = []
hex (b ∷ bytes) = hex_char (b / 16) ∷ (hex_char (b % 16) ∷ hex bytes)

code-letter : (d : ℕ) → d < 6 → code (letter d) ≡ 97 + d
code-letter zero h = refl
code-letter (suc zero) h = refl
code-letter (suc (suc zero)) h = refl
code-letter (suc (suc (suc zero))) h = refl
code-letter (suc (suc (suc (suc zero)))) h = refl
code-letter (suc (suc (suc (suc (suc n))))) h = omega arith

code-hex_char : (d : ℕ) → d < 16 → code (hex_char d) ≡ (if ltb d 10 then 48 + d else 87 + d)
unfolding hex_char
code-hex_char d h = ground (arith, code-digit_char d, code-letter (d - 10))

hex_char_inj : (d e : ℕ) → d < 16 → e < 16 → hex_char d ≡ hex_char e → d ≡ e
hex_char_inj d e hd he h = ground (arith, code-hex_char d hd, code-hex_char e he, ap code h)

abbrev pub IsBytes : Bytes → Type 0
IsBytes = All (λ b. b < 256)

pub hex_inj : (s t : Bytes) → IsBytes s → IsBytes t → hex s ≡ hex t → s ≡ t
unfolding hex
hex_inj [] [] hs ht h = refl
hex_inj [] (c ∷ t) hs ht h = absurd (nil≢cons h)
hex_inj (b ∷ s) [] hs ht h = absurd (cons≢nil h)
hex_inj (b ∷ s) (c ∷ t) (hb, hs) (hc, ht) h =
    let high = hex_char_inj (b / 16) (c / 16) (omega arith) (omega arith) (head-eq_of_cons-eq h) in
    let low =
      hex_char_inj (b % 16) (c % 16) (omega arith) (omega arith)
        (head-eq_of_cons-eq (tail-eq_of_cons-eq h)) in
    let same : b ≡ c = omega arith in
    cc (same, hex_inj s t hs ht (tail-eq_of_cons-eq (tail-eq_of_cons-eq h)))

-- No character but the sixteen digits.
pub hex-Free : (k : ℕ) (s : Bytes) → 57 < k → k < 97 → IsBytes s → Free k (hex s)
unfolding hex
hex-Free k [] h l o = tt
hex-Free k (b ∷ s) h l (o, os) =
    (free (b / 16) (omega arith), (free (b % 16) (omega arith), hex-Free k s h l os))
  where
    free : (d : ℕ) → d < 16 → code (hex_char d) ≢ k
    free d small = ground (arith, code-hex_char d small)
