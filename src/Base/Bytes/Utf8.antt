-- ===== src/Base/Bytes/Utf8.antt =====
-- UTF-8 tells texts apart.
use Prim.Native.Nat.{ℕ, ◌<◌}
use Prim.Native.Char.{Char, char, code}
use Prim.Native.String.{String, [], ◌∷◌}
use mathlib.Core.List.{[], ◌∷◌, ◌++◌}
use mathlib.Core.Path.{◌≡◌, refl, sym}
use mathlib.Core.Logic.{◌≢◌}
use native.Mathlib.Omega.{arith}
use text.Mathlib.TextEquality.{Char-path}
use service_sdk.Base.Bytes.{Bytes, utf8_char, as_bytes}

utf8_char_inj :
    (c d : ℕ) (r s : Bytes)
    → c < 0x110000
    → d < 0x110000
    → utf8_char c ++ r ≡ utf8_char d ++ s
    → (c ≡ d) × (r ≡ s)
unfolding utf8_char
utf8_char_inj c d r s hc hd h = ground arith

code-lt : (c : Char) → code c < 0x110000
code-lt (char n p) = ground arith

utf8_char-ne-nil : (c : ℕ) (r : Bytes) → utf8_char c ++ r ≢ []
unfolding utf8_char
utf8_char-ne-nil c r h = ground arith

pub as_bytes_inj : (s t : String) → as_bytes s ≡ as_bytes t → s ≡ t
unfolding as_bytes
as_bytes_inj [] [] h = refl
as_bytes_inj [] (d ∷ t) h = absurd (utf8_char-ne-nil (code d) (as_bytes t) (sym h))
as_bytes_inj (c ∷ s) [] h = absurd (utf8_char-ne-nil (code c) (as_bytes s) h)
as_bytes_inj (c ∷ s) (d ∷ t) h =
    let (codes, rest) =
      utf8_char_inj (code c) (code d) (as_bytes s) (as_bytes t) (code-lt c) (code-lt d) h in
    cc (Char-path c d codes, as_bytes_inj s t rest)
