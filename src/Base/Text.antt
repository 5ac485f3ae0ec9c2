-- ===== src/Base/Text.antt =====
-- The `str` operations that the source uses: blank texts, trimming, splitting at a character.
pub mod Split
use Prim.Native.Nat.{ℕ}
use Prim.Native.Char.{Char, code}
use Prim.Native.String.{String, [], ◌∷◌, len, slice}
use mathlib.Core.Bool.{Bool, true, false, ◌&&◌, ◌||◌}
use mathlib.Core.Option.{Option, none, some}
use mathlib.Core.List.{List, [], ◌∷◌}
use mathlib.Core.Path.{◌≡◌, refl}
use text.Mathlib.Text.{starts_with}
use service_sdk.Base.Tests.{leb, eqb, if◌then◌else◌}

-- Unicode `White_Space`, which `char::is_whitespace` tests.
unfoldable pub is_white : Char → Bool
is_white c =
    (leb 9 (code c) && leb (code c) 13)
    || eqb (code c) 32
    || eqb (code c) 0x85
    || eqb (code c) 0xa0
    || eqb (code c) 0x1680
    || (leb 0x2000 (code c) && leb (code c) 0x200a)
    || eqb (code c) 0x2028
    || eqb (code c) 0x2029
    || eqb (code c) 0x202f
    || eqb (code c) 0x205f
    || eqb (code c) 0x3000

-- `s.trim().is_empty()`
unfoldable pub is_blank : String → Bool
unfolding is_white
is_blank [] = true
is_blank (c ∷ s) = is_white c && is_blank s

trim_start : String → String
trim_start [] = []
trim_start (c ∷ s) = elim (is_white c) [ true ↦ trim_start s | false ↦ c ∷ s ]

abbrev close_end : Char → String → String
close_end c [] = if is_white c then [] else c ∷ []
close_end c (d ∷ s) = c ∷ d ∷ s

trim_end : String → String
trim_end [] = []
trim_end (c ∷ s) = close_end c (trim_end s)

unfoldable pub trim : String → String
unfolding trim_start trim_end is_white
trim s = trim_end (trim_start s)

abbrev pub onto {ℓ} : {A : Type ℓ} → Char → Option (String × A) → Option (String × A)
onto c none = none
onto c (some (a, b)) = some (c ∷ a, b)

-- `s.split_once(k)`: at the first occurrence of the character with code `k`
unfoldable pub split_once : ℕ → String → Option (String × String)
split_once k [] = none
split_once k (c ∷ s) = if eqb (code c) k then some ([], s) else onto c (split_once k s)

abbrev later : Char → ℕ → String → Option (String × String) → Option (String × String)
later c k s none = if eqb (code c) k then some ([], s) else none
later c k s (some (a, b)) = some (c ∷ a, b)

-- `s.rsplit_once(k)`: at the last occurrence
unfoldable pub rsplit_once : ℕ → String → Option (String × String)
rsplit_once k [] = none
rsplit_once k (c ∷ s) = later c k s (rsplit_once k s)

abbrev onto_first : Char → List String → List String
onto_first c [] = (c ∷ []) ∷ []
onto_first c (w ∷ ws) = (c ∷ w) ∷ ws

-- `s.split(k)`
unfoldable pub split : ℕ → String → List String
split k [] = [] ∷ []
split k (c ∷ s) = if eqb (code c) k then [] ∷ split k s else onto_first c (split k s)

-- `s.strip_prefix(p)`
abbrev pub strip_prefix : String → String → Option String
strip_prefix p s = if starts_with s p then some (slice s (len p) (len s)) else none

trim_test : trim "  a b\t " ≡ "a b"
unfolding trim
trim_test = refl

split_tests :
    (split b',' "a,,b" ≡ "a" ∷ "" ∷ "b" ∷ [])
    × (split_once b':' "a:b:c" ≡ some ("a", "b:c"))
    × (rsplit_once b':' "a:b:c" ≡ some ("a:b", "c"))
    × (strip_prefix "1:" "1:x" ≡ some "x")
unfolding split split_once rsplit_once
split_tests = (refl, refl, refl, refl)
