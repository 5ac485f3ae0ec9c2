-- ===== src/Base/Bytes.antt =====
-- Bytes: UTF-8, eight bytes in big-endian order, lowercase hexadecimal.
pub mod Framing
pub mod Utf8
pub mod Hex
pub mod Digest
use Prim.Native.Nat.{ℕ, ◌+◌, ◌-◌, ◌*◌, ◌/◌, ◌%◌, ◌^◌}
use Prim.Native.Char.{Char, code}
use Prim.Native.String.{String, [], ◌∷◌}
use mathlib.Core.List.{List, [], ◌∷◌, ◌++◌}
use mathlib.Core.Path.{◌≡◌, refl}
use service_sdk.Base.Tests.{ltb, if◌then◌else◌}
use service_sdk.Base.Lists.{length}

abbrev pub Bytes : Type 0
Bytes = List ℕ

utf8_char : ℕ → Bytes
utf8_char c =
    if ltb c 0x80
    then c ∷ []
    else if ltb c 0x800
    then (0xc0 + c / 64) ∷ (0x80 + c % 64) ∷ []
    else if ltb c 0x10000
    then (0xe0 + c / 4096) ∷ (0x80 + c / 64 % 64) ∷ (0x80 + c % 64) ∷ []
    else (0xf0 + c / 262144) ∷ (0x80 + c / 4096 % 64) ∷ (0x80 + c / 64 % 64) ∷ (0x80 + c % 64) ∷ []

-- `s.as_bytes()`
unfoldable pub as_bytes : String → Bytes
unfolding utf8_char
as_bytes [] = []
as_bytes (c ∷ s) = utf8_char (code c) ++ as_bytes s

-- `(n as u64).to_be_bytes()`
unfoldable pub to_be_bytes : ℕ → Bytes
to_be_bytes n =
    (n / 2 ^ 56 % 256)
    ∷ (n / 2 ^ 48 % 256)
    ∷ (n / 2 ^ 40 % 256)
    ∷ (n / 2 ^ 32 % 256)
    ∷ (n / 2 ^ 24 % 256)
    ∷ (n / 2 ^ 16 % 256)
    ∷ (n / 2 ^ 8 % 256)
    ∷ (n % 256)
    ∷ []

-- What the hash is updated with for each part: its length, then its bytes.
unfoldable pub frame : List Bytes → Bytes
unfolding to_be_bytes
frame [] = []
frame (part ∷ parts) = to_be_bytes (length part) ++ part ++ frame parts

bytes_test : as_bytes "aé" ≡ 97 ∷ 0xc3 ∷ 0xa9 ∷ []
unfolding as_bytes
bytes_test = refl
