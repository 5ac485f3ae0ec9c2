-- ===== src/Base/Bytes/Digest.antt =====
-- The framed SHA-256 of a list of parts, and what equal digests say.
use mathlib.Core.List.{List}
use mathlib.Core.Path.{◌≡◌}
use mathlib.Core.Logic.{◌≢◌, ◌⊎◌, inl, inr}
use Prim.Native.String.{String}
use native.Mathlib.Decide.{ℕ_discrete}
use service_sdk.Base.Bytes.{Bytes, frame}
use service_sdk.Base.Bytes.Framing.{Fits, frame_inj}
use service_sdk.Base.Bytes.Hex.{hex, hex_inj, IsBytes}

-- Two different lists of parts whose framed forms have one SHA-256.
abbrev pub Collision : (Bytes → Bytes) → List Bytes → List Bytes → Type 0
Collision sha256 ps qs = (frame ps ≢ frame qs) × (sha256 (frame ps) ≡ sha256 (frame qs))

-- SHA-256 is third-party code: a parameter, of which only is used that it returns bytes.
unfoldable pub digest : (Bytes → Bytes) → List Bytes → String
digest sha256 parts = hex (sha256 (frame parts))

Bytes-discrete : Discrete Bytes
Bytes-discrete = hlevel ℕ_discrete

module _ (sha256 : Bytes → Bytes) (octets : (b : Bytes) → IsBytes (sha256 b)) where
  pub digest_inj :
      (ps qs : List Bytes)
      → Fits ps
      → Fits qs
      → digest sha256 ps ≡ digest sha256 qs
      → (ps ≡ qs) ⊎ Collision sha256 ps qs
  unfolding digest
  digest_inj ps qs hp hq h = elim (Bytes-discrete (frame ps) (frame qs)) [
    | yes same ↦ inl (frame_inj ps qs hp hq same)
    | no other ↦ inr (other, hex_inj _ _ (octets (frame ps)) (octets (frame qs)) h)
  ]
