-- ===== src/Base/Bytes/Framing.antt =====
-- Framed parts can be told apart.
use Prim.Native.Nat.{ℕ, ◌<◌}
use mathlib.Core.List.{List, [], ◌∷◌, ◌++◌, append_assoc}
use mathlib.Core.Path.{◌≡◌, refl, ◌∙◌, sym}
use native.Mathlib.Omega.{arith}
use service_sdk.Base.Lists.{length, All}
use service_sdk.Base.Decimal.{u64_limit}
use service_sdk.Base.Bytes.{Bytes, to_be_bytes, frame}

pub append_inj_length {ℓ} :
    {A : Type ℓ} (s t u v : List A) → length s ≡ length t → s ++ u ≡ t ++ v → (s ≡ t) × (u ≡ v)
append_inj_length [] [] u v e h = (refl, h)
append_inj_length [] (y ∷ t) u v e h = absurd (omega arith)
append_inj_length (x ∷ s) [] u v e h = absurd (omega arith)
append_inj_length (x ∷ s) (y ∷ t) u v e h =
    let rest : s ++ u ≡ t ++ v = cc in
    let (p, q) = append_inj_length s t u v (omega arith) rest in (cc, q)

to_be_bytes_inj : (n m : ℕ) → n < u64_limit → m < u64_limit → to_be_bytes n ≡ to_be_bytes m → n ≡ m
unfolding to_be_bytes
to_be_bytes_inj n m hn hm h = ground arith

-- Every part is of a length that a `u64` holds.
abbrev pub Fits : List Bytes → Type 0
Fits = All (λ part. length part < u64_limit)

-- Different lists of parts are framed differently, also where they concatenate to the same bytes.
pub frame_inj : (ps qs : List Bytes) → Fits ps → Fits qs → frame ps ≡ frame qs → ps ≡ qs
unfolding frame
frame_inj [] [] hp hq h = refl
frame_inj [] (q ∷ qs) hp hq h = cc
frame_inj (p ∷ ps) [] hp hq h = cc
frame_inj (p ∷ ps) (q ∷ qs) (hp, hps) (hq, hqs) h =
    let heads =
      append_inj_length (to_be_bytes (length p)) (to_be_bytes (length q)) (p ++ frame ps)
        (q ++ frame qs) refl
        (sym (append_assoc (to_be_bytes (length p)) p (frame ps))
          ∙ h
          ∙ append_assoc (to_be_bytes (length q)) q (frame qs)) in
    let (part, rest) =
      append_inj_length p q (frame ps) (frame qs)
        (to_be_bytes_inj (length p) (length q) hp hq heads.0) heads.1 in
    cc (part, frame_inj ps qs hps hqs rest)
