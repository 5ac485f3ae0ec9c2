-- ===== src/Effect/Plan/Identity.antt =====
-- The operation identity of an effect.
use Prim.Native.String.{◌++◌}
use text.Mathlib.TextLemmas.{append_cancel_left}
use service_sdk.Base.{String, ◌≡◌, sym, ap, ◌∙◌, ◌⊎◌, inl, inr, some, arith}
use service_sdk.Base.Bytes.Digest.{digest, digest_inj, Collision}
use service_sdk.Base.Result.{ok}
use service_sdk.Base.Bytes.{Bytes, as_bytes}
use service_sdk.Base.Bytes.Framing.{Fits}
use service_sdk.Base.Bytes.Utf8.{as_bytes_inj}
use service_sdk.Base.Bytes.Hex.{IsBytes}
use service_sdk.Effect.Plan.{
  EffectPlan, PreparedEffect, Sealing, plan_parts, operation_parts, prepare,
}

module _ (sealing : Sealing) (octets : (b : Bytes) → IsBytes (sealing.sha256 b)) where
  -- The length of every hashed part is a `u64`, as the length of every Rust slice is.
  abbrev pub IsAddressable : EffectPlan → String → Bytes → Type 0
  IsAddressable plan key bytes =
      Fits (operation_parts sealing plan key bytes) × Fits (plan_parts sealing bytes)

  operation_id-prepare :
      (plan : EffectPlan) (key : String) (bytes : Bytes) (p : PreparedEffect)
      → prepare sealing plan key ≡ ok p
      → sealing.to_vec plan ≡ some bytes
      → p.operation_id
        ≡ "effect:sha256:" ++ digest sealing.sha256 (operation_parts sealing plan key bytes)
  unfolding prepare
  operation_id-prepare plan key bytes p h e = ground arith

  plan_digest_inj :
      (bytes bytes' : Bytes)
      → Fits (plan_parts sealing bytes)
      → Fits (plan_parts sealing bytes')
      → digest sealing.sha256 (plan_parts sealing bytes)
        ≡ digest sealing.sha256 (plan_parts sealing bytes')
      → (bytes ≡ bytes')
        ⊎ Collision sealing.sha256 (plan_parts sealing bytes) (plan_parts sealing bytes')
  plan_digest_inj bytes bytes' f f' h = elim (digest_inj sealing.sha256 octets _ _ f f' h) [
    | inl same ↦ inl (cc)
    | inr collision ↦ inr collision
  ]

  -- If SHA-256 returns bytes, every hashed part is shorter than 2^64 and the encoder, which writes
  -- every field, gives two plans the same bytes only if they are the same, then two prepared effects
  -- share their operation identity only if plan and caller's key are the same, or else the two framed identities, or the two framed plans, are different and
  -- have one SHA-256.
  pub operation_id_inj :
      (plan plan' : EffectPlan) (key key' : String) (bytes bytes' : Bytes) (p p' : PreparedEffect)
      → prepare sealing plan key ≡ ok p
      → prepare sealing plan' key' ≡ ok p'
      → sealing.to_vec plan ≡ some bytes
      → sealing.to_vec plan' ≡ some bytes'
      → IsAddressable plan key bytes
      → IsAddressable plan' key' bytes'
      → ((a b : EffectPlan) (encoded : Bytes)
          → sealing.to_vec a ≡ some encoded
          → sealing.to_vec b ≡ some encoded
          → a ≡ b)
      → p.operation_id ≡ p'.operation_id
      → ((plan ≡ plan') × (key ≡ key'))
        ⊎ Collision sealing.sha256
            (operation_parts sealing plan key bytes)
            (operation_parts sealing plan' key' bytes')
        ⊎ Collision sealing.sha256 (plan_parts sealing bytes) (plan_parts sealing bytes')
  operation_id_inj plan plan' key key' bytes bytes' p p' h h' e e' f f' distinct same =
      let hashes = append_cancel_left "effect:sha256:" _ _ (
        sym (operation_id-prepare plan key bytes p h e)
        ∙ same
        ∙ operation_id-prepare plan' key' bytes' p' h' e') in
      elim (digest_inj sealing.sha256 octets _ _ f.0 f'.0 hashes) [
        | inr collision ↦ inr (inl collision)
        | inl parts ↦
            let keys : as_bytes key ≡ as_bytes key' = cc in
            let plans : as_bytes (digest sealing.sha256 (plan_parts sealing bytes))
                ≡ as_bytes (digest sealing.sha256 (plan_parts sealing bytes')) =
              cc in
            elim (plan_digest_inj bytes bytes' f.1 f'.1 (as_bytes_inj _ _ plans)) [
              | inr collision ↦ inr (inr collision)
              | inl encoded ↦
                  inl (
                    distinct plan plan' bytes e (e' ∙ sym (ap some encoded)),
                    as_bytes_inj _ _ keys,
                  )
            ]
      ]
