-- ===== src/Effect/Journal/Prepared.antt =====
-- The journal's answer to an effect that it already holds: crates/service-eventlog/src/lib.rs,
-- `prepare`.
use service_sdk.Base.{
  ℕ, ◌<◌, String, ◌≡◌, ◌≢◌, refl, ap, ◌∙◌, ◌⊎◌, inl, inr, true, false, some, List, length, arith,
  Bool-cases,
}
use service_sdk.Base.Result.{ok, err}
use service_sdk.Runtime.Auth.{VerifiedAuthContext}
use service_sdk.Codec.{DurableStream}
use service_sdk.Effect.Plan.{PreparedEffect}
use service_sdk.Effect.Plan.Equality.{prepared_eq, prepared_eq_iff}
use service_sdk.Effect.Journal.Store.{EffectRecord, idempotency_mismatch, RecordedEvent, Durable}
use service_sdk.Effect.Journal.Paging.{IsReadable, replay, load_effect-replay}
use service_sdk.Effect.Journal.Operations.{effect_stream, prepare}

module _ {W V : Type 0} (store : Durable W V) (content : W → DurableStream → List (RecordedEvent V))
    (readable : IsReadable store content) (fuel : ℕ) (service : String)
    (context : VerifiedAuthContext) (w : W) (s : DurableStream) (current : EffectRecord)
    (effect : PreparedEffect) where
  -- Over a store that reads as documented, with rounds enough for the load: to prepare an effect
  -- whose operation the journal already holds writes nothing; it gives the stored record, in
  -- whatever state, if that was prepared from exactly this effect, and an idempotency mismatch if
  -- it was prepared from another.
  pub prepare-held :
      effect_stream store context service effect.operation_id ≡ ok s
      → length (content w s) < fuel
      → replay store (content w s) ≡ ok (some current)
      → ((current.prepared ≡ effect)
          × (prepare store fuel service context effect w ≡ (ok current, w)))
        ⊎ ((current.prepared ≢ effect)
            × (prepare store fuel service context effect w
                ≡ (err (idempotency_mismatch effect.idempotency_key), w)))
  unfolding prepare
  prepare-held own enough found =
      let loaded =
        load_effect-replay store content readable w s fuel enough ∙ ap (λ r. (r, w)) found in
      elim (Bool-cases (prepared_eq current.prepared effect)) [
        | inl same ↦
            inl ((prepared_eq_iff current.prepared effect).0 same, rw (own, loaded, same) refl)
        | inr other ↦ inr (
          λ e. differ ((prepared_eq_iff current.prepared effect).1 e) other,
          rw (own, loaded, other) refl,
        )
      ]
    where
      differ :
          prepared_eq current.prepared effect ≡ true
          → prepared_eq current.prepared effect ≡ false
          → ⊥
      differ h k = ground arith
