-- ===== src/Effect/Resume.antt =====
-- crates/service-runtime/src/effect.rs: the recovery of an acquired effect, over the two ports
-- `EffectJournal` and `EffectAdapter`.
use service_sdk.Base.{String, ◌≡◌, refl, ◌⊎◌, inl, inr, arith}
use service_sdk.Base.Result.{Result, ok, err, Result-cases}
use service_sdk.Base.Action.{Action}
use service_sdk.Runtime.Auth.{VerifiedAuthContext}
use service_sdk.Effect.Plan.{PreparedEffect}
use service_sdk.Effect.Journal.Store.{
  EffectClaim, EffectOutcome, unknown, EffectRecord, ClaimDisposition,
}

pub data EffectObservation : Type 0 where
  not_observed : EffectObservation
  completed : EffectOutcome → EffectObservation
  unclear : String → EffectObservation

pub record EffectDispatchError : Type 0 where
  pub code : String

-- The port `EffectAdapter`: `D` is the state of the downstream service.
pub record EffectAdapter (D : Type 0) : Type 0 where
  pub observe : PreparedEffect → Action D EffectDispatchError EffectObservation
  pub dispatch : PreparedEffect → Action D EffectDispatchError EffectOutcome

-- The port `EffectJournal`: `J` is its state and `X` its error.
pub record EffectJournal (J X : Type 0) : Type 0 where
  pub prepare : VerifiedAuthContext → PreparedEffect → Action J X EffectRecord
  pub claim : VerifiedAuthContext → String → EffectClaim → String → Action J X ClaimDisposition
  pub complete : VerifiedAuthContext → String → String → EffectOutcome → Action J X EffectRecord

pub record World (J D : Type 0) : Type 0 where
  pub journal : J
  pub downstream : D

-- An answer of a dispatch as an outcome: a failed one leaves the consequence unknown.
abbrev pub outcome_of : Result EffectDispatchError EffectOutcome → EffectOutcome
outcome_of (ok outcome) = outcome
outcome_of (err error) = unknown error.code

module _ {J D X : Type 0} (journal : EffectJournal J X) (adapter : EffectAdapter D) where
  -- The match on the observation, and the state that it leaves downstream.
  unfoldable pub settle : PreparedEffect → D → EffectOutcome × D
  settle effect d =
      let (observed, d1) = adapter.observe effect d in
      elim observed [
        | err error ↦ (unknown error.code, d1)
        | ok observation ↦ elim observation [
          | completed outcome ↦ (outcome, d1)
          | unclear code ↦ (unknown code, d1)
          | not_observed ↦
              (outcome_of (adapter.dispatch effect d1).0, (adapter.dispatch effect d1).1)
        ]
      ]

  unfoldable pub resume_effect :
      VerifiedAuthContext → PreparedEffect → EffectClaim → Action (World J D) X EffectRecord
  resume_effect context effect claim w =
      let (outcome, d) = settle effect w.downstream in
      let (answer, j) =
        journal.complete context effect.operation_id claim.lease_id outcome w.journal in
      (answer, record { journal = j; downstream = d })

  -- Nothing is dispatched unless the downstream service has said that it has not seen the
  -- operation: with every other answer, also an error, the downstream state is the one that the
  -- query leaves. In every case the journal is asked once, to complete the operation with one
  -- outcome under the claim's lease.
  pub resume_effect-dispatch :
      (context : VerifiedAuthContext) (effect : PreparedEffect) (claim : EffectClaim)
      (w : World J D)
      → ((outcome : EffectOutcome) × (((resume_effect context effect claim w).0
              ≡ (journal.complete context effect.operation_id claim.lease_id outcome w.journal).0)
            × ((resume_effect context effect claim w).1.journal
                ≡ (journal.complete context effect.operation_id claim.lease_id outcome
                    w.journal).1)))
        × (((resume_effect context effect claim w).1.downstream
              ≡ (adapter.observe effect w.downstream).1)
            ⊎ (((adapter.observe effect w.downstream).0 ≡ ok not_observed)
                × ((resume_effect context effect claim w).1.downstream
                    ≡ (adapter.dispatch effect (adapter.observe effect w.downstream).1).1)))
  unfolding resume_effect settle
  resume_effect-dispatch context effect claim w = (
    ((settle effect w.downstream).0, (refl, refl)),
    elim (Result-cases (adapter.observe effect w.downstream).0) [
      | inr (x, e) ↦ inl (ground arith)
      | inl (completed outcome, e) ↦ inl (ground arith)
      | inl (unclear code, e) ↦ inl (ground arith)
      | inl (not_observed, e) ↦ inr (e, ground arith)
    ],
  )
