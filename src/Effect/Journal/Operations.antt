-- ===== src/Effect/Journal/Operations.antt =====
-- `prepare`, `claim` and `complete` of `EventlogEffectJournal`.
use Prim.Native.String.{◌++◌}
use service_sdk.Base.{
  ℕ, String, Bool, false, not, ◌||◌, Option, none, some, ◌==◌, leb, if◌then◌else◌,
}
use service_sdk.Base.Text.{is_blank}
use service_sdk.Base.Result
use service_sdk.Base.Result.{Result, ok, err, ok_or}
use service_sdk.Base.Action.{Action, pure, fail, lift, ◌>>=◌, ◌>>◌}
use service_sdk.Runtime.Auth.{VerifiedAuthContext}
use service_sdk.Codec.{DurableStream, encode_stream_id}
use service_sdk.Effect.Plan.{PreparedEffect}
use service_sdk.Effect.Plan.Equality.{prepared_eq}
use service_sdk.Effect.Journal.Store.{
  EffectClaim, EffectOutcome, succeeded, refused, failed, unknown, prepared, claimed, completed,
  EffectRecord, ClaimDisposition, acquired, busy, terminal, EventLogError, idempotency_mismatch,
  conflict, not_found, invalid, backend, no_stream, exact, CommandMeta, Durable,
}
use service_sdk.Effect.Journal.Load.{load_effect}

-- The derived equality of outcomes.
unfoldable pub outcome_eq : EffectOutcome → EffectOutcome → Bool
outcome_eq (succeeded a b) (succeeded c d) = if a == c then b == d else false
outcome_eq (refused a) (refused b) = a == b
outcome_eq (failed a) (failed b) = a == b
outcome_eq (unknown a) (unknown b) = a == b
outcome_eq _ _ = false

module _ {W V : Type 0} (store : Durable W V) where
  unfoldable pub parse_time : String → Result EventLogError ℕ
  parse_time value = ok_or (store.parse_instant value) (invalid "external effect time is invalid")

  unfoldable pub lease_expired : String → String → Result EventLogError Bool
  unfolding parse_time
  lease_expired expires_at now =
      Result.◌>>=◌ (parse_time expires_at)
        (λ expiry. Result.◌>>=◌ (parse_time now) (λ instant. ok (leb expiry instant)))

  unfoldable pub validate_claim : EffectClaim → String → Result EventLogError (Unit {0})
  unfolding parse_time
  validate_claim claim now =
      if is_blank claim.lease_id || is_blank claim.worker
      then err (invalid "external effect claim identity is empty")
      else Result.◌>>=◌ (parse_time claim.expires_at) (λ expiry.
        Result.◌>>=◌ (parse_time now) (λ instant.
          if leb expiry instant
          then err (invalid "external effect claim must expire in the future")
          else ok tt))

  unfoldable pub effect_stream :
      VerifiedAuthContext → String → String → Result EventLogError DurableStream
  effect_stream context service operation_id =
      store.new_stream context.tenant ("generated-service-effect:" ++ service)
        (encode_stream_id context.realm "external-effect" operation_id)

  unfoldable pub effect_meta :
      VerifiedAuthContext → String → V → String → ℕ → Result EventLogError CommandMeta
  effect_meta context idempotency_key body operation_id occurred_at =
      Result.◌>>=◌ (store.request_hash body) (λ request_hash. ok (record {
        idempotency_key = idempotency_key;
        request_hash = request_hash;
        subject = context.authority;
        actor = elim context.executor [ none ↦ context.authority | some e ↦ e ];
        request_id = operation_id;
        trace_id = operation_id;
        occurred_at = occurred_at;
      }))

  pub now : Action W EventLogError ℕ
  now w = (ok (store.now_utc w), w)

  -- The record that the journal has after an append.
  unfoldable pub reload : ℕ → DurableStream → String → Action W EventLogError EffectRecord
  reload fuel stream missing = do
    found ← load_effect store fuel stream
    lift (ok_or found (backend missing))

  module _ (fuel : ℕ) (service : String) (context : VerifiedAuthContext) where
    unfoldable pub prepare : PreparedEffect → Action W EventLogError EffectRecord
    unfolding now reload
    prepare effect = do
      stream ← lift (effect_stream context service effect.operation_id)
      found ← load_effect store fuel stream
      elim found [
        | some record' ↦
            if prepared_eq record'.prepared effect
            then pure record'
            else fail (idempotency_mismatch effect.idempotency_key)
        | none ↦ do
          body ← lift (ok_or (store.of_prepared effect) (invalid "effect"))
          event ← lift (store.new_event "service_effect_prepared" 1 body)
          instant ← now
          metadata ←
              lift (effect_meta context effect.idempotency_key body effect.operation_id instant)
          store.append stream no_stream event metadata
          reload fuel stream "prepared effect was not visible"
      ]

    -- What the match on the loaded state decides: an answer, or to go on (`none`).
    unfoldable pub answer_claim :
        EffectRecord → EffectClaim → String → Result EventLogError (Option ClaimDisposition)
    answer_claim current claim instant = elim current.state [
      | prepared ↦ ok none
      | completed outcome ↦ ok (some (terminal current))
      | claimed active ↦
          if active.lease_id == claim.lease_id
          then ok (some (acquired current))
          else Result.◌>>=◌ (lease_expired active.expires_at instant)
              (λ expired. if not expired then ok (some (busy current)) else ok none)
    ]

    unfoldable pub claim_effect :
        String → EffectClaim → String → Action W EventLogError ClaimDisposition
    unfolding reload parse_time
    claim_effect operation_id claim instant = do
      stream ← lift (effect_stream context service operation_id)
      found ← load_effect store fuel stream
      current ← lift (ok_or found not_found)
      answer ← lift (answer_claim current claim instant)
      elim answer [
        | some disposition ↦ pure disposition
        | none ↦ do
          lift (validate_claim claim instant)
          body ← lift (ok_or (store.of_claim claim) (invalid "claim"))
          event ← lift (store.new_event "service_effect_claimed" 1 body)
          occurred_at ← lift (parse_time instant)
          metadata ← lift (
              effect_meta context ("effect-claim:" ++ claim.lease_id) body operation_id occurred_at)
          store.append stream (exact current.revision) event metadata
          claimed_record ← reload fuel stream "claimed effect was not visible"
          pure (acquired claimed_record)
      ]

    unfoldable pub answer_complete :
        EffectRecord → String → EffectOutcome → Result EventLogError (Option EffectRecord)
    answer_complete current lease_id outcome = elim current.state [
      | prepared ↦ err (conflict current.revision current.revision)
      | completed existing ↦
          if outcome_eq existing outcome
          then ok (some current)
          else err (idempotency_mismatch ("effect-complete:" ++ lease_id))
      | claimed active ↦
          if active.lease_id == lease_id
          then ok none
          else err (conflict current.revision current.revision)
    ]

    unfoldable pub complete : String → String → EffectOutcome → Action W EventLogError EffectRecord
    unfolding now reload
    complete operation_id lease_id outcome = do
      stream ← lift (effect_stream context service operation_id)
      found ← load_effect store fuel stream
      current ← lift (ok_or found not_found)
      answer ← lift (answer_complete current lease_id outcome)
      elim answer [
        | some record' ↦ pure record'
        | none ↦ do
          body ← lift (ok_or (store.of_outcome outcome) (invalid "outcome"))
          event ← lift (store.new_event "service_effect_completed" 1 body)
          instant ← now
          metadata ←
              lift (effect_meta context ("effect-complete:" ++ lease_id) body operation_id instant)
          store.append stream (exact current.revision) event metadata
          reload fuel stream "completed effect was not visible"
      ]
