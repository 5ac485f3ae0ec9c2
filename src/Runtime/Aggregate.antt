-- ===== src/Runtime/Aggregate.antt =====
-- crates/service-runtime/src/execution.rs: the generated aggregate, and the stages of an execution
-- that touch neither the log nor the projections.
use mathlib.Core.List.{foldl}
use service_sdk.Base.{String, List, [], ◌∷◌, not, ◌==◌, option_eq, if◌then◌else◌}
use service_sdk.Base.Result.{Result, ok, err, ◌>>=◌, ◌>>◌}
use service_sdk.Runtime.Auth.{
  VerifiedAuthContext, RealmPolicy, ContextPolicyViolation, service_mismatch, tenant_mismatch,
  realm_mismatch, enforce,
}
use service_sdk.Runtime.Stream.{StreamId, StreamVersion, ExpectedVersion, stream_eq}
use service_sdk.Runtime.History.{
  EventEnvelope, EventHistory, HistoryInvariantError, wrong_stream, validate, current_version,
}
use service_sdk.Runtime.Projection.{ProjectionDelivery}

-- The trait `Aggregate`: what generated code supplies.
pub record Aggregate (State Intent Command Event Rejection : Type 0) : Type 0 where
  pub realm_policy : RealmPolicy
  pub service_id : String
  pub initial_state : StreamId → State
  pub apply : State → EventEnvelope Event → State
  pub authorize : VerifiedAuthContext → State → Intent → Result Rejection (Unit {0})
  pub validate_intent : VerifiedAuthContext → State → Intent → Result Rejection (Unit {0})
  pub command : VerifiedAuthContext → State → Intent → Result Rejection Command
  pub decide : VerifiedAuthContext → State → Command → Result Rejection (List Event)

pub record ExecutionRequest (I : Type 0) : Type 0 where
  pub context : VerifiedAuthContext
  pub stream : StreamId
  pub idempotency_key : String
  pub expected_version : ExpectedVersion
  pub intent : I
  pub projection_delivery : ProjectionDelivery

pub record FoldStage (S : Type 0) : Type 0 where
  pub state : S
  pub version : StreamVersion

-- A refusal, or a decision without events.
pub data DecisionError (R : Type 0) : Type 0 where
  rejected : R → DecisionError R
  empty_decision : DecisionError R

abbrev pub refuse : {R A : Type 0} → Result R A → Result (DecisionError R) A
refuse (ok a) = ok a
refuse (err r) = err (rejected r)

abbrev pub non_empty : {R E : Type 0} → List E → Result (DecisionError R) (List E)
non_empty [] = err empty_decision
non_empty (e ∷ events) = ok (e ∷ events)

module _ {S I C E R : Type 0} (aggregate : Aggregate S I C E R) where
  -- The partition checks before anything is loaded.
  unfoldable pub check_scope : ExecutionRequest I → Result ContextPolicyViolation (Unit {0})
  check_scope request = do
    enforce aggregate.realm_policy request.context
    if not (request.stream.service == aggregate.service_id)
        then err (service_mismatch request.stream.service aggregate.service_id)
        else if not (request.stream.tenant == request.context.tenant)
        then err (tenant_mismatch request.stream.tenant request.context.tenant)
        else if not (option_eq request.stream.realm request.context.realm)
        then err (realm_mismatch request.stream.realm request.context.realm)
        else ok tt

  abbrev pub apply_all : S → List (EventEnvelope E) → S
  apply_all = foldl aggregate.apply

  -- `fold`
  unfoldable pub fold : StreamId → EventHistory E → Result HistoryInvariantError (FoldStage S)
  fold stream loaded = do
    validate loaded
    if not (stream_eq loaded.stream stream)
        then err (wrong_stream stream loaded.stream)
        else ok (record {
          state = apply_all (aggregate.initial_state stream) loaded.events;
          version = current_version loaded;
        })

  -- Authorization, validation, command construction and decision, in this order.
  unfoldable pub decide_events : ExecutionRequest I → S → Result (DecisionError R) (List E)
  decide_events request state = do
    refuse (aggregate.authorize request.context state request.intent)
    refuse (aggregate.validate_intent request.context state request.intent)
    command ← refuse (aggregate.command request.context state request.intent)
    events ← refuse (aggregate.decide request.context state command)
    non_empty events
