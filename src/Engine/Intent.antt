-- ===== src/Engine/Intent.antt =====
-- crates/service-engine/src/lib.rs: `intent`, `replay_intent` and `decide_intent` of
-- `ServiceEngine`.
pub mod Stream
pub mod Stages
pub mod Entered
pub mod Records
pub mod Kept
pub mod Claims
pub mod Authorized
pub mod Course
pub mod Decided
pub mod Repeated
use service_sdk.Base.{
  ℕ, String, Bool, true, false, Option, none, some, List, [], ◌∷◌, ◌++◌, ◌==◌, map, find?,
  bind_option, if◌then◌else◌,
}
use service_sdk.Base.Bytes.{Bytes}
use service_sdk.Base.Bytes.Hex.{hex}
use service_sdk.Base.Maps.{Map, get, insert}
use service_sdk.Base.Result.{Result, ok, err, ok_or, map_err}
use service_sdk.Base.Action.{Action, pure, fail, lift, ◌>>=◌, ◌>>◌}
use service_sdk.Runtime.Auth.{VerifiedAuthContext, enforce}
use service_sdk.Engine.{
  DomainEvent, ProjectionState, Json, ExecutionError, context_violation, unknown_operation,
  missing_input, invalid_plan, scalar_string, fold,
}
use service_sdk.Engine.Ports.{
  ServiceStream, AppendExpectation, AppendDisposition, committed, replayed, IntentClaimRequest,
  AppendRequest, AppendReceipt, RecordedIntent, StagedContent, ServiceResources, port,
  RequestMetadata, IntentResult,
}
use service_sdk.Engine.Plans.{
  runtime, InputSource, content_input, InputPlan, StreamPlan, command_field, generated_uuid_v7,
  IntentPlan, ServicePlan,
}
use service_sdk.Engine.Inputs.{
  command_inputs, decode_inputs, expected_version, idempotency, content_payload,
}
use service_sdk.Engine.Events.{produce_events}
use service_sdk.Engine.Rows.{projection_rows_for_partition}
use service_sdk.Engine.Obligations.{ObligationUse}
use service_sdk.Engine.Obligations.Authorization.{run_intent_authorization}
use service_sdk.Engine.Obligations.Run.{run_intent_obligations}
use service_sdk.Engine.Graph.Materialize.{Snapshots}
use service_sdk.Engine.Claim.{
  IntentCodec, command_key, claimed_key, decided_key, service_stream, intent_claim, append_request,
  category, string_or,
}
use service_sdk.Engine.Stage.{abandon_all, or_abandon, stage_all, accept_all}

module _ {W V : Type 0} (json : Json V) (resources : ServiceResources W V) (service : ServicePlan)
    (context : VerifiedAuthContext) where
  unfoldable pub replay_intent :
      IntentPlan → Map V → RecordedIntent V → Action W ExecutionError (IntentResult V)
  replay_intent plan command recorded = do
    state ← port (resources.authorization_state recorded.stream)
    run_intent_authorization json resources context state command plan.obligations
    pure (record {
      outcome = plan.outcome.name;
      events = recorded.events;
      through_version = recorded.through_version;
      was_replayed = true;
    })

  -- What follows a committed append: the rows of the new state, then the staged content.
  unfoldable pub publish :
      IntentPlan
      → ServiceStream
      → List (DomainEvent V)
      → ℕ
      → List StagedContent
      → Action W ExecutionError (IntentResult V)
  publish plan stream events through staged = do
    history ← port (resources.load stream)
    state ← lift (fold json service.reducers history)
    port (
        resources.project (record {
          stream = stream;
          through_version = through;
          rows =
              map (λ row. row.row)
                (projection_rows_for_partition json state context.tenant context.realm
                  service.views);
        }))
    accept_all json resources service context staged
    pure (record {
      outcome = plan.outcome.name;
      events = events;
      through_version = through;
      was_replayed = false;
    })

  -- The match on the receipt.
  unfoldable pub finish :
      IntentPlan
      → ServiceStream
      → Map V
      → List (DomainEvent V)
      → List StagedContent
      → AppendReceipt V
      → Action W ExecutionError (IntentResult V)
  finish plan stream command events staged receipt = elim receipt.disposition [
    | replayed ↦ replay_intent plan command (record {
      stream = receipt.stream;
      events = receipt.events;
      through_version = receipt.through_version;
    })
    | committed ↦ publish plan stream events receipt.through_version staged
  ]

  -- A recorded intent is replayed.
  abbrev pub replay_or :
      IntentPlan
      → Map V
      → Option (RecordedIntent V)
      → Action W ExecutionError (IntentResult V)
      → Action W ExecutionError (IntentResult V)
  replay_or plan command (some recorded) otherwise = replay_intent plan command recorded
  replay_or plan command none otherwise = otherwise

  -- A failed decision looks for the record of the intent once more.
  unfoldable pub or_recorded :
      IntentPlan
      → Map V
      → IntentClaimRequest
      → Result ExecutionError (IntentResult V)
      → Action W ExecutionError (IntentResult V)
  or_recorded plan command claim (ok result) = pure result
  or_recorded plan command claim (err original) = do
    recorded ← port (resources.recorded_intent claim)
    replay_or plan command recorded (fail original)

  module _ (snapshots : Snapshots V) (instant : String → Option ℕ) where
    -- The events, their append and what follows it.
    unfoldable pub commit_decision :
        RequestMetadata
        → IntentPlan
        → IntentClaimRequest
        → String
        → AppendExpectation
        → String
        → ProjectionState V
        → Map V × List StagedContent
        → Action W ExecutionError (IntentResult V)
    commit_decision metadata plan claim key expected stream_key state staged = do
      let stream = service_stream service context plan stream_key
      events ← or_abandon json resources service context staged.1 (
          produce_events json snapshots resources context stream_key staged.0 state service.reducers
            plan.outcome.events)
      occurred_at ← port resources.now
      receipt ← or_abandon json resources service context staged.1 (
          port (
            resources.append
              (append_request context metadata stream expected key claim events occurred_at)))
      finish plan stream staged.0 events staged.1 receipt

    unfoldable pub decide_intent :
        RequestMetadata
        → IntentPlan
        → Map V
        → IntentClaimRequest
        → Action W ExecutionError (IntentResult V)
    decide_intent metadata plan decoded claim = do
      let command = command_inputs plan.inputs decoded
      key ← lift (idempotency json plan.idempotency decoded metadata)
      expected ← lift (expected_version json plan.expected_version decoded)
      stream_key ← decided_key json resources plan.stream command
      history ← port (resources.load (service_stream service context plan stream_key))
      state ← lift (fold json service.reducers history)
      run_intent_obligations json resources instant snapshots context state command plan.obligations
      staged ← stage_all json resources service context key decoded plan.inputs command []
      commit_decision metadata plan claim key expected stream_key state staged

    unfoldable pub decide_once :
        RequestMetadata
        → IntentPlan
        → Map V
        → Map V
        → IntentClaimRequest
        → Action W ExecutionError (IntentResult V)
    decide_once metadata plan decoded command claim w =
        let (result, w') = decide_intent metadata plan decoded claim w in
        or_recorded plan command claim result w'

    module _ (codec : IntentCodec V) where
      unfoldable pub intent :
          RequestMetadata → String → Bytes → Action W ExecutionError (IntentResult V)
      intent metadata operation body = do
        lift (map_err context_violation (enforce (runtime service.realm) context))
        plan ← lift (ok_or (get operation service.intents) (unknown_operation operation))
        decoded ← lift (decode_inputs json codec.from_slice plan.inputs body)
        let command = command_inputs plan.inputs decoded
        key ← lift (idempotency json plan.idempotency decoded metadata)
        expected ← lift (expected_version json plan.expected_version decoded)
        stream_key ← lift (claimed_key json plan.stream command)
        claim ←
            lift
              (intent_claim snapshots codec service context plan operation decoded key stream_key)
        found ← port (resources.recorded_intent claim)
        replay_or plan command found (decide_once metadata plan decoded command claim)
