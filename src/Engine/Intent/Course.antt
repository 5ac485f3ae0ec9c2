-- ===== src/Engine/Intent/Course.antt =====
-- The course of a decision that succeeds, call by call: crates/service-engine/src/lib.rs,
-- `decide_intent`.
use service_sdk.Base.{ℕ, ◌<◌, Option, String, Bool, true, false, ◌≡◌, List, [], map, length}
use service_sdk.Base.Maps.{Map}
use service_sdk.Base.Result.{Result, ok}
use service_sdk.Runtime.Auth.{VerifiedAuthContext}
use service_sdk.Engine.{DomainEvent, LoadedStream, ProjectionState, Json, ExecutionError, fold}
use service_sdk.Engine.Ports.{
  ResourceError, ServiceStream, AppendExpectation, AppendRequest, AppendReceipt, AppendDisposition,
  committed, replayed, IntentClaimRequest, StagedContent, ServiceResources, RequestMetadata,
  IntentResult,
}
use service_sdk.Engine.Plans.{IntentPlan, ServicePlan}
use service_sdk.Engine.Inputs.{command_inputs, expected_version, idempotency}
use service_sdk.Engine.Obligations.Run.{run_intent_obligations}
use service_sdk.Engine.Events.{produce_events}
use service_sdk.Engine.Obligations.Authorization.{run_intent_authorization}
use service_sdk.Engine.Events.Produced.{extend}
use service_sdk.Engine.Rows.{projection_rows_for_partition}
use service_sdk.Engine.Graph.Materialize.{Snapshots}
use service_sdk.Engine.Claim.{IntentCodec, string_or}
use service_sdk.Engine.Stage.{accept_all, stage_all}
use service_sdk.Engine.Intent.Stream.{Named, IsPlanned}

-- The events that are answered, and whether they are from an earlier append.
abbrev pub answer :
    {V : Type 0}
    → AppendDisposition
    → List (DomainEvent V)
    → List (DomainEvent V)
    → List (DomainEvent V) × Bool
answer committed decided recorded = (decided, false)
answer replayed decided recorded = (recorded, true)

module _ {W V : Type 0} (json : Json V) (snapshots : Snapshots V) (instant : String → Option ℕ)
    (codec : IntentCodec V) (resources : ServiceResources W V) (service : ServicePlan)
    (context : VerifiedAuthContext) where
  -- What follows an append from one world to the other. After a committed one the stream is loaded
  -- and folded again, its rows are written and the staged content is accepted; after a replayed one
  -- the authority is asked about the stored state of the recorded stream.
  abbrev pub Followed :
      AppendDisposition
      → IntentPlan
      → ServiceStream
      → Map V
      → List StagedContent
      → AppendReceipt V
      → W
      → W
      → Type 0
  Followed committed plan stream command staged receipt w w' =
      (after : LoadedStream V) × (v : W) × ◌≡◌ {A = Result ResourceError (LoadedStream V) × W}
        (resources.load stream w) (ok after, v)
      × (state : ProjectionState V) × (fold json service.reducers after ≡ ok state)
      × (u : W) × ◌≡◌ {A = Result ResourceError (Unit {0}) × W}
          (resources.project
            (record {
              stream = stream;
              through_version = receipt.through_version;
              rows =
                  map (λ row. row.row)
                    (projection_rows_for_partition json state context.tenant context.realm
                      service.views);
            })
            v)
          (ok tt, u)
      × ◌≡◌ {A = Result ExecutionError (Unit {0}) × W}
          (accept_all json resources service context staged u) (ok tt, w')
  Followed replayed plan stream command staged receipt w w' =
      (state : ProjectionState V) × (v : W) × ◌≡◌ {A = Result ResourceError (ProjectionState V) × W}
        (resources.authorization_state receipt.stream w) (ok state, v)
      × ◌≡◌ {A = Result ExecutionError (Unit {0}) × W}
          (run_intent_authorization json resources context state command plan.obligations v)
          (ok tt, w')

  -- What was appended behind a loaded history, in which worlds, and what was answered.
  pub record Committed (metadata : RequestMetadata) (plan : IntentPlan) (claim : IntentClaimRequest)
      (key : String) (expected : AppendExpectation) (stream_key : String) (history : LoadedStream V)
      (state : ProjectionState V) (staged : Map V × List StagedContent) (w w' : W)
      (result : IntentResult V) : Type 0 where
    pub request : AppendRequest V
    pub own_stream : IsPlanned service context plan stream_key request.stream
    pub own_version : request.expected ≡ expected
    pub own_key : request.idempotency_key ≡ key
    pub own_claim : request.claim ≡ claim
    pub own_subject : request.metadata.subject ≡ context.authority
    pub own_actor : request.metadata.actor ≡ string_or context.executor context.authority
    pub own_request : request.metadata.request_id ≡ string_or metadata.request_id key
    pub own_trace : request.metadata.trace_id ≡ string_or metadata.request_id key
    pub some_event : 0 < length request.events
    pub planned : map (λ e. e.name) request.events ≡ map (λ p. p.event) plan.outcome.events
    pub foldable :
        (final : ProjectionState V) × (fold json service.reducers (extend history request.events)
          ≡ ok final)
    pub produced_in : W
    pub produced :
        ◌≡◌ {A = Result ExecutionError (List (DomainEvent V)) × W}
          (produce_events json snapshots resources context stream_key staged.0 state
            service.reducers plan.outcome.events w)
          (ok request.events, produced_in)
    pub asked_in : W
    pub dated :
        ◌≡◌ {A = Result ResourceError String × W}
          (resources.now produced_in)
          (ok request.metadata.occurred_at, asked_in)
    pub receipt : AppendReceipt V
    pub appended_in : W
    pub appended :
        ◌≡◌ {A = Result ResourceError (AppendReceipt V) × W}
          (resources.append request asked_in)
          (ok receipt, appended_in)
    pub followed :
        Followed receipt.disposition plan request.stream staged.0 staged.1 receipt appended_in w'
    pub answered :
        ◌≡◌ {A = List (DomainEvent V) × Bool}
          (result.events, result.was_replayed)
          (answer receipt.disposition request.events receipt.events)
    pub version : result.through_version ≡ receipt.through_version

  -- How a decision that succeeded went from `w` to `w'`, call by call.
  pub record Decided (metadata : RequestMetadata) (plan : IntentPlan) (decoded : Map V)
      (claim : IntentClaimRequest) (w w' : W) (result : IntentResult V) : Type 0 where
    pub key : String
    pub own_key : idempotency json plan.idempotency decoded metadata ≡ ok key
    pub expected : AppendExpectation
    pub own_version : expected_version json plan.expected_version decoded ≡ ok expected
    pub stream_key : String
    pub named_in : W
    pub named :
        Named json resources plan.stream (command_inputs plan.inputs decoded) stream_key w named_in
    pub stream : ServiceStream
    pub own_stream : IsPlanned service context plan stream_key stream
    pub history : LoadedStream V
    pub loaded_in : W
    pub loaded :
        ◌≡◌ {A = Result ResourceError (LoadedStream V) × W}
          (resources.load stream named_in)
          (ok history, loaded_in)
    pub state : ProjectionState V
    pub folded : fold json service.reducers history ≡ ok state
    pub obliged_in : W
    pub obliged :
        ◌≡◌ {A = Result ExecutionError (Unit {0}) × W}
          (run_intent_obligations json resources instant snapshots context state
            (command_inputs plan.inputs decoded)
            plan.obligations
            loaded_in)
          (ok tt, obliged_in)
    pub staged : Map V × List StagedContent
    pub staged_in : W
    pub contents :
        ◌≡◌ {A = Result ExecutionError (Map V × List StagedContent) × W}
          (stage_all json resources service context key decoded plan.inputs
            (command_inputs plan.inputs decoded)
            []
            obliged_in)
          (ok staged, staged_in)
    pub commit :
        Committed metadata plan claim key expected stream_key history state staged staged_in w'
          result
