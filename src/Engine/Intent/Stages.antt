-- ===== src/Engine/Intent/Stages.antt =====
-- The steps that a decision which succeeds has passed: crates/service-engine/src/lib.rs,
-- `decide_intent`.
use service_sdk.Base.{ℕ, String, ◌≡◌, Option, List, [], arith}
use service_sdk.Base.Maps.{Map}
use service_sdk.Base.Result.{Result, ok, err}
use service_sdk.Base.Action.{Action, step-eq-ok, lift-eq-ok}
use service_sdk.Runtime.Auth.{VerifiedAuthContext}
use service_sdk.Engine.{DomainEvent, LoadedStream, ProjectionState, Json, ExecutionError, fold}
use service_sdk.Engine.Ports.{
  ResourceError, AppendExpectation, IntentClaimRequest, AppendReceipt, StagedContent,
  ServiceResources, port, port-eq-ok, RequestMetadata, IntentResult,
}
use service_sdk.Engine.Plans.{IntentPlan, ServicePlan}
use service_sdk.Engine.Inputs.{command_inputs, expected_version, idempotency}
use service_sdk.Engine.Events.{produce_events}
use service_sdk.Engine.Obligations.Run.{run_intent_obligations}
use service_sdk.Engine.Graph.Materialize.{Snapshots}
use service_sdk.Engine.Claim.{IntentCodec, decided_key, service_stream, append_request}
use service_sdk.Engine.Stage.{abandon_all, or_abandon, stage_all}
use service_sdk.Engine.Intent.Stream.{Named, decided_key-Named}
use service_sdk.Engine.Intent.{finish, commit_decision, decide_intent}

module _ {W V : Type 0} (json : Json V) (snapshots : Snapshots V) (instant : String → Option ℕ)
    (codec : IntentCodec V) (resources : ServiceResources W V) (service : ServicePlan)
    (context : VerifiedAuthContext) where
  or_abandon-eq-ok :
      {A : Type 0} (staged : List StagedContent) (step : Action W ExecutionError A) (w w' : W)
      (a : A)
      → ◌≡◌ {A = Result ExecutionError A × W}
          (or_abandon json resources service context staged step w)
          (ok a, w')
      → ◌≡◌ {A = Result ExecutionError A × W} (step w) (ok a, w')
  unfolding or_abandon
  or_abandon-eq-ok {A = A} staged step w w' a h = go (step w) h
    where
      go :
          (p : Result ExecutionError A × W)
          → ◌≡◌ {A = Result ExecutionError A × W}
              (elim p.0 [
                | ok b ↦ (ok b, p.1)
                | err e ↦ (err e, abandon_all json resources service context staged p.1)
              ])
              (ok a, w')
          → p ≡ (ok a, w')
      go (ok b, v) h = h
      go (err e, v) h = absurd (ground arith)

  -- `commit_decision` up to the match on the receipt.
  pub record Committing (metadata : RequestMetadata) (plan : IntentPlan)
      (claim : IntentClaimRequest) (key : String) (expected : AppendExpectation)
      (stream_key : String) (state : ProjectionState V) (staged : Map V × List StagedContent)
      (w w' : W) (result : IntentResult V) : Type 0 where
    pub events : List (DomainEvent V)
    pub produced_in : W
    pub produced :
        ◌≡◌ {A = Result ExecutionError (List (DomainEvent V)) × W}
          (produce_events json snapshots resources context stream_key staged.0 state
            service.reducers plan.outcome.events w)
          (ok events, produced_in)
    pub occurred_at : String
    pub asked_in : W
    pub dated :
        ◌≡◌ {A = Result ResourceError String × W}
          (resources.now produced_in)
          (ok occurred_at, asked_in)
    pub receipt : AppendReceipt V
    pub appended_in : W
    pub appended :
        ◌≡◌ {A = Result ResourceError (AppendReceipt V) × W}
          (resources.append
            (append_request context metadata
              (service_stream service context plan stream_key)
              expected
              key
              claim
              events
              occurred_at)
            asked_in)
          (ok receipt, appended_in)
    pub finished :
        ◌≡◌ {A = Result ExecutionError (IntentResult V) × W}
          (finish json resources service context plan
            (service_stream service context plan stream_key)
            staged.0
            events
            staged.1
            receipt
            appended_in)
          (ok result, w')

  pub commit-Committing :
      (metadata : RequestMetadata) (plan : IntentPlan) (claim : IntentClaimRequest) (key : String)
      (expected : AppendExpectation) (stream_key : String) (state : ProjectionState V)
      (staged : Map V × List StagedContent) (w w' : W) (result : IntentResult V)
      → ◌≡◌ {A = Result ExecutionError (IntentResult V) × W}
          (commit_decision json resources service context snapshots instant metadata plan claim key
            expected stream_key state staged w)
          (ok result, w')
      → Committing metadata plan claim key expected stream_key state staged w w' result
  unfolding commit_decision
  commit-Committing metadata plan claim key expected stream_key state staged w w' result h =
      let produce =
        produce_events json snapshots resources context stream_key staged.0 state service.reducers
          plan.outcome.events in
      let (events, v1, h1, k1) =
        step-eq-ok (or_abandon json resources service context staged.1 produce) _ w h in
      let (occurred_at, v2, h2, k2) = step-eq-ok (port resources.now) _ v1 k1 in
      let request =
        append_request context metadata (service_stream service context plan stream_key) expected
          key claim events occurred_at in
      let (receipt, v3, h3, k3) =
        step-eq-ok
          (or_abandon json resources service context staged.1 (port (resources.append request))) _
          v2 k2 in
      record {
        events = events;
        produced_in = v1;
        produced = or_abandon-eq-ok staged.1 produce w v1 events h1;
        occurred_at = occurred_at;
        asked_in = v2;
        dated = port-eq-ok resources.now v1 v2 occurred_at h2;
        receipt = receipt;
        appended_in = v3;
        appended =
            port-eq-ok (resources.append request) v2 v3 receipt
              (or_abandon-eq-ok staged.1 (port (resources.append request)) v2 v3 receipt h3);
        finished = k3;
      }

  -- `decide_intent` up to the production of events.
  pub record Deciding (metadata : RequestMetadata) (plan : IntentPlan) (decoded : Map V)
      (claim : IntentClaimRequest) (w w' : W) (result : IntentResult V) : Type 0 where
    pub key : String
    pub own_key : idempotency json plan.idempotency decoded metadata ≡ ok key
    pub expected : AppendExpectation
    pub own_version : expected_version json plan.expected_version decoded ≡ ok expected
    pub stream_key : String
    pub named_in : W
    pub named :
        Named json resources plan.stream (command_inputs plan.inputs decoded) stream_key w named_in
    pub history : LoadedStream V
    pub loaded_in : W
    pub loaded :
        ◌≡◌ {A = Result ResourceError (LoadedStream V) × W}
          (resources.load (service_stream service context plan stream_key) named_in)
          (ok history, loaded_in)
    pub state : ProjectionState V
    pub folded : fold json service.reducers history ≡ ok state
    pub obliged_in : W
    pub obliged :
        ◌≡◌ {A = Result ExecutionError (Unit {0}) × W}
          (run_intent_obligations json resources instant snapshots context state
            (command_inputs plan.inputs decoded)
            plan.obligations
            loaded_in)
          (ok tt, obliged_in)
    pub staged : Map V × List StagedContent
    pub staged_in : W
    pub contents :
        ◌≡◌ {A = Result ExecutionError (Map V × List StagedContent) × W}
          (stage_all json resources service context key decoded plan.inputs
            (command_inputs plan.inputs decoded)
            []
            obliged_in)
          (ok staged, staged_in)
    pub committing :
        Committing metadata plan claim key expected stream_key state staged staged_in w' result

  pub decide-Deciding :
      (metadata : RequestMetadata) (plan : IntentPlan) (decoded : Map V)
      (claim : IntentClaimRequest) (w w' : W) (result : IntentResult V)
      → ◌≡◌ {A = Result ExecutionError (IntentResult V) × W}
          (decide_intent json resources service context snapshots instant metadata plan decoded
            claim w)
          (ok result, w')
      → Deciding metadata plan decoded claim w w' result
  unfolding decide_intent
  decide-Deciding metadata plan decoded claim w w' result h =
      let command = command_inputs plan.inputs decoded in
      let (key, h1, k1) = lift-eq-ok (idempotency json plan.idempotency decoded metadata) _ w h in
      let (expected, h2, k2) =
        lift-eq-ok (expected_version json plan.expected_version decoded) _ w k1 in
      let (stream_key, v3, h3, k3) =
        step-eq-ok (decided_key json resources plan.stream command) _ w k2 in
      let stream = service_stream service context plan stream_key in
      let (history, v4, h4, k4) = step-eq-ok (port (resources.load stream)) _ v3 k3 in
      let (state, h5, k5) = lift-eq-ok (fold json service.reducers history) _ v4 k4 in
      let (_, v6, h6, k6) =
        step-eq-ok
          (run_intent_obligations json resources instant snapshots context state command
            plan.obligations)
          _ v4 k5 in
      let (staged, v7, h7, k7) =
        step-eq-ok (stage_all json resources service context key decoded plan.inputs command []) _
          v6 k6 in
      record {
        key = key;
        own_key = h1;
        expected = expected;
        own_version = h2;
        stream_key = stream_key;
        named_in = v3;
        named = decided_key-Named json resources plan.stream command stream_key w v3 h3;
        history = history;
        loaded_in = v4;
        loaded = port-eq-ok (resources.load stream) v3 v4 history h4;
        state = state;
        folded = h5;
        obliged_in = v6;
        obliged = h6;
        staged = staged;
        staged_in = v7;
        contents = h7;
        committing =
            commit-Committing metadata plan claim key expected stream_key state staged v7 w' result
              k7;
      }
