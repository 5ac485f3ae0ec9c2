-- ===== src/Engine/Intent/Authorized.antt =====
-- Authorization on every way to an answer: crates/service-engine/src/lib.rs, `intent` with
-- `replay_intent` and `decide_intent`.
use service_sdk.Base.{
  ℕ, String, Bool, true, ◌≡◌, refl, sym, subst, ◌∙◌, Option, none, some, List, arith,
}
use service_sdk.Base.Bytes.{Bytes}
use service_sdk.Base.Maps.{Map, get}
use service_sdk.Base.Result.{Result, ok, err, map_err-eq-ok}
use service_sdk.Base.Action.{fail, step-eq-ok, pure-eq-ok}
use service_sdk.Runtime.Auth.{VerifiedAuthContext, enforce}
use service_sdk.Engine.{
  DomainEvent, LoadedStream, ProjectionState, Json, ExecutionError, context_violation, fold,
}
use service_sdk.Engine.Ports.{
  ResourceError, ServiceStream, AppendRequest, AppendReceipt, IntentClaimRequest, RecordedIntent,
  ServiceResources, port, port-eq-ok, RequestMetadata, IntentResult,
}
use service_sdk.Engine.Plans.{runtime, IntentPlan, ServicePlan}
use service_sdk.Engine.Inputs.{command_inputs, decode_inputs}
use service_sdk.Engine.Obligations.Authorization.{run_intent_authorization}
use service_sdk.Engine.Obligations.Authorization.Allowed.{Allowed, run_intent_authorization-Allowed}
use service_sdk.Engine.Obligations.Run.{run_intent_obligations}
use service_sdk.Engine.Graph.Materialize.{Snapshots}
use service_sdk.Engine.Claim.{IntentCodec}
use service_sdk.Engine.Intent.Stream.{Named, IsPlanned}
use service_sdk.Engine.Intent.Course.{answer}
use service_sdk.Engine.Intent.Decided.{replay-answer, decide_intent-Decided}
use service_sdk.Engine.Intent.Claims.{OwnClaim, claim-OwnClaim}
use service_sdk.Engine.Intent.Entered.{intent-Entered}
use service_sdk.Engine.Intent.{
  replay_intent, decide_intent, replay_or, or_recorded, decide_once, intent,
}

module _ {W V : Type 0} (json : Json V) (snapshots : Snapshots V) (instant : String → Option ℕ)
    (codec : IntentCodec V) (resources : ServiceResources W V) (service : ServicePlan)
    (context : VerifiedAuthContext) where
  -- Where the state comes from that the authority is asked about: the fold of the stream that the
  -- plan names, to which the answered events were then appended, or the stored state of the stream
  -- of the record that the log holds for the claim of this intent and that is the answer.
  pub data Origin (metadata : RequestMetadata) (plan : IntentPlan) (operation : String)
      (decoded : Map V) (result : IntentResult V) (state : ProjectionState V) (before : W)
      : Type 0 where
    folded :
        (key : String) (u v : W) (stream : ServiceStream) (history : LoadedStream V)
        → Named json resources plan.stream (command_inputs plan.inputs decoded) key u v
        → IsPlanned service context plan key stream
        → ◌≡◌ {A = Result ResourceError (LoadedStream V) × W}
            (resources.load stream v)
            (ok history, before)
        → fold json service.reducers history ≡ ok state
        → (request : AppendRequest V) (receipt : AppendReceipt V) (x y : W)
        → request.stream ≡ stream
        → ◌≡◌ {A = Result ResourceError (AppendReceipt V) × W}
            (resources.append request x)
            (ok receipt, y)
        → ◌≡◌ {A = List (DomainEvent V) × Bool}
            (result.events, result.was_replayed)
            (answer receipt.disposition request.events receipt.events)
        → result.through_version ≡ receipt.through_version
        → Origin metadata plan operation decoded result state before
    stored :
        (claim : IntentClaimRequest) (recorded : RecordedIntent V) (u v : W)
        → OwnClaim json snapshots instant codec resources service context metadata plan operation
            decoded claim
        → ◌≡◌ {A = Result ResourceError (Option (RecordedIntent V)) × W}
            (resources.recorded_intent claim u)
            (ok (some recorded), v)
        → ◌≡◌ {A = Result ResourceError (ProjectionState V) × W}
            (resources.authorization_state recorded.stream v)
            (ok state, before)
        → result.events ≡ recorded.events
        → result.was_replayed ≡ true
        → result.through_version ≡ recorded.through_version
        → Origin metadata plan operation decoded result state before

  -- The authority granted what the plan's obligations ask about that state.
  pub record Authorized (metadata : RequestMetadata) (plan : IntentPlan) (operation : String)
      (decoded : Map V) (result : IntentResult V) : Type 0 where
    pub state : ProjectionState V
    pub before : W
    pub after : W
    pub origin : Origin metadata plan operation decoded result state before
    pub allowed :
        Allowed json resources context state
          (command_inputs plan.inputs decoded)
          plan.obligations
          before
          after

  replay-Authorized :
      (metadata : RequestMetadata) (plan : IntentPlan) (operation : String) (decoded : Map V)
      (claim : IntentClaimRequest) (recorded : RecordedIntent V) (u w w' : W)
      (result : IntentResult V)
      → OwnClaim json snapshots instant codec resources service context metadata plan operation
          decoded claim
      → ◌≡◌ {A = Result ResourceError (Option (RecordedIntent V)) × W}
          (resources.recorded_intent claim u)
          (ok (some recorded), w)
      → ◌≡◌ {A = Result ExecutionError (IntentResult V) × W}
          (replay_intent json resources service context plan
            (command_inputs plan.inputs decoded)
            recorded
            w)
          (ok result, w')
      → Authorized metadata plan operation decoded result
  unfolding replay_intent
  replay-Authorized metadata plan operation decoded claim recorded u w w' result own found h =
      let command = command_inputs plan.inputs decoded in
      let (same_events, same_replayed, same_version) =
        replay-answer json snapshots instant codec resources service context plan command recorded w
          w' result h in
      let (state, v, h1, k1) =
        step-eq-ok (port (resources.authorization_state recorded.stream)) _ w h in
      let (_, v2, h2, k2) =
        step-eq-ok (run_intent_authorization json resources context state command plan.obligations)
          _ v k1 in
      record {
        state = state;
        before = v;
        after = v2;
        origin =
            stored claim recorded u w own found
              (port-eq-ok (resources.authorization_state recorded.stream) w v state h1) same_events
              same_replayed same_version;
        allowed =
            (run_intent_authorization-Allowed json resources context state command plan.obligations
                v v2).0
              h2;
      }

  same_stream :
      {plan : IntentPlan} {key : String} (stream other : ServiceStream)
      → IsPlanned service context plan key stream
      → IsPlanned service context plan key other
      → other ≡ stream
  same_stream stream other a b i = record {
    service = (b.same_service ∙ sym a.same_service) i;
    tenant = (b.same_tenant ∙ sym a.same_tenant) i;
    realm = (b.same_realm ∙ sym a.same_realm) i;
    category = (b.same_category ∙ sym a.same_category) i;
    key = (b.same_key ∙ sym a.same_key) i;
  }

  decide-Authorized :
      (metadata : RequestMetadata) (plan : IntentPlan) (operation : String) (decoded : Map V)
      (claim : IntentClaimRequest) (w w' : W) (result : IntentResult V)
      → ◌≡◌ {A = Result ExecutionError (IntentResult V) × W}
          (decide_intent json resources service context snapshots instant metadata plan decoded
            claim w)
          (ok result, w')
      → Authorized metadata plan operation decoded result
  unfolding run_intent_obligations
  decide-Authorized metadata plan operation decoded claim w w' result h =
      let command = command_inputs plan.inputs decoded in
      let d =
        decide_intent-Decided json snapshots instant codec resources service context metadata plan
          decoded claim w w' result h in
      let (_, v7, h7, k7) =
        step-eq-ok
          (run_intent_authorization json resources context d.state command plan.obligations) _
          d.loaded_in d.obliged in
      record {
        state = d.state;
        before = d.loaded_in;
        after = v7;
        origin =
            folded d.stream_key w d.named_in d.stream d.history d.named d.own_stream d.loaded
              d.folded d.commit.request d.commit.receipt d.commit.asked_in d.commit.appended_in
              (same_stream d.stream d.commit.request.stream d.own_stream d.commit.own_stream)
              d.commit.appended d.commit.answered d.commit.version;
        allowed =
            (run_intent_authorization-Allowed json resources context d.state command
                plan.obligations d.loaded_in v7).0
              h7;
      }

  fallback-Authorized :
      (plan : IntentPlan) (claim : IntentClaimRequest) (metadata : RequestMetadata)
      (operation : String) (decoded : Map V) (w v w' : W)
      (outcome : Result ExecutionError (IntentResult V)) (result : IntentResult V)
      → OwnClaim json snapshots instant codec resources service context metadata plan operation
          decoded claim
      → ◌≡◌ {A = Result ExecutionError (IntentResult V) × W}
          (decide_intent json resources service context snapshots instant metadata plan decoded
            claim w)
          (outcome, v)
      → ◌≡◌ {A = Result ExecutionError (IntentResult V) × W}
          (or_recorded json resources service context plan
            (command_inputs plan.inputs decoded)
            claim
            outcome
            v)
          (ok result, w')
      → Authorized metadata plan operation decoded result
  unfolding or_recorded
  fallback-Authorized plan claim metadata operation decoded w v w' (ok r) result own d h =
      subst (λ x. Authorized metadata plan operation decoded x) (pure-eq-ok r result v w' h).0
        (decide-Authorized metadata plan operation decoded claim w v r d)
  fallback-Authorized plan claim metadata operation decoded w v w' (err e) result own d h =
      let (found, v1, h1, k1) = step-eq-ok (port (resources.recorded_intent claim)) _ v h in
      go found v1 (port-eq-ok (resources.recorded_intent claim) v v1 found h1) k1
    where
      go :
          (found : Option (RecordedIntent V)) (v1 : W)
          → ◌≡◌ {A = Result ResourceError (Option (RecordedIntent V)) × W}
              (resources.recorded_intent claim v)
              (ok found, v1)
          → ◌≡◌ {A = Result ExecutionError (IntentResult V) × W}
              (replay_or json resources service context plan
                (command_inputs plan.inputs decoded)
                found
                (fail e)
                v1)
              (ok result, w')
          → Authorized metadata plan operation decoded result
      go none v1 read k = absurd (ground arith)
      go (some r) v1 read k =
          replay-Authorized metadata plan operation decoded claim r v v1 w' result own read k

  -- An intent is answered only for a realm that the service admits, an operation of the plan and a
  -- body that its inputs accept, and only after the authority granted every question of the plan's
  -- obligations. For a decision they are about the fold of the loaded stream that the plan names,
  -- the one that the answered append went to; where the log has a record for this intent's own
  -- claim, in the caller's partition, they are about the stored state of the recorded stream, and
  -- the answer is that record. That holds for a new decision, for the record of an earlier
  -- one, and for a record that is found only after a decision failed.
  pub intent-Authorized :
      (metadata : RequestMetadata) (operation : String) (body : Bytes) (w w' : W)
      (result : IntentResult V)
      → ◌≡◌ {A = Result ExecutionError (IntentResult V) × W}
          (intent json resources service context snapshots instant codec metadata operation body w)
          (ok result, w')
      → (enforce (runtime service.realm) context ≡ ok tt)
        × (plan : IntentPlan) × (get operation service.intents ≡ some plan)
        × (decoded : Map V) × (decode_inputs json codec.from_slice plan.inputs body ≡ ok decoded)
        × Authorized metadata plan operation decoded result
  unfolding decide_once
  intent-Authorized metadata operation body w w' result h =
      let e =
        intent-Entered json snapshots instant codec resources service context metadata operation
          body w w' result h in
      (
        map_err-eq-ok context_violation (enforce (runtime service.realm) context) e.realm,
        e.plan,
        e.own_plan,
        e.decoded,
        e.own_body,
        go e.plan e.decoded e.claim e.found e.looked_in
            (claim-OwnClaim json snapshots instant codec resources service context metadata e.plan
              operation e.decoded e.key e.stream_key e.claim e.own_key e.own_stream e.own_claim)
            e.looked e.answered,
      )
    where
      go :
          (plan : IntentPlan) (decoded : Map V) (claim : IntentClaimRequest)
          (found : Option (RecordedIntent V)) (v : W)
          → OwnClaim json snapshots instant codec resources service context metadata plan operation
              decoded claim
          → ◌≡◌ {A = Result ResourceError (Option (RecordedIntent V)) × W}
              (resources.recorded_intent claim w)
              (ok found, v)
          → ◌≡◌ {A = Result ExecutionError (IntentResult V) × W}
              (replay_or json resources service context plan
                (command_inputs plan.inputs decoded)
                found
                (decide_once json resources service context snapshots instant metadata plan decoded
                  (command_inputs plan.inputs decoded)
                  claim)
                v)
              (ok result, w')
          → Authorized metadata plan operation decoded result
      go plan decoded claim (some recorded) v own read k =
          replay-Authorized metadata plan operation decoded claim recorded w v w' result own read k
      go plan decoded claim none v own read k =
          let d =
            decide_intent json resources service context snapshots instant metadata plan decoded
              claim v in
          fallback-Authorized plan claim metadata operation decoded v d.1 w' d.0 result own refl k
