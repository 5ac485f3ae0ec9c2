-- ===== src/Engine/Intent/Kept.antt =====
-- The record behind an intent that committed: crates/service-engine/src/lib.rs, `intent` and
-- `decide_intent`.
use service_sdk.Base.{
  ℕ, String, false, ◌≡◌, refl, sym, ap, subst, ◌∙◌, Option, none, some, List, [], ◌∷◌,
}
use service_sdk.Base.Maps.{Map}
use service_sdk.Base.Result.{Result, ok, err}
use service_sdk.Base.Action.{fail, step-eq-ok, lift-eq-ok, pure-eq-ok}
use service_sdk.Runtime.Auth.{VerifiedAuthContext}
use service_sdk.Engine.{DomainEvent, Json, ExecutionError, fold}
use service_sdk.Engine.Ports.{
  ServiceStream, AppendDisposition, committed, replayed, IntentClaimRequest, AppendReceipt,
  RecordedIntent, StagedContent, ServiceResources, port, port-eq-ok, RequestMetadata, IntentResult,
}
use service_sdk.Engine.Plans.{IntentPlan, ServicePlan}
use service_sdk.Engine.Inputs.{command_inputs}
use service_sdk.Engine.Graph.Materialize.{Snapshots}
use service_sdk.Engine.Claim.{IntentCodec, service_stream, append_request}
use service_sdk.Engine.Stage.{accept_all}
use service_sdk.Engine.Intent.Stages.{decide-Deciding}
use service_sdk.Engine.Intent.{publish, finish, replay_or, or_recorded, decide_intent, decide_once}
use service_sdk.Engine.Intent.Decided.{replay-answer}
use service_sdk.Engine.Intent.Records.{recorded_of, Has, KeepsIntents}

module _ {W V : Type 0} (json : Json V) (snapshots : Snapshots V) (instant : String → Option ℕ)
    (codec : IntentCodec V) (resources : ServiceResources W V) (service : ServicePlan)
    (context : VerifiedAuthContext) (keeps : KeepsIntents resources) where
  accept_all-Has :
      (claim : IntentClaimRequest) (recorded : RecordedIntent V) (staged : List StagedContent)
      (w w' : W)
      → ◌≡◌ {A = Result ExecutionError (Unit {0}) × W}
          (accept_all json resources service context staged w)
          (ok tt, w')
      → Has resources claim recorded w
      → Has resources claim recorded w'
  unfolding accept_all
  accept_all-Has claim recorded [] w w' h has =
      subst (λ x. Has resources claim recorded x) (pure-eq-ok tt tt w w' h).1 has
  accept_all-Has claim recorded (item ∷ staged) w w' h has =
      let (_, v, h1, k1) = step-eq-ok (port (resources.accept context item.token)) _ w h in
      accept_all-Has claim recorded staged v w' k1 (
        keeps.accepts claim recorded context item.token w v
          (port-eq-ok (resources.accept context item.token) w v tt h1) has)

  -- The ports have the record that the answer was made from.
  pub record Kept (plan : IntentPlan) (claim : IntentClaimRequest) (result : IntentResult V) (w : W)
      : Type 0 where
    pub stream : ServiceStream
    pub has :
        Has resources claim
          (record {
            stream = stream;
            events = result.events;
            through_version = result.through_version;
          })
          w
    pub outcome : result.outcome ≡ plan.outcome.name

  publish-Has :
      (claim : IntentClaimRequest) (recorded : RecordedIntent V) (plan : IntentPlan)
      (stream : ServiceStream) (events : List (DomainEvent V)) (through : ℕ)
      (staged : List StagedContent) (w w' : W) (result : IntentResult V)
      → ◌≡◌ {A = Result ExecutionError (IntentResult V) × W}
          (publish json resources service context plan stream events through staged w)
          (ok result, w')
      → Has resources claim recorded w
      → Has resources claim recorded w'
        × (result ≡ record {
          outcome = plan.outcome.name;
          events = events;
          through_version = through;
          was_replayed = false;
        })
  unfolding publish
  publish-Has claim recorded plan stream events through staged w w' result h has =
      let (history, v1, h1, k1) = step-eq-ok (port (resources.load stream)) _ w h in
      let (state, h2, k2) = lift-eq-ok (fold json service.reducers history) _ v1 k1 in
      let (_, v3, h3, k3) = step-eq-ok (port (resources.project _)) _ v1 k2 in
      let (_, v4, h4, k4) = step-eq-ok (accept_all json resources service context staged) _ v3 k3 in
      let (same, there) = pure-eq-ok _ result v4 w' k4 in
      let loaded =
        keeps.loads claim recorded stream history w v1
          (port-eq-ok (resources.load stream) w v1 history h1) has in
      let projected =
        keeps.projects claim recorded _ v1 v3 (port-eq-ok (resources.project _) v1 v3 tt h3)
          loaded in
      (
        subst (λ x. Has resources claim recorded x) there
            (accept_all-Has claim recorded staged v3 v4 h4 projected),
        sym same,
      )

  finish-Has :
      (d : AppendDisposition) (plan : IntentPlan) (claim : IntentClaimRequest)
      (stream : ServiceStream) (command : Map V) (events : List (DomainEvent V))
      (staged : List StagedContent) (receipt : AppendReceipt V) (w w' : W) (result : IntentResult V)
      → receipt.disposition ≡ d
      → (receipt.disposition ≡ committed
          → (receipt.events ≡ events) × Has resources claim (recorded_of receipt) w)
      → ◌≡◌ {A = Result ExecutionError (IntentResult V) × W}
          (finish json resources service context plan stream command events staged receipt w)
          (ok result, w')
      → result.was_replayed ≡ false
      → Kept plan claim result w'
  unfolding finish
  finish-Has replayed plan claim stream command events staged receipt w w' result p kept h fresh =
      let (_, old, _) =
        replay-answer json snapshots instant codec resources service context plan command
          (recorded_of receipt) w w' result (rw p at h) in
      cc (old, fresh)
  finish-Has committed plan claim stream command events staged receipt w w' result p kept h fresh =
      let (same_events, has) = kept p in
      let (found, answer) =
        publish-Has claim (recorded_of receipt) plan stream events receipt.through_version staged w
          w' result (rw p at h) has in
      let own_events : receipt.events ≡ result.events =
        same_events ∙ ap (λ r. r.events) (sym answer) in
      let own_version : receipt.through_version ≡ result.through_version =
        ap (λ r. r.through_version) (sym answer) in
      record {
        stream = receipt.stream;
        has =
            subst
              (λ es.
                Has resources claim
                  (record {
                    stream = receipt.stream;
                    events = es;
                    through_version = result.through_version;
                  })
                  w')
              own_events
              (subst
                (λ n.
                  Has resources claim
                    (record {
                      stream = receipt.stream;
                      events = receipt.events;
                      through_version = n;
                    })
                    w')
                own_version found);
        outcome = ap (λ r. r.outcome) answer;
      }

  decide-Has :
      (metadata : RequestMetadata) (plan : IntentPlan) (decoded : Map V)
      (claim : IntentClaimRequest) (w w' : W) (result : IntentResult V)
      → claim.tenant ≡ context.tenant
      → ◌≡◌ {A = Result ExecutionError (IntentResult V) × W}
          (decide_intent json resources service context snapshots instant metadata plan decoded
            claim w)
          (ok result, w')
      → result.was_replayed ≡ false
      → Kept plan claim result w'
  decide-Has metadata plan decoded claim w w' result own h fresh =
      let d =
        decide-Deciding json snapshots instant codec resources service context metadata plan decoded
          claim w w' result h in
      let c = d.committing in
      let stream = service_stream service context plan d.stream_key in
      finish-Has c.receipt.disposition plan claim stream d.staged.0 c.events d.staged.1 c.receipt
        c.appended_in w' result refl
        (keeps.appends
          (append_request context metadata stream d.expected d.key claim c.events c.occurred_at)
          c.asked_in c.appended_in c.receipt own c.appended)
        c.finished fresh

  fallback-Has :
      (metadata : RequestMetadata) (plan : IntentPlan) (decoded : Map V)
      (claim : IntentClaimRequest) (w v w' : W) (outcome : Result ExecutionError (IntentResult V))
      (result : IntentResult V)
      → claim.tenant ≡ context.tenant
      → ◌≡◌ {A = Result ExecutionError (IntentResult V) × W}
          (decide_intent json resources service context snapshots instant metadata plan decoded
            claim w)
          (outcome, v)
      → ◌≡◌ {A = Result ExecutionError (IntentResult V) × W}
          (or_recorded json resources service context plan
            (command_inputs plan.inputs decoded)
            claim
            outcome
            v)
          (ok result, w')
      → result.was_replayed ≡ false
      → Kept plan claim result w'
  unfolding or_recorded
  fallback-Has metadata plan decoded claim w v w' (ok r) result own d h fresh =
      let (same, there) = pure-eq-ok r result v w' h in
      decide-Has metadata plan decoded claim w w' result own (rw (← same, ← there) d) fresh
  fallback-Has metadata plan decoded claim w v w' (err e) result own d h fresh =
      let (found, v1, h1, k1) = step-eq-ok (port (resources.recorded_intent claim)) _ v h in
      absurd (no_fresh found v1 k1)
    where
      no_fresh :
          (found : Option (RecordedIntent V)) (v1 : W)
          → ◌≡◌ {A = Result ExecutionError (IntentResult V) × W}
              (replay_or json resources service context plan
                (command_inputs plan.inputs decoded)
                found
                (fail e)
                v1)
              (ok result, w')
          → ⊥
      no_fresh none v1 k = cc
      no_fresh (some r) v1 k =
          let (_, old, _) =
            replay-answer json snapshots instant codec resources service context plan
              (command_inputs plan.inputs decoded) r v1 w' result k in
          cc (old, fresh)

  pub answered-Has :
      (metadata : RequestMetadata) (plan : IntentPlan) (decoded : Map V)
      (claim : IntentClaimRequest) (found : Option (RecordedIntent V)) (v w' : W)
      (result : IntentResult V)
      → claim.tenant ≡ context.tenant
      → ◌≡◌ {A = Result ExecutionError (IntentResult V) × W}
          (replay_or json resources service context plan
            (command_inputs plan.inputs decoded)
            found
            (decide_once json resources service context snapshots instant metadata plan decoded
              (command_inputs plan.inputs decoded)
              claim)
            v)
          (ok result, w')
      → result.was_replayed ≡ false
      → Kept plan claim result w'
  unfolding decide_once
  answered-Has metadata plan decoded claim none v w' result own h fresh =
      let d =
        decide_intent json resources service context snapshots instant metadata plan decoded claim
          v in
      fallback-Has metadata plan decoded claim v d.1 w' d.0 result own refl h fresh
  answered-Has metadata plan decoded claim (some r) v w' result own h fresh =
      let (_, old, _) =
        replay-answer json snapshots instant codec resources service context plan
          (command_inputs plan.inputs decoded) r v w' result h in
      absurd (cc (old, fresh))
