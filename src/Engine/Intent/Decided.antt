-- ===== src/Engine/Intent/Decided.antt =====
-- What a decision appends and answers: crates/service-engine/src/lib.rs, `decide_intent`.
use service_sdk.Base.{ℕ, Option, String, Bool, true, false, ◌≡◌, refl, sym, ap, subst, List, map}
use service_sdk.Base.Maps.{Map}
use service_sdk.Base.Result.{Result, ok}
use service_sdk.Base.Action.{step-eq-ok, lift-eq-ok, pure-eq-ok}
use service_sdk.Runtime.Auth.{VerifiedAuthContext}
use service_sdk.Engine.{DomainEvent, LoadedStream, ProjectionState, Json, ExecutionError, fold}
use service_sdk.Engine.Ports.{
  ServiceStream, AppendExpectation, AppendReceipt, AppendDisposition, committed, replayed,
  IntentClaimRequest, RecordedIntent, StagedContent, ServiceResources, port, port-eq-ok,
  RequestMetadata, IntentResult,
}
use service_sdk.Engine.Plans.{IntentPlan, ServicePlan}
use service_sdk.Engine.Obligations.Authorization.{run_intent_authorization}
use service_sdk.Engine.Events.Produced.{produce_events-foldable}
use service_sdk.Engine.Rows.{projection_rows_for_partition}
use service_sdk.Engine.Graph.Materialize.{Snapshots}
use service_sdk.Engine.Claim.{IntentCodec, service_stream, append_request}
use service_sdk.Engine.Stage.{accept_all}
use service_sdk.Engine.Intent.Stream.{service_stream-IsPlanned}
use service_sdk.Engine.Intent.Course.{answer, Followed, Committed, Decided}
use service_sdk.Engine.Intent.Stages.{Committing, decide-Deciding}
use service_sdk.Engine.Intent.{replay_intent, publish, finish, decide_intent}

module _ {W V : Type 0} (json : Json V) (snapshots : Snapshots V) (instant : String → Option ℕ)
    (codec : IntentCodec V) (resources : ServiceResources W V) (service : ServicePlan)
    (context : VerifiedAuthContext) where
  publish-answer :
      (plan : IntentPlan) (stream : ServiceStream) (command : Map V) (events : List (DomainEvent V))
      (receipt : AppendReceipt V) (staged : List StagedContent) (w w' : W) (result : IntentResult V)
      → ◌≡◌ {A = Result ExecutionError (IntentResult V) × W}
          (publish json resources service context plan stream events receipt.through_version staged
            w)
          (ok result, w')
      → (result.events ≡ events)
        × (result.was_replayed ≡ false)
        × (result.through_version ≡ receipt.through_version)
        × Followed json snapshots instant codec resources service context committed plan stream
            command staged receipt w w'
  unfolding publish
  publish-answer plan stream command events receipt staged w w' result h =
      let (history, v1, h1, k1) = step-eq-ok (port (resources.load stream)) _ w h in
      let (state, h2, k2) = lift-eq-ok (fold json service.reducers history) _ v1 k1 in
      let write = resources.project (record {
        stream = stream;
        through_version = receipt.through_version;
        rows =
            map (λ row. row.row)
              (projection_rows_for_partition json state context.tenant context.realm service.views);
      }) in
      let (_, v3, h3, k3) = step-eq-ok (port write) _ v1 k2 in
      let (_, v4, h4, k4) = step-eq-ok (accept_all json resources service context staged) _ v3 k3 in
      let (same, there) = pure-eq-ok _ result v4 w' k4 in
      (
        sym (ap (λ r. r.events) same),
        sym (ap (λ r. r.was_replayed) same),
        sym (ap (λ r. r.through_version) same),
        (
          history,
          v1,
          port-eq-ok (resources.load stream) w v1 history h1,
          state,
          h2,
          v3,
          port-eq-ok write v1 v3 tt h3,
          subst
              (λ x.
                ◌≡◌ {A = Result ExecutionError (Unit {0}) × W}
                  (accept_all json resources service context staged v3) (ok tt, x))
              there h4,
        ),
      )

  pub replay-answer :
      (plan : IntentPlan) (command : Map V) (recorded : RecordedIntent V) (w w' : W)
      (result : IntentResult V)
      → ◌≡◌ {A = Result ExecutionError (IntentResult V) × W}
          (replay_intent json resources service context plan command recorded w)
          (ok result, w')
      → (result.events ≡ recorded.events)
        × (result.was_replayed ≡ true)
        × (result.through_version ≡ recorded.through_version)
  unfolding replay_intent
  replay-answer plan command recorded w w' result h =
      let (state, v1, h1, k1) =
        step-eq-ok (port (resources.authorization_state recorded.stream)) _ w h in
      let (_, v2, h2, k2) =
        step-eq-ok (run_intent_authorization json resources context state command plan.obligations)
          _ v1 k1 in
      let same = (pure-eq-ok _ result v2 w' k2).0 in
      (
        sym (ap (λ r. r.events) same),
        sym (ap (λ r. r.was_replayed) same),
        sym (ap (λ r. r.through_version) same),
      )

  replay-Followed :
      (plan : IntentPlan) (stream : ServiceStream) (command : Map V) (staged : List StagedContent)
      (receipt : AppendReceipt V) (w w' : W) (result : IntentResult V)
      → ◌≡◌ {A = Result ExecutionError (IntentResult V) × W}
          (replay_intent json resources service context plan command
            (record {
              stream = receipt.stream;
              events = receipt.events;
              through_version = receipt.through_version;
            })
            w)
          (ok result, w')
      → Followed json snapshots instant codec resources service context replayed plan stream command
          staged receipt w w'
  unfolding replay_intent
  replay-Followed plan stream command staged receipt w w' result h =
      let (state, v1, h1, k1) =
        step-eq-ok (port (resources.authorization_state receipt.stream)) _ w h in
      let (_, v2, h2, k2) =
        step-eq-ok (run_intent_authorization json resources context state command plan.obligations)
          _ v1 k1 in
      (
        state,
        v1,
        port-eq-ok (resources.authorization_state receipt.stream) w v1 state h1,
        subst
            (λ x.
              ◌≡◌ {A = Result ExecutionError (Unit {0}) × W}
                (run_intent_authorization json resources context state command plan.obligations v1)
                (ok tt, x))
            (pure-eq-ok _ result v2 w' k2).1 h2,
      )

  pub finish-answer :
      (d : AppendDisposition) (plan : IntentPlan) (stream : ServiceStream) (command : Map V)
      (events : List (DomainEvent V)) (staged : List StagedContent) (receipt : AppendReceipt V)
      (w w' : W) (result : IntentResult V)
      → receipt.disposition ≡ d
      → ◌≡◌ {A = Result ExecutionError (IntentResult V) × W}
          (finish json resources service context plan stream command events staged receipt w)
          (ok result, w')
      → ◌≡◌ {A = List (DomainEvent V) × Bool}
          (result.events, result.was_replayed)
          (answer d events receipt.events)
        × (result.through_version ≡ receipt.through_version)
        × Followed json snapshots instant codec resources service context d plan stream command
            staged receipt w w'
  unfolding finish
  finish-answer committed plan stream command events staged receipt w w' result p h =
      let (a, b, c, rest) =
        publish-answer plan stream command events receipt staged w w' result (rw p at h) in
      (rw (a, b) refl, c, rest)
  finish-answer replayed plan stream command events staged receipt w w' result p h =
      let run = rw p at h in
      let (a, b, c) =
        replay-answer plan command
          (record {
            stream = receipt.stream;
            events = receipt.events;
            through_version = receipt.through_version;
          })
          w w' result run in
      (rw (a, b) refl, c, replay-Followed plan stream command staged receipt w w' result run)

  commit-Committed :
      (metadata : RequestMetadata) (plan : IntentPlan) (claim : IntentClaimRequest) (key : String)
      (expected : AppendExpectation) (stream_key : String) (state : ProjectionState V)
      (staged : Map V × List StagedContent) (history : LoadedStream V) (w w' : W)
      (result : IntentResult V)
      → fold json service.reducers history ≡ ok state
      → Committing json snapshots instant codec resources service context metadata plan claim key
          expected stream_key state staged w w' result
      → Committed json snapshots instant codec resources service context metadata plan claim key
          expected stream_key history state staged w w' result
  commit-Committed metadata plan claim key expected stream_key state staged history w w' result f
        c =
      let (some_event, planned, final, folds) =
        produce_events-foldable json snapshots resources context stream_key staged.0 state
          service.reducers plan.outcome.events c.events w c.produced_in history f c.produced in
      let (answered, version, followed) =
        finish-answer c.receipt.disposition plan (service_stream service context plan stream_key)
          staged.0 c.events staged.1 c.receipt c.appended_in w' result refl c.finished in
      record {
        request =
            append_request context metadata (service_stream service context plan stream_key)
              expected key claim c.events c.occurred_at;
        own_stream = service_stream-IsPlanned service context plan stream_key;
        own_version = refl;
        own_key = refl;
        own_claim = refl;
        own_subject = refl;
        own_actor = refl;
        own_request = refl;
        own_trace = refl;
        some_event = some_event;
        planned = planned;
        foldable = (final, folds);
        produced_in = c.produced_in;
        produced = c.produced;
        asked_in = c.asked_in;
        dated = c.dated;
        receipt = c.receipt;
        appended_in = c.appended_in;
        appended = c.appended;
        followed = followed;
        answered = answered;
        version = version;
      }

  -- A decision that succeeds asked for one append, in its course from `w` to `w'`: to the stream
  -- that the plan names in the caller's partition, the one that it loaded and folded for its
  -- obligations, under the caller's key and expected version and the claim of the intent, in the
  -- caller's name, of at least one event, those that its plan names in that order, which fold behind
  -- the loaded history. It answers with these events when the append was committed, after the
  -- stream's rows were written and the staged content accepted, with the recorded ones when it was a
  -- replay, after the authority was asked again, and in both cases with the version of the receipt.
  pub decide_intent-Decided :
      (metadata : RequestMetadata) (plan : IntentPlan) (decoded : Map V)
      (claim : IntentClaimRequest) (w w' : W) (result : IntentResult V)
      → ◌≡◌ {A = Result ExecutionError (IntentResult V) × W}
          (decide_intent json resources service context snapshots instant metadata plan decoded
            claim w)
          (ok result, w')
      → Decided json snapshots instant codec resources service context metadata plan decoded claim w
          w' result
  decide_intent-Decided metadata plan decoded claim w w' result h =
      let d =
        decide-Deciding json snapshots instant codec resources service context metadata plan decoded
          claim w w' result h in
      record {
        key = d.key;
        own_key = d.own_key;
        expected = d.expected;
        own_version = d.own_version;
        stream_key = d.stream_key;
        named_in = d.named_in;
        named = d.named;
        stream = service_stream service context plan d.stream_key;
        own_stream = service_stream-IsPlanned service context plan d.stream_key;
        history = d.history;
        loaded_in = d.loaded_in;
        loaded = d.loaded;
        state = d.state;
        folded = d.folded;
        obliged_in = d.obliged_in;
        obliged = d.obliged;
        staged = d.staged;
        staged_in = d.staged_in;
        contents = d.contents;
        commit =
            commit-Committed metadata plan claim d.key d.expected d.stream_key d.state d.staged
              d.history d.staged_in w' result d.folded d.committing;
      }
