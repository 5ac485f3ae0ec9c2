-- ===== src/Runtime/Execution/Stages.antt =====
-- What a successful execution has gone through.
use service_sdk.Base.{
  inl, inr, Option-cases, ◌≡◌, some, List, [], ◌∷◌, ◌<◌, length, arith, eq_iff, option_eq_iff,
}
use service_sdk.Base.Result.{ok, Result-cases}
use service_sdk.Runtime.Auth.{enforce}
use service_sdk.Runtime.History.{EventEnvelope, EventHistory, validate, through_version}
use service_sdk.Runtime.History.Gapless.{stream_eq_iff}
use service_sdk.Runtime.Projection.{ProjectionTarget, ProjectionSink, ProjectionOutcome, deliver}
use service_sdk.Runtime.Aggregate.{
  Aggregate, ExecutionRequest, FoldStage, check_scope, apply_all, fold, non_empty, decide_events,
}
use service_sdk.Runtime.Execution.{EventLog, ExecutionResult, World, reduced, commit, execute}

module _ {S I C E R L P X Y : Type 0} (aggregate : Aggregate S I C E R) (event_log : EventLog L X E)
    (sink : ProjectionSink P Y S E) where
  -- The request is of the aggregate's service and of the caller's tenant and exact realm.
  pub record InScope (request : ExecutionRequest I) : Type 0 where
    pub admitted : enforce aggregate.realm_policy request.context ≡ ok tt
    pub service : request.stream.service ≡ aggregate.service_id
    pub tenant : request.stream.tenant ≡ request.context.tenant
    pub realm : request.stream.realm ≡ request.context.realm

  pub check_scope-InScope :
      (request : ExecutionRequest I) → check_scope aggregate request ≡ ok tt → InScope request
  unfolding check_scope
  check_scope-InScope request h = ground (
    arith,
    eq_iff request.stream.service aggregate.service_id,
    eq_iff request.stream.tenant request.context.tenant,
    option_eq_iff request.stream.realm request.context.realm,
  )

  -- What the aggregate has said to a request in a state before its events are appended: each of its
  -- four functions has succeeded, on the result of the one before.
  pub record Passed (request : ExecutionRequest I) (state : S) (events : List E) : Type 0 where
    pub authorized : aggregate.authorize request.context state request.intent ≡ ok tt
    pub validated : aggregate.validate_intent request.context state request.intent ≡ ok tt
    pub command : C
    pub commanded : aggregate.command request.context state request.intent ≡ ok command
    pub decided : aggregate.decide request.context state command ≡ ok events
    pub some_event : 0 < length events

  pub decide_events-Passed :
      (request : ExecutionRequest I) (state : S) (events : List E)
      → decide_events aggregate request state ≡ ok events
      → Passed request state events
  unfolding decide_events
  decide_events-Passed request state events h =
      elim (Result-cases (aggregate.authorize request.context state request.intent)) [
        | inr (x, failed) ↦ absurd (ground arith)
        | inl (tt, e1) ↦
            elim (Result-cases (aggregate.validate_intent request.context state request.intent)) [
              | inr (x, failed) ↦ absurd (ground arith)
              | inl (tt, e2) ↦
                  elim (Result-cases (aggregate.command request.context state request.intent)) [
                    | inr (x, failed) ↦ absurd (ground arith)
                    | inl (command, e3) ↦
                        elim (Result-cases (aggregate.decide request.context state command)) [
                          | inr (x, failed) ↦ absurd (ground arith)
                          | inl (planned, e4) ↦
                              named request state events command planned e1 e2 e3 e4 (ground arith)
                        ]
                  ]
            ]
      ]
    where
      named :
          (request : ExecutionRequest I) (state : S) (events : List E) (command : C)
          (planned : List E)
          → aggregate.authorize request.context state request.intent ≡ ok tt
          → aggregate.validate_intent request.context state request.intent ≡ ok tt
          → aggregate.command request.context state request.intent ≡ ok command
          → aggregate.decide request.context state command ≡ ok planned
          → non_empty {R = R} planned ≡ ok events
          → Passed request state events
      named request state events command [] e1 e2 e3 e4 h = absurd (ground arith)
      named request state events command (x ∷ xs) e1 e2 e3 e4 h = record {
        authorized = e1;
        validated = e2;
        command = command;
        commanded = e3;
        decided = ground arith;
        some_event = ground arith;
      }

  -- The stages of one successful execution from the world `w` to the world `w'`.
  pub record Accepted (request : ExecutionRequest I) (w : World L P) (r : ExecutionResult S E)
      (w' : World L P) : Type 0 where
    pub scope : InScope request
    pub loaded : EventHistory E
    pub load : (event_log.load request.stream w.log).0 ≡ ok loaded
    pub valid : validate loaded ≡ ok tt
    pub own_stream : loaded.stream ≡ request.stream
    pub state : S
    pub folded : state ≡ apply_all aggregate (aggregate.initial_state request.stream) loaded.events
    pub events : List E
    pub passed : Passed request state events
    -- The append is guarded by the caller's own version and key.
    pub appended :
        event_log.append_guarded
          (record {
            stream = request.stream;
            expected = request.expected_version;
            idempotency_key = request.idempotency_key;
            events = events;
          })
          (event_log.load request.stream w.log).1
        ≡ (ok r.append, w'.log)
    pub final : r.state ≡ reduced aggregate event_log sink state r.append
    pub target : through_version r.append ≡ some r.projection.target.through
    pub target_stream : r.projection.target.stream ≡ request.stream
    pub delivered :
        deliver sink request.context request.projection_delivery r.projection.target r.state
          r.append.events w.sink
        ≡ (ok r.projection, w'.sink)

  pub fold-ok :
      (request : ExecutionRequest I) (loaded : EventHistory E) (stage : FoldStage S)
      → fold aggregate request.stream loaded ≡ ok stage
      → (validate loaded ≡ ok tt)
        × (loaded.stream ≡ request.stream)
        × (stage.state ≡ apply_all aggregate (aggregate.initial_state request.stream) loaded.events)
  unfolding fold
  fold-ok request loaded stage h = ground (arith, stream_eq_iff loaded.stream request.stream)

  -- What lies before the append.
  execute-ok :
      (request : ExecutionRequest I) (w w' : World L P) (r : ExecutionResult S E)
      → execute aggregate event_log sink request w ≡ (ok r, w')
      → (check_scope aggregate request ≡ ok tt)
        × (loaded : EventHistory E) × ((event_log.load request.stream w.log).0 ≡ ok loaded)
        × (stage : FoldStage S) × (fold aggregate request.stream loaded ≡ ok stage)
        × (events : List E) × (decide_events aggregate request stage.state ≡ ok events)
        × (commit aggregate event_log sink request stage.state events
              (record w { log = (event_log.load request.stream w.log).1 })
            ≡ (ok r, w'))
  unfolding execute
  execute-ok request w w' r h = elim (Result-cases (event_log.load request.stream w.log).0) [
    | inr (x, failed) ↦ ground arith
    | inl (loaded, e1) ↦ elim (Result-cases (fold aggregate request.stream loaded)) [
      | inr (x, failed) ↦ ground arith
      | inl (stage, e2) ↦ elim (Result-cases (decide_events aggregate request stage.state)) [
        | inr (x, failed) ↦ ground arith
        | inl (events, e3) ↦ (ground arith, loaded, e1, stage, e2, events, e3, ground arith)
      ]
    ]
  ]

  target-deliver :
      (request : ExecutionRequest I) (target : ProjectionTarget) (state : S)
      (events : List (EventEnvelope E)) (p p' : P) (o : ProjectionOutcome)
      → deliver sink request.context request.projection_delivery target state events p ≡ (ok o, p')
      → o.target ≡ target
  unfolding deliver
  target-deliver request target state events p p' o h = ground arith

  commit-ok :
      (request : ExecutionRequest I) (state : S) (events : List E) (w w' : World L P)
      (r : ExecutionResult S E)
      → commit aggregate event_log sink request state events w ≡ (ok r, w')
      → (event_log.append_guarded
            (record {
              stream = request.stream;
              expected = request.expected_version;
              idempotency_key = request.idempotency_key;
              events = events;
            })
            w.log
          ≡ (ok r.append, w'.log))
        × (r.state ≡ reduced aggregate event_log sink state r.append)
        × (through_version r.append ≡ some r.projection.target.through)
        × (r.projection.target.stream ≡ request.stream)
        × (deliver sink request.context request.projection_delivery r.projection.target r.state
              r.append.events w.sink
            ≡ (ok r.projection, w'.sink))
  unfolding commit
  commit-ok request state events w w' r h =
      elim (Result-cases
        (event_log.append_guarded
          (record {
            stream = request.stream;
            expected = request.expected_version;
            idempotency_key = request.idempotency_key;
            events = events;
          })
          w.log).0) [
            | inr (x, failed) ↦ ground arith
            | inl (receipt, e1) ↦ elim (Option-cases (through_version receipt)) [
              | inl nothing ↦ ground arith
              | inr (through, e2) ↦ ground (
                arith,
                target-deliver request (record { stream = request.stream; through = through })
                    (reduced aggregate event_log sink state receipt) receipt.events w.sink w'.sink
                    r.projection,
              )
            ]
          ]

  -- An execution that succeeds is of the aggregate's service and the caller's tenant and exact realm,
  -- has loaded a valid history of the stream, and in the state folded from it the aggregate has
  -- authorized the caller, validated the intent, built the command and decided at least one event
  -- from it; its one append carries the caller's expected version and key.
  pub execute-Accepted :
      (request : ExecutionRequest I) (w w' : World L P) (r : ExecutionResult S E)
      → execute aggregate event_log sink request w ≡ (ok r, w')
      → Accepted request w r w'
  execute-Accepted request w w' r h =
      let (scope, loaded, load, stage, folded, events, decided, rest) =
        execute-ok request w w' r h in
      let (valid, own, state) = fold-ok request loaded stage folded in
      let (appended, final, target, stream, delivered) =
        commit-ok request stage.state events
          (record w { log = (event_log.load request.stream w.log).1 }) w' r rest in
      record {
        scope = check_scope-InScope request scope;
        loaded = loaded;
        load = load;
        valid = valid;
        own_stream = own;
        state = stage.state;
        folded = state;
        events = events;
        passed = decide_events-Passed request stage.state events decided;
        appended = appended;
        final = final;
        target = target;
        target_stream = stream;
        delivered = delivered;
      }
