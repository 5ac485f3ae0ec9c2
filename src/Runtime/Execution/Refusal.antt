-- ===== src/Runtime/Execution/Refusal.antt =====
-- What a failed execution has done to the log and to the projections.
use service_sdk.Base.{◌≡◌, ◌⊎◌, inl, inr, List, arith}
use service_sdk.Base.Result.{ok, err, Result-cases}
use service_sdk.Runtime.Auth.{ContextPolicyViolation}
use service_sdk.Runtime.History.{EventHistory, GuardedAppend, validate}
use service_sdk.Runtime.Projection.{ProjectionSink}
use service_sdk.Runtime.Aggregate.{
  Aggregate, ExecutionRequest, check_scope, apply_all, fold, decide_events,
}
use service_sdk.Runtime.Execution.Stages.{
  InScope, Passed, check_scope-InScope, fold-ok, decide_events-Passed,
}
use service_sdk.Runtime.Execution.{EventLog, context, World, commit, execute}

module _ {S I C E R L P X Y : Type 0} (aggregate : Aggregate S I C E R) (event_log : EventLog L X E)
    (sink : ProjectionSink P Y S E) where
  -- The append that `execute` makes for a list of events.
  abbrev pub guarded : ExecutionRequest I → List E → GuardedAppend E
  guarded request events = record {
    stream = request.stream;
    expected = request.expected_version;
    idempotency_key = request.idempotency_key;
    events = events;
  }

  -- The events that an execution may append: the request is in scope, the loaded history valid, and
  -- in the state folded from it the aggregate authorized, validated, built a command and decided.
  pub record Decided (request : ExecutionRequest I) (w : World L P) (events : List E) : Type 0 where
    pub scope : InScope aggregate event_log sink request
    pub loaded : EventHistory E
    pub load : (event_log.load request.stream w.log).0 ≡ ok loaded
    pub valid : validate loaded ≡ ok tt
    pub own_stream : loaded.stream ≡ request.stream
    pub state : S
    pub folded : state ≡ apply_all aggregate (aggregate.initial_state request.stream) loaded.events
    pub passed : Passed aggregate event_log sink request state events

  commit-log :
      (request : ExecutionRequest I) (state : S) (events : List E) (w : World L P)
      → (commit aggregate event_log sink request state events w).1.log
        ≡ (event_log.append_guarded (guarded request events) w.log).1
  unfolding commit
  commit-log request state events w = ground arith

  -- Whatever the outcome, the log that an execution leaves is the given one, the one that the load
  -- leaves, or the one after one append, under the caller's own version and key, of events that the
  -- aggregate decided in the state folded from the valid history, for a request in scope that it
  -- authorized and validated there.
  pub log-execute :
      (request : ExecutionRequest I) (w : World L P)
      → ((execute aggregate event_log sink request w).1.log ≡ w.log)
        ⊎ ((execute aggregate event_log sink request w).1.log
            ≡ (event_log.load request.stream w.log).1)
        ⊎ ((events : List E) × Decided request w events
            × ((execute aggregate event_log sink request w).1.log
                ≡ (event_log.append_guarded
                    (guarded request events)
                    (event_log.load request.stream w.log).1).1))
  unfolding execute
  log-execute request w = elim (Result-cases (check_scope aggregate request)) [
    | inr (x, failed) ↦ inl (ground arith)
    | inl (_, e0) ↦ elim (Result-cases (event_log.load request.stream w.log).0) [
      | inr (x, failed) ↦ inr (inl (ground arith))
      | inl (loaded, e1) ↦ elim (Result-cases (fold aggregate request.stream loaded)) [
        | inr (x, failed) ↦ inr (inl (ground arith))
        | inl (stage, e2) ↦ elim (Result-cases (decide_events aggregate request stage.state)) [
          | inr (x, failed) ↦ inr (inl (ground arith))
          | inl (events, e3) ↦
              let (valid, own, state) = fold-ok aggregate event_log sink request loaded stage e2 in
              inr (
                inr (
                  events,
                  record {
                    scope = check_scope-InScope aggregate event_log sink request e0;
                    loaded = loaded;
                    load = e1;
                    valid = valid;
                    own_stream = own;
                    state = stage.state;
                    folded = state;
                    passed =
                        decide_events-Passed aggregate event_log sink request stage.state events e3;
                  },
                  ground (
                    arith,
                    commit-log request stage.state events
                        (record w { log = (event_log.load request.stream w.log).1 }),
                  ),
                ))
        ]
      ]
    ]
  ]

  -- A request outside the aggregate's service or the caller's tenant and exact realm is refused
  -- before the log or a projection is touched.
  execute-scope :
      (request : ExecutionRequest I) (w : World L P) (v : ContextPolicyViolation)
      → check_scope aggregate request ≡ err v
      → execute aggregate event_log sink request w ≡ (err (context v), w)
  unfolding execute
  execute-scope request w v h = ground arith
