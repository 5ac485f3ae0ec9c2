-- ===== src/Runtime/Execution.antt =====
-- crates/service-runtime/src/execution.rs: one intent through the mutation pipeline.
pub mod Stages
pub mod Refusal
pub mod Reload
use service_sdk.Base.{Option, none, some, List}
use service_sdk.Base.Result.{Result, ok, err, map_err, ok_or}
use service_sdk.Base.Action.{Action, pure, lift, ◌>>=◌, ◌>>◌}
use service_sdk.Runtime.Auth.{ContextPolicyViolation}
use service_sdk.Runtime.Stream.{StreamId}
use service_sdk.Runtime.History.{
  EventHistory, HistoryInvariantError, GuardedAppend, committed, replayed, AppendReceipt,
  AppendError, through_version,
}
use service_sdk.Runtime.Projection.{ProjectionOutcome, ProjectionSink, deliver}
use service_sdk.Runtime.Aggregate.{
  Aggregate, ExecutionRequest, FoldStage, DecisionError, rejected, empty_decision, check_scope,
  apply_all, fold, decide_events,
}

-- The port `EventLog<E>`: `L` is the log's own state and `X` its error.
pub record EventLog (L X E : Type 0) : Type 0 where
  pub load : StreamId → Action L X (EventHistory E)
  pub append_guarded : GuardedAppend E → Action L (AppendError X) (AppendReceipt E)

pub record ExecutionResult (S E : Type 0) : Type 0 where
  pub state : S
  pub append : AppendReceipt E
  pub projection : ProjectionOutcome

pub data ExecutionError (R X Y : Type 0) : Type 0 where
  context : ContextPolicyViolation → ExecutionError R X Y
  load_failed : X → ExecutionError R X Y
  history : HistoryInvariantError → ExecutionError R X Y
  rejected_intent : R → ExecutionError R X Y
  no_events : ExecutionError R X Y
  append_failed : AppendError X → ExecutionError R X Y
  projection_failed : Y → ExecutionError R X Y

-- What the event log and the projection sink hold.
pub record World (L P : Type 0) : Type 0 where
  pub log : L
  pub sink : P

-- A call of the event log, and of the sink, with its error converted.
module _ {L P E A : Type 0} where
  abbrev pub on_log : {X : Type 0} → (X → E) → Action L X A → Action (World L P) E A
  on_log f m w = let (r, l) = m w.log in (map_err f r, record w { log = l })

  abbrev pub on_sink : {Y : Type 0} → (Y → E) → Action P Y A → Action (World L P) E A
  on_sink f m w = let (r, p) = m w.sink in (map_err f r, record w { sink = p })

abbrev pub from_decision : {R X Y : Type 0} → DecisionError R → ExecutionError R X Y
from_decision (rejected r) = rejected_intent r
from_decision empty_decision = no_events

module _ {S I C E R L P X Y : Type 0} (aggregate : Aggregate S I C E R) (event_log : EventLog L X E)
    (sink : ProjectionSink P Y S E) where
  -- The state after the append: the events of a replay were in the loaded history.
  unfoldable pub reduced : S → AppendReceipt E → S
  reduced state receipt = elim receipt.disposition [
    | committed ↦ apply_all aggregate state receipt.events
    | replayed ↦ state
  ]

  -- From the decided events on.
  unfoldable pub commit :
      ExecutionRequest I
      → S
      → List E
      → Action (World L P) (ExecutionError R X Y) (ExecutionResult S E)
  unfolding reduced
  commit request state events = do
    append ← on_log append_failed (
        event_log.append_guarded (record {
          stream = request.stream;
          expected = request.expected_version;
          idempotency_key = request.idempotency_key;
          events = events;
        }))
    let final = reduced state append
    through ← lift (ok_or (through_version append) no_events)
    projection ← on_sink projection_failed (
        deliver sink request.context request.projection_delivery
          (record { stream = request.stream; through = through }) final append.events)
    pure (record { state = final; append = append; projection = projection })

  unfoldable pub execute :
      ExecutionRequest I → Action (World L P) (ExecutionError R X Y) (ExecutionResult S E)
  execute request = do
    lift (map_err context (check_scope aggregate request))
    loaded ← on_log load_failed (event_log.load request.stream)
    stage ← lift (map_err history (fold aggregate request.stream loaded))
    events ← lift (map_err from_decision (decide_events aggregate request stage.state))
    commit request stage.state events
