-- ===== src/Runtime/Execution/Reload.antt =====
-- The state that an execution returns is the one that the next execution folds.
use mathlib.Core.List.{foldl-append}
use service_sdk.Base.{◌≡◌, refl, sym, ap, ◌∙◌, ◌++◌, arith}
use service_sdk.Base.Result.{ok}
use service_sdk.Runtime.History.{
  EventHistory, GuardedAppend, AppendReceipt, AppendDisposition, committed, replayed,
}
use service_sdk.Runtime.Projection.{ProjectionSink}
use service_sdk.Runtime.Aggregate.{Aggregate, ExecutionRequest, apply_all}
use service_sdk.Runtime.Execution.{EventLog, ExecutionResult, World, reduced, execute}
use service_sdk.Runtime.Execution.Refusal.{guarded}
use service_sdk.Runtime.Execution.Stages.{Accepted, execute-Accepted}

-- What the port documents: a load changes nothing, a committed append extends the stream by the
-- events of its receipt, and a replay returns earlier envelopes and writes nothing.
pub record IsLawful {L X E : Type 0} (event_log : EventLog L X E) : Type 0 where
  pub load_keeps : (l : L) (append : GuardedAppend E) → (event_log.load append.stream l).1 ≡ l
  pub committed_extends :
      (l l' : L) (append : GuardedAppend E) (receipt : AppendReceipt E) (loaded : EventHistory E)
      → event_log.append_guarded append l ≡ (ok receipt, l')
      → receipt.disposition ≡ committed
      → (event_log.load append.stream l).0 ≡ ok loaded
      → (event_log.load append.stream l').0
        ≡ ok (record loaded { events = loaded.events ++ receipt.events })
  pub replayed_keeps :
      (l l' : L) (append : GuardedAppend E) (receipt : AppendReceipt E)
      → event_log.append_guarded append l ≡ (ok receipt, l')
      → receipt.disposition ≡ replayed
      → l' ≡ l

module _ {S I C E R L P X Y : Type 0} (aggregate : Aggregate S I C E R) (event_log : EventLog L X E)
    (sink : ProjectionSink P Y S E) (lawful : IsLawful event_log) where
  settle :
      (d : AppendDisposition) (request : ExecutionRequest I) (w w' : World L P)
      (r : ExecutionResult S E) (a : Accepted aggregate event_log sink request w r w')
      → r.append.disposition ≡ d
      → (h : EventHistory E) × ((event_log.load request.stream w'.log).0 ≡ ok h)
        × (r.state ≡ apply_all aggregate (aggregate.initial_state request.stream) h.events)
  unfolding reduced
  settle committed request w w' r a d =
      let append = guarded aggregate event_log sink request a.events in
      (
        record a.loaded { events = a.loaded.events ++ r.append.events },
        lawful.committed_extends w.log w'.log append r.append a.loaded
            (ap (event_log.append_guarded append) (sym (lawful.load_keeps w.log append))
              ∙ a.appended)
            d a.load,
        rw foldl-append (ground (arith, a.final, a.folded)),
      )
  settle replayed request w w' r a d =
      let append = guarded aggregate event_log sink request a.events in
      let same =
        lawful.replayed_keeps w.log w'.log append r.append
          (ap (event_log.append_guarded append) (sym (lawful.load_keeps w.log append)) ∙ a.appended)
          d in
      (a.loaded, rw same a.load, ground (arith, a.final, a.folded))

  -- With a log that keeps its contract, the state that a successful execution returns, whether it
  -- committed or replayed, is the fold of the history that the log then holds.
  pub execute-reload :
      (request : ExecutionRequest I) (w w' : World L P) (r : ExecutionResult S E)
      → execute aggregate event_log sink request w ≡ (ok r, w')
      → (h : EventHistory E) × ((event_log.load request.stream w'.log).0 ≡ ok h)
        × (r.state ≡ apply_all aggregate (aggregate.initial_state request.stream) h.events)
  execute-reload request w w' r e =
      settle r.append.disposition request w w' r
        (execute-Accepted aggregate event_log sink request w w' r e) refl
