-- ===== src/Engine/Events/Produced.antt =====
-- What an intent decides can be folded: crates/service-engine/src/lib.rs, `produce_events` with
-- `fold`.
use service_sdk.Base.{
  ◌+◌, ◌<◌, String, false, ◌≡◌, refl, sym, ap, ◌∙◌, subst, List, [], ◌∷◌, ◌++◌, map, length,
  is_empty, arith, inl, inr,
}
use service_sdk.Base.Maps.{Map}
use service_sdk.Base.Result
use service_sdk.Base.Result.{Result, ok, err, Result-cases}
use service_sdk.Base.Action.{pure-eq-ok, >>=-eq-ok, refuse-eq-ok}
use service_sdk.Runtime.Auth.{VerifiedAuthContext}
use service_sdk.Engine.{
  DomainEvent, LoadedStream, ReducerPlan, ProjectionState, Json, ExecutionError, reduce, fold,
}
use service_sdk.Engine.Replay.{fold-append}
use service_sdk.Engine.Ports.{ServiceResources}
use service_sdk.Engine.Plans.{ProducedEventPlan}
use service_sdk.Engine.Graph.Materialize.{Snapshots}
use service_sdk.Engine.Events.{preview, event_values, planned_events, produce_events}

-- The history behind a batch of events, each under the next version.
unfoldable pub extend : {V : Type 0} → LoadedStream V → List (DomainEvent V) → LoadedStream V
extend history [] = history
extend history (event ∷ events) =
    extend
      (record {
        version = history.version + 1;
        events = history.events ++ (record { version = history.version + 1; event = event } ∷ []);
      })
      events

some_length : {A : Type 0} (xs : List A) → is_empty xs ≡ false → 0 < length xs
some_length [] h = absurd (ground arith)
some_length (x ∷ xs) h = omega arith

module _ {W V : Type 0} (json : Json V) (snapshots : Snapshots V) (resources : ServiceResources W V)
    (context : VerifiedAuthContext) (stream_id : String) (command : Map V)
    (state : ProjectionState V) (reducers : Map ReducerPlan) where
  fold-extend :
      (events : List (DomainEvent V)) (history : LoadedStream V) (s final : ProjectionState V)
      → fold json reducers history ≡ ok s
      → preview json reducers s events ≡ ok final
      → fold json reducers (extend history events) ≡ ok final
  unfolding preview extend
  fold-extend [] history s final h k = h ∙ k
  fold-extend (event ∷ events) history s final h k =
      elim (Result-cases (reduce json reducers s event)) [
        | inr (e, p) ↦ absurd (ground arith)
        | inl (next, p) ↦
            fold-extend events
              (record {
                version = history.version + 1;
                events =
                    history.events
                    ++ (record { version = history.version + 1; event = event } ∷ []);
              })
              next final
              (fold-append json reducers history
                  (record { version = history.version + 1; event = event }) s h refl
                ∙ p)
              (rw p at k)
      ]

  planned-names :
      (plan : List ProducedEventPlan) (events : List (DomainEvent V)) (w w' : W)
      → ◌≡◌ {A = Result ExecutionError (List (DomainEvent V)) × W}
          (planned_events json snapshots resources context stream_id command state plan w)
          (ok events, w')
      → map (λ e. e.name) events ≡ map (λ p. p.event) plan
  unfolding planned_events
  planned-names [] events w w' h =
      ap (λ es. map (λ e. e.name) es) (sym (pure-eq-ok [] events w w' h).0)
  planned-names (event ∷ plan) events w w' h =
      let (fields, h1, k1) =
        >>=-eq-ok
          (event_values json snapshots resources context stream_id command state event.fields []) _
          w h in
      let w1 =
        (event_values json snapshots resources context stream_id command state event.fields []
          w).1 in
      let (rest, h2, k2) =
        >>=-eq-ok (planned_events json snapshots resources context stream_id command state plan) _
          w1 k1 in
      let w2 =
        (planned_events json snapshots resources context stream_id command state plan w1).1 in
      ap (λ es. map (λ e. e.name) es)
        (sym (pure-eq-ok (record { name = event.event; fields = fields } ∷ rest) events w2 w' k2).0)
      ∙ ap (λ ns. event.event ∷ ns) (planned-names plan rest w1 w2 (ap (λ r. (r, w2)) h2))

  -- The events that an intent decides are those that its plan names, in that order, at least one of
  -- them; and the history whose fold they were decided on still folds when they stand behind it,
  -- each under the next version: an accepted decision never makes its own stream unreadable.
  pub produce_events-foldable :
      (plan : List ProducedEventPlan) (events : List (DomainEvent V)) (w w' : W)
      (history : LoadedStream V)
      → fold json reducers history ≡ ok state
      → ◌≡◌ {A = Result ExecutionError (List (DomainEvent V)) × W}
          (produce_events json snapshots resources context stream_id command state reducers plan w)
          (ok events, w')
      → (0 < length events)
        × (map (λ e. e.name) events ≡ map (λ p. p.event) plan)
        × (final : ProjectionState V) × (fold json reducers (extend history events) ≡ ok final)
  unfolding produce_events
  produce_events-foldable plan events w w' history f h =
      let (planned, h1, k1) =
        >>=-eq-ok (planned_events json snapshots resources context stream_id command state plan) _ w
          h in
      let w1 = (planned_events json snapshots resources context stream_id command state plan w).1 in
      let (some_event, k2) = refuse-eq-ok (is_empty planned) _ _ w1 k1 in
      let (final, h4, k4) =
        Result.>>=-eq-ok (preview json reducers state planned) _ (ap (λ p. p.0) k2) in
      let same : planned ≡ events = ground arith in
      subst
        (λ es.
          (0 < length es)
          × (map (λ e. e.name) es ≡ map (λ p. p.event) plan)
          × (end : ProjectionState V) × (fold json reducers (extend history es) ≡ ok end))
        same
        (
          some_length planned some_event,
          planned-names plan planned w w1 (ap (λ r. (r, w1)) h1),
          final,
          fold-extend planned history state final f h4,
        )
