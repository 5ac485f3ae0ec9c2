-- ===== src/Engine/Declared.antt =====
-- The lifecycle states that a folded state can hold: crates/service-engine/src/lib.rs, `reduce` and
-- `fold`.
use service_sdk.Base.{
  String, ◌≡◌, refl, subst, sym, ◌∙◌, inl, inr, Option, some, List, [], ◌∷◌, arith, eq_iff, ◌==◌,
  Bool-cases,
}
use service_sdk.Base.Maps.{Map, get}
use service_sdk.Base.Result.{ok, Result-cases}
use service_sdk.Engine.{
  DomainEvent, StoredEvent, LoadedStream, ReducerEffect, create, update, move, ReducerPlan,
  EntityValue, ProjectionState, Json, reduce, reduce_all, fold,
}
use service_sdk.Engine.Step.{find, EntityStep, created, updated, moved, reduce-EntityStep}
use service_sdk.Engine.Replay.{empty, numbered, same_state}

-- The lifecycle state that an effect sets.
abbrev pub IsTarget : ReducerEffect → String → Type 0
IsTarget (create initial_state) state = initial_state ≡ state
IsTarget update state = ⊥
IsTarget (move from to) state = to ≡ state

module _ {V : Type 0} (json : Json V) (reducers : Map ReducerPlan) where
  -- Some reducer of the entity sets this lifecycle state.
  abbrev pub IsNamed : String → String → Type 0
  IsNamed entity state =
      (name : String) × (reducer : ReducerPlan) × (get name reducers ≡ some reducer)
      × (reducer.entity ≡ entity)
      × IsTarget reducer.effect state

  abbrev pub IsDeclared : ProjectionState V → Type 0
  IsDeclared state =
      (entity identity : String) (e : EntityValue V)
      → find state entity identity ≡ some e
      → IsNamed entity e.state

  target :
      (effect : ReducerEffect) (initial_state : String)
      → effect ≡ create initial_state
      → IsTarget effect initial_state
  target effect s h = rw h refl

  moved_target :
      (effect : ReducerEffect) (from : List String) (to : String)
      → effect ≡ move from to
      → IsTarget effect to
  moved_target effect from to h = rw h refl

  step-IsNamed :
      (state : ProjectionState V) (event : DomainEvent V) (name identity : String)
      (reducer : ReducerPlan) (authority : Option (V × V)) (before : Option (EntityValue V))
      (e : EntityValue V)
      → IsDeclared state
      → get name reducers ≡ some reducer
      → find state reducer.entity identity ≡ before
      → EntityStep json reducer event identity authority before e
      → IsNamed reducer.entity e.state
  step-IsNamed state event name identity reducer authority before e d g h (created initial p) =
      (name, reducer, g, refl, target reducer.effect initial p)
  step-IsNamed state event name identity reducer authority before e d g h (updated old p) =
      d reducer.entity identity old h
  step-IsNamed state event name identity reducer authority before e d g h
        (moved old from to p listed) =
      (name, reducer, g, refl, moved_target reducer.effect from to p)

  reduce-IsDeclared :
      (state state' : ProjectionState V) (event : DomainEvent V)
      → IsDeclared state
      → reduce json reducers state event ≡ ok state'
      → IsDeclared state'
  reduce-IsDeclared state state' event d h entity identity e there =
      let (reducer, g, value, _, own, _, authority, _, e1, step, finds) =
        reduce-EntityStep json reducers state state' event h in
      let here = sym (finds entity identity) ∙ there in
      elim (Bool-cases (reducer.entity == entity)) [
        | inr other ↦ d entity identity e (ground arith)
        | inl same ↦ elim (Bool-cases (own == identity)) [
          | inr other ↦ d entity identity e (ground arith)
          | inl mine ↦
              let same_e : e1 ≡ e = ground arith in
              subst (λ n. IsNamed n e.state) ((eq_iff reducer.entity entity).0 same)
                (subst (λ x. IsNamed reducer.entity x.state) same_e
                  (step-IsNamed state event event.name own reducer authority
                    (find state reducer.entity own) e1 d g refl step))
        ]
      ]

  reduce_all-IsDeclared :
      (state state' : ProjectionState V) (events : List (StoredEvent V))
      → IsDeclared state
      → reduce_all json reducers state events ≡ ok state'
      → IsDeclared state'
  unfolding reduce_all
  reduce_all-IsDeclared state state' [] d h =
      subst (λ s. IsDeclared s) (same_state json reducers state state' h) d
  reduce_all-IsDeclared state state' (stored ∷ events) d h =
      elim (Result-cases (reduce json reducers state stored.event)) [
        | inr (x, p) ↦ absurd (ground arith)
        | inl (next, p) ↦
            reduce_all-IsDeclared next state' events (reduce-IsDeclared state next stored.event d p)
              (rw p at h)
      ]

  empty-IsDeclared : IsDeclared (empty json reducers)
  unfolding find get
  empty-IsDeclared entity identity e h = absurd (ground arith)

  -- Whatever the history, every entity of a folded state is in a lifecycle state that some reducer
  -- of that same entity sets, as the initial state of a creation or as the target of a move.
  pub fold-IsDeclared :
      (history : LoadedStream V) (state : ProjectionState V)
      → fold json reducers history ≡ ok state
      → (entity identity : String) (e : EntityValue V) → find state entity identity ≡ some e
      → IsNamed entity e.state
  fold-IsDeclared history state h =
      let (_, _, run) = numbered json reducers history state h in
      reduce_all-IsDeclared (empty json reducers) state history.events empty-IsDeclared run
