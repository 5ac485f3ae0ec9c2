-- ===== src/Engine/Step.antt =====
-- What one event does to the entities of a state: crates/service-engine/src/lib.rs, `reduce`.
use service_sdk.Base.{
  String, ◌≡◌, refl, ap, ◌∙◌, inl, inr, true, Option, none, some, List, [], arith, eq_iff, ◌==◌,
  if◌then◌else◌, Option-cases, Bool-cases,
}
use service_sdk.Base.Maps.{Map, get, insert, contains}
use service_sdk.Base.Maps.Laws.{get-insert}
use service_sdk.Base.Result.{Result, ok, ok_or, >>=-eq-ok, ok_or-eq-ok}
use service_sdk.Engine.{
  DomainEvent, ReducerEffect, create, update, move, ReducerPlan, EntityValue, ProjectionState, Json,
  or_default, event_fields, insert_all, inherited, created_fields, reduce_entity, reduce,
  scalar_string, unknown_event, invalid_event, ExecutionError,
}

module _ {V : Type 0} where
  -- The instance of an entity that a state holds.
  unfoldable pub find : ProjectionState V → String → String → Option (EntityValue V)
  find state entity identity = get identity (or_default (get entity state.entities))

module _ {V : Type 0} (json : Json V) where
  -- The lifecycle of one instance under one event: created once, in the initial state; updated in
  -- its fields only; moved from one of the source states, in its state only.
  pub data EntityStep (reducer : ReducerPlan) (event : DomainEvent V) (identity : String)
      (authority : Option (V × V)) : Option (EntityValue V) → EntityValue V → Type 0 where
    created :
        (initial_state : String)
        → reducer.effect ≡ create initial_state
        → EntityStep reducer event identity authority none (record {
          state = initial_state;
          fields = created_fields json reducer event identity authority;
        })
    updated :
        (entity : EntityValue V)
        → reducer.effect ≡ update
        → EntityStep reducer event identity authority (some entity) (record entity {
          fields = insert_all (event_fields reducer.fields event []) entity.fields;
        })
    moved :
        (entity : EntityValue V) (from : List String) (to : String)
        → reducer.effect ≡ move from to
        → contains entity.state from ≡ true
        → EntityStep reducer event identity authority (some entity) (record entity { state = to })

  reduce_entity-EntityStep :
      (reducer : ReducerPlan) (event : DomainEvent V) (identity : String)
      (authority : Option (V × V)) (effect : ReducerEffect) (m m' : Map (EntityValue V))
      → reducer.effect ≡ effect
      → reduce_entity json reducer event identity authority effect m ≡ ok m'
      → (e : EntityValue V) × (m' ≡ insert identity e m)
        × EntityStep reducer event identity authority (get identity m) e
  unfolding reduce_entity
  reduce_entity-EntityStep reducer event identity authority (create initial) m m' p h =
      elim (Option-cases (get identity m)) [
        | inl absent ↦ (
          record { state = initial; fields = created_fields json reducer event identity authority },
          ground arith,
          rw absent (created initial p),
        )
        | inr (e, here) ↦ absurd (ground arith)
      ]
  reduce_entity-EntityStep reducer event identity authority update m m' p h =
      elim (Option-cases (get identity m)) [
        | inl absent ↦ absurd (ground arith)
        | inr (e, here) ↦ (
          record e { fields = insert_all (event_fields reducer.fields event []) e.fields },
          ground arith,
          rw here (updated e p),
        )
      ]
  reduce_entity-EntityStep reducer event identity authority (move from to) m m' p h =
      elim (Option-cases (get identity m)) [
        | inl absent ↦ absurd (ground arith)
        | inr (e, here) ↦ elim (Bool-cases (contains e.state from)) [
          | inl listed ↦ (record e { state = to }, ground arith, rw here (moved e from to p listed))
          | inr other ↦ absurd (ground arith)
        ]
      ]

  find-insert :
      (state : ProjectionState V) (entity identity : String) (e : EntityValue V) (other i : String)
      → find
          (record {
            entities =
                insert entity
                  (insert identity e (or_default (get entity state.entities)))
                  state.entities;
          })
          other
          i
        ≡ (if entity == other
            then (if identity == i then some e else find state other i)
            else find state other i)
  unfolding find
  find-insert state entity identity e other i =
      rw
        (get-insert entity other (insert identity e (or_default (get entity state.entities)))
          state.entities)
        (ground (
          arith,
          eq_iff entity other,
          eq_iff identity i,
          get-insert identity i e (or_default (get entity state.entities)),
        ))

  -- An event that is reduced takes one step of the lifecycle of one instance, the one that its
  -- reducer and its identity field name, and leaves every other instance of every entity as it was.
  pub reduce-EntityStep :
      (reducers : Map ReducerPlan) (state state' : ProjectionState V) (event : DomainEvent V)
      → reduce json reducers state event ≡ ok state'
      → (reducer : ReducerPlan) × (get event.name reducers ≡ some reducer)
        × (value : V) × (get reducer.identity_field event.fields ≡ some value)
        × (identity : String) × (json.as_str value ≡ some identity)
        × (authority : Option (V × V)) × (inherited json state event reducer.inherit ≡ ok authority)
        × (e : EntityValue V) × EntityStep reducer event identity authority
            (find state reducer.entity identity)
            e
        × ((other i : String)
            → find state' other i ≡ (
                if reducer.entity == other
                then (if identity == i then some e else find state other i)
                else find state other i))
  unfolding reduce
  reduce-EntityStep reducers state state' event h =
      let (reducer, h1, k1) =
        >>=-eq-ok (ok_or (get event.name reducers) (unknown_event event.name)) _ h in
      let (value, h2, k2) =
        >>=-eq-ok (ok_or (get reducer.identity_field event.fields) (invalid_event event.name)) _
          k1 in
      let (identity, h3, k3) = >>=-eq-ok (scalar_string json value reducer.identity_field) _ k2 in
      let (authority, h4, k4) = >>=-eq-ok (inherited json state event reducer.inherit) _ k3 in
      let instances = or_default (get reducer.entity state.entities) in
      let (m, h5, k5) =
        >>=-eq-ok (reduce_entity json reducer event identity authority reducer.effect instances) _
          k4 in
      let (e, same, step) =
        reduce_entity-EntityStep reducer event identity authority reducer.effect instances m refl
          h5 in
      (
        reducer,
        ok_or-eq-ok _ _ h1,
        value,
        ok_or-eq-ok _ _ h2,
        identity,
        ok_or-eq-ok _ _ h3,
        authority,
        h4,
        e,
        unfold find in step,
        λ other i.
            ap (λ s. find s other i)
              (after state' reducer.entity m (insert identity e instances) same k5)
            ∙ find-insert state reducer.entity identity e other i,
      )
    where
      after :
          (t : ProjectionState V) (n : String) (m m1 : Map (EntityValue V))
          → m ≡ m1
          → ◌≡◌ {A = Result ExecutionError (ProjectionState V)}
              (ok (record { entities = insert n m state.entities }))
              (ok t)
          → t ≡ record { entities = insert n m1 state.entities }
      after t n m m1 p q = ground arith
