-- ===== src/Engine.antt =====
-- crates/service-engine/src/lib.rs: domain events, the reducers of a generated plan and the state
-- that they build up.
pub mod Step
pub mod Replay
pub mod Declared
pub mod Graph
pub mod Obligations
pub mod Ports
pub mod Plans
pub mod Inputs
pub mod Events
pub mod Rows
pub mod Claim
pub mod Stage
pub mod Intent
pub mod Query
pub mod Admission
pub mod JsonNumber
use service_sdk.Base.{
  ℕ, zero, suc, ◌+◌, String, Bool, true, false, Option, none, some, List, [], ◌∷◌, not, ◌||◌, eqb,
  get_last?, if◌then◌else◌,
}
use service_sdk.Base.Maps.{Map, get, insert, first_value, contains, contains_key}
use service_sdk.Base.Result.{Result, ok, err, ok_or, ◌>>=◌, ◌>>◌}
use service_sdk.Runtime.Auth.{ContextPolicyViolation}

-- `ResourceError` has one value; the text of a decoding error is left out.
pub data ExecutionError : Type 0 where
  context_violation : ContextPolicyViolation → ExecutionError
  invalid_history invalid_projection decode expected_object resource_error : ExecutionError
  unknown_operation unknown_event invalid_event unknown_provider invalid_plan :
      String → ExecutionError
  unknown_input missing_input invalid_input obligation_refused : String → ExecutionError

-- `serde_json::Value`: third-party code, of which these accessors and constructors are used.
pub record Json (V : Type 0) : Type 0 where
  pub as_str : V → Option String
  pub as_u64 : V → Option ℕ
  pub as_object : V → Option (Map V)
  pub is_null : V → Bool
  pub null : V
  pub string : String → V
  pub number : ℕ → V
  pub array : List V → V

pub record DomainEvent (V : Type 0) : Type 0 where
  pub name : String
  pub fields : Map V

pub record StoredEvent (V : Type 0) : Type 0 where
  pub version : ℕ
  pub event : DomainEvent V

pub record LoadedStream (V : Type 0) : Type 0 where
  pub version : ℕ
  pub events : List (StoredEvent V)

pub data ReducerEffect : Type 0 where
  create : String → ReducerEffect
  update : ReducerEffect
  move : List String → String → ReducerEffect

pub record InheritancePlan : Type 0 where
  pub parent : String
  pub parent_owner : String
  pub parent_scopes : String
  pub child_owner : String
  pub child_scopes : String

pub record ReducerPlan : Type 0 where
  pub entity : String
  pub identity_field : String
  pub effect : ReducerEffect
  pub fields : List String
  pub inherit : Option InheritancePlan

pub record EntityValue (V : Type 0) : Type 0 where
  pub state : String
  pub fields : Map V

pub record ProjectionState (V : Type 0) : Type 0 where
  pub entities : Map (Map (EntityValue V))

abbrev pub or_default : {A : Type 0} → Option (Map A) → Map A
or_default none = []
or_default (some m) = m

-- `get(..).and_then(|instances| instances.values().next())`
abbrev pub first_instance : {A : Type 0} → Option (Map A) → Option A
first_instance none = none
first_instance (some m) = first_value m

module _ {V : Type 0} where
  -- The event's values of the listed fields, put into a map one after the other.
  unfoldable pub event_fields : List String → DomainEvent V → Map V → Map V
  event_fields [] event out = out
  event_fields (field ∷ fields) event out =
      let rest = event_fields fields event in
      elim (get field event.fields) [ none ↦ rest out | some value ↦ rest (insert field value out) ]

  -- `for (field, value) in .. { fields.insert(field, value) }`
  unfoldable pub insert_all : Map V → Map V → Map V
  insert_all [] out = out
  insert_all ((field, value) ∷ rest) out = insert_all rest (insert field value out)

module _ {V : Type 0} (json : Json V) where
  abbrev pub scalar_string : V → String → Result ExecutionError String
  scalar_string value field = ok_or (json.as_str value) (invalid_input field)

  -- Owner and scopes of the parent, for a reducer that inherits them.
  unfoldable pub inherited :
      ProjectionState V
      → DomainEvent V
      → Option InheritancePlan
      → Result ExecutionError (Option (V × V))
  inherited state event none = ok none
  inherited state event (some plan) = do
    parent ←
        ok_or (first_instance (get plan.parent state.entities))
          (obligation_refused "parent_not_found")
    owner ← ok_or (get plan.parent_owner parent.fields) (invalid_event event.name)
    scopes ← ok_or (get plan.parent_scopes parent.fields) (invalid_event event.name)
    ok (some (owner, scopes))

  abbrev pub with_inherited : Option InheritancePlan → Option (V × V) → Map V → Map V
  with_inherited (some plan) (some (owner, scopes)) fields =
      insert plan.child_scopes scopes (insert plan.child_owner owner fields)
  with_inherited _ _ fields = fields

  -- The fields of a created entity.
  unfoldable pub created_fields : ReducerPlan → DomainEvent V → String → Option (V × V) → Map V
  created_fields reducer event identity authority =
      insert reducer.identity_field (json.string identity)
        (with_inherited reducer.inherit authority (event_fields reducer.fields event []))

  -- The match on the reducer's effect, on the instances of its entity.
  unfoldable pub reduce_entity :
      ReducerPlan
      → DomainEvent V
      → String
      → Option (V × V)
      → ReducerEffect
      → Map (EntityValue V)
      → Result ExecutionError (Map (EntityValue V))
  reduce_entity reducer event identity authority (create initial_state) instances =
      if contains_key identity instances
      then err (invalid_event event.name)
      else ok (
          insert identity
            (record {
              state = initial_state;
              fields = created_fields reducer event identity authority;
            })
            instances)
  reduce_entity reducer event identity authority update instances = do
    entity ← ok_or (get identity instances) (invalid_event event.name)
    ok (
        insert identity
          (record entity {
            fields = insert_all (event_fields reducer.fields event []) entity.fields;
          })
          instances)
  reduce_entity reducer event identity authority (move from to) instances = do
    entity ← ok_or (get identity instances) (invalid_event event.name)
    if not (contains entity.state from)
        then err (obligation_refused "wrong_state")
        else ok (insert identity (record entity { state = to }) instances)

  -- `reduce`, over `plan.reducers`
  unfoldable pub reduce :
      Map ReducerPlan
      → ProjectionState V
      → DomainEvent V
      → Result ExecutionError (ProjectionState V)
  reduce reducers state event = do
    reducer ← ok_or (get event.name reducers) (unknown_event event.name)
    value ← ok_or (get reducer.identity_field event.fields) (invalid_event event.name)
    identity ← scalar_string value reducer.identity_field
    authority ← inherited state event reducer.inherit
    instances ←
        reduce_entity reducer event identity authority reducer.effect
          (or_default (get reducer.entity state.entities))
    ok (record { entities = insert reducer.entity instances state.entities })

  -- `events.last().map_or(0, |event| event.version)`
  abbrev pub last_version : List (StoredEvent V) → ℕ
  last_version events = elim (get_last? events) [ none ↦ 0 | some stored ↦ stored.version ]

  -- Some event does not have the version that its index says, from index `n` on.
  unfoldable pub misnumbered : ℕ → List (StoredEvent V) → Bool
  misnumbered n [] = false
  misnumbered n (stored ∷ events) = not (eqb stored.version (n + 1)) || misnumbered (n + 1) events

  unfoldable pub reduce_all :
      Map ReducerPlan
      → ProjectionState V
      → List (StoredEvent V)
      → Result ExecutionError (ProjectionState V)
  reduce_all reducers state [] = ok state
  reduce_all reducers state (stored ∷ events) =
      reduce reducers state stored.event >>= λ next. reduce_all reducers next events

  unfoldable pub fold : Map ReducerPlan → LoadedStream V → Result ExecutionError (ProjectionState V)
  fold reducers history =
      if not (eqb (last_version history.events) history.version) || misnumbered 0 history.events
      then err invalid_history
      else reduce_all reducers (record { entities = [] }) history.events
