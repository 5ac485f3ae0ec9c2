-- ===== src/Engine/Obligations.antt =====
-- crates/service-engine/src/lib.rs: the obligations of an intent that look at the aggregate's
-- entities.
pub mod References
pub mod Authorization
pub mod Lifetime
pub mod Run
use Prim.Native.String.{◌++◌}
use service_sdk.Base.{
  ℕ, String, Bool, true, false, Option, none, some, List, [], ◌∷◌, not, ◌&&◌, ◌||◌, ◌==◌, any, map,
  is_some, option_eq, if◌then◌else◌,
}
use service_sdk.Base.Text.{trim, split, rsplit_once}
use service_sdk.Base.Maps.{Map, get, values, contains_key}
use service_sdk.Base.Result.{Result, ok, err, ok_or, ◌>>=◌, ◌>>◌}
use service_sdk.Engine.{
  EntityValue, ProjectionState, Json, ExecutionError, invalid_plan, missing_input,
  obligation_refused, scalar_string, first_instance, or_default,
}

pub record ObligationUse : Type 0 where
  pub provider : String
  pub bindings : Map String

unfoldable pub binding : ObligationUse → String → Result ExecutionError String
binding obligation name =
    ok_or (get name obligation.bindings)
      (invalid_plan (obligation.provider ++ (".bindings." ++ name)))

-- `bindings.get(name).map_or(default, String::as_str)`
unfoldable pub binding_or : ObligationUse → String → String → String
binding_or obligation name default = elim (get name obligation.bindings) [
  | none ↦ default
  | some value ↦ value
]

unfoldable pub binding_field : ObligationUse → String → Option String
binding_field obligation name = elim (get name obligation.bindings) [
  | none ↦ none
  | some path ↦ elim (rsplit_once b'.' path) [ none ↦ some path | some parts ↦ some parts.1 ]
]

-- `allowed.split(',').map(str::trim).any(|candidate| candidate == state)`
unfoldable pub allows : String → String → Bool
allows allowed state = any (λ candidate. candidate == state) (map trim (split b',' allowed))

module _ {V : Type 0} (json : Json V) where
  unfoldable pub command_binding_string :
      Map V → ObligationUse → String → Result ExecutionError String
  command_binding_string command obligation name = do
    field ← binding obligation name
    value ← ok_or (get field command) (missing_input field)
    scalar_string json value field

  unfoldable pub field_string : EntityValue V → String → Option String
  field_string entity field = elim (get field entity.fields) [
    | none ↦ none
    | some value ↦ json.as_str value
  ]

  unfoldable pub bound_entity :
      ProjectionState V → ObligationUse → String → Result ExecutionError (EntityValue V)
  bound_entity state obligation name = do
    path ← binding obligation name
    parts ← ok_or (rsplit_once b'.' path) (invalid_plan path)
    ok_or (first_instance (get parts.0 state.entities)) (obligation_refused "not_found")

  unfoldable pub bound_value : EntityValue V → ObligationUse → String → Result ExecutionError V
  bound_value entity obligation name = do
    path ← binding obligation name
    let field : String = elim (rsplit_once b'.' path) [ none ↦ path | some parts ↦ parts.1 ]
    ok_or (get field entity.fields) (invalid_plan path)

  -- The instance that `sdk.lifecycle.require-state/v1` looks at: the one that the command names, or
  -- the first one.
  unfoldable pub selected :
      ObligationUse → Map V → Map (EntityValue V) → Result ExecutionError (Option (EntityValue V))
  selected obligation command instances = elim (get "identity" obligation.bindings) [
    | none ↦ ok (first_instance (some instances))
    | some field ↦ do
      value ← ok_or (get field command) (missing_input field)
      identity ← scalar_string json value field
      ok (get identity instances)
  ]

  -- The arm `sdk.lifecycle.require-state/v1` of `run_intent_obligations`.
  unfoldable pub require_state :
      ProjectionState V → ObligationUse → Map V → Result ExecutionError (Unit {0})
  require_state state obligation command = do
    name ← binding obligation "entity"
    instances ← ok_or (get name state.entities) (obligation_refused "not_found")
    found ← selected obligation command instances
    entity ← ok_or found (obligation_refused "not_found")
    allowed ← binding obligation "allowed"
    if not (allows allowed entity.state) then err (obligation_refused "wrong_state") else ok tt

  -- `state.entities.get(name).is_some_and(|instances| instances.contains_key(identity))`
  abbrev pub has : ProjectionState V → String → String → Bool
  has state name identity = contains_key identity (or_default (get name state.entities))

  -- The part of `require_nested_entity` for a bound child.
  unfoldable pub require_child :
      ProjectionState V → ObligationUse → Map V → String → Result ExecutionError (Unit {0})
  require_child state obligation command field = do
    child ← binding obligation "child"
    value ← ok_or (get field command) (missing_input field)
    identity ← scalar_string json value field
    if not (has state child identity) then err (obligation_refused "not_found") else ok tt

  unfoldable pub require_nested_entity :
      ProjectionState V → ObligationUse → Map V → Result ExecutionError (Unit {0})
  require_nested_entity state obligation command = do
    parent ← binding obligation "parent"
    key ← command_binding_string command obligation "parent_identity"
    if not (has state parent key) then err (obligation_refused "parent_not_found") else ok tt
    elim (get "child_identity" obligation.bindings) [
      | none ↦ ok tt
      | some field ↦ require_child state obligation command field
    ]

  unfoldable pub require_owned_revision :
      ProjectionState V → ObligationUse → Map V → Result ExecutionError (Unit {0})
  require_owned_revision state obligation command = do
    identity ← command_binding_string command obligation "revision_identity"
    name ← binding obligation "revision"
    revision ←
        ok_or (get identity (or_default (get name state.entities)))
          (obligation_refused "revision_not_found")
    elim (get "allowed" obligation.bindings) [
      | none ↦ ok tt
      | some allowed ↦
          if not (allows allowed revision.state)
          then err (obligation_refused "revision_not_publishable")
          else ok tt
    ]

  -- A node or an edge of the partition that is in the active state.
  unfoldable pub is_active : String → String → String → EntityValue V → Bool
  is_active active field partition entity =
      entity.state == active && option_eq (field_string entity field) (some partition)

  -- `binding(obligation, "node_partition").unwrap_or_default()`
  abbrev pub or_empty : Result ExecutionError String → String
  or_empty (ok value) = value
  or_empty (err e) = ""

  -- `node_exists`
  unfoldable pub node_exists : ObligationUse → String → String → Option (EntityValue V) → Bool
  node_exists obligation active partition none = false
  node_exists obligation active partition (some entity) =
      is_active active (or_empty (binding obligation "node_partition")) partition entity

  -- The edge is active in the partition and starts or ends at the node.
  unfoldable pub references :
      String → String → String → String → String → String → EntityValue V → Bool
  references active edge_partition edge_source edge_target partition node edge =
      is_active active edge_partition partition edge
      && (option_eq (field_string edge edge_source) (some node)
          || option_eq (field_string edge edge_target) (some node))

  unfoldable pub require_unreferenced_node :
      ProjectionState V → ObligationUse → Map V → Result ExecutionError (Unit {0})
  require_unreferenced_node state obligation command = do
    partition ← command_binding_string command obligation "partition"
    node ← command_binding_string command obligation "node"
    let active = binding_or obligation "active_state" "Active"
    nodes ← binding obligation "nodes"
    if not (
          node_exists obligation active partition
            (get node (or_default (get nodes state.entities))))
        then err (obligation_refused "node_not_found")
        else ok tt
    edge_partition ← binding obligation "edge_partition"
    edge_source ← binding obligation "edge_source"
    edge_target ← binding obligation "edge_target"
    edges ← binding obligation "edges"
    if any (references active edge_partition edge_source edge_target partition node)
          (values (or_default (get edges state.entities)))
        then err (obligation_refused "node_referenced")
        else ok tt
