-- ===== src/Engine/Events.antt =====
-- crates/service-engine/src/lib.rs: the events that an intent decides (`produce_events`).
pub mod Produced
use service_sdk.Base.{
  ℕ, String, Bool, Option, none, some, List, [], ◌∷◌, ◌||◌, not, ◌==◌, is_empty, length,
  bind_option, if◌then◌else◌,
}
use service_sdk.Base.Maps.{Map, get, insert}
use service_sdk.Base.Result
use service_sdk.Base.Result.{Result, ok, err, ok_or}
use service_sdk.Base.Action.{Action, pure, fail, lift, ◌>>=◌, ◌>>◌}
use service_sdk.Runtime.Auth.{VerifiedAuthContext}
use service_sdk.Engine.{
  DomainEvent, ReducerPlan, ProjectionState, Json, ExecutionError, missing_input, invalid_plan,
  unknown_provider, obligation_refused, first_instance, reduce,
}
use service_sdk.Engine.Ports.{ServiceResources, port}
use service_sdk.Engine.Plans.{
  GraphSnapshotOutput, nodes_output, edges_output, digest_output, node_count, edge_count,
  ContextSource, tenant_id, realm_id_optional, user_id, current_authority, executor_optional,
  GraphSnapshotBinding, ValueSource, from_input, from_stream_id, from_uuid_v7, from_context,
  from_literal, from_obligation, from_graph_snapshot, EventFieldPlan, ProducedEventPlan,
}
use service_sdk.Engine.Obligations.{ObligationUse}
use service_sdk.Engine.Graph.Materialize.{Snapshots, GraphMaterialization, graph_materialization}

-- The obligation that `graph_snapshot_value` builds, its bindings in the order of their names.
unfoldable pub snapshot_obligation : GraphSnapshotBinding → ObligationUse
snapshot_obligation binding = record {
  provider = "sdk.graph.publish-snapshot/v1";
  bindings =
      ("active_state", binding.active_state)
      ∷ ("edge_identity", binding.edge_identity)
      ∷ ("edge_partition", binding.edge_partition)
      ∷ ("edge_source", binding.edge_source)
      ∷ ("edge_target", binding.edge_target)
      ∷ ("edges", binding.edges)
      ∷ ("node_identity", binding.node_identity)
      ∷ ("node_partition", binding.node_partition)
      ∷ ("nodes", binding.nodes)
      ∷ ("partition", binding.partition)
      ∷ [];
}

module _ {V : Type 0} (json : Json V) where
  unfoldable pub context_value : VerifiedAuthContext → ContextSource → V
  context_value context tenant_id = json.string context.tenant
  context_value context realm_id_optional = elim context.realm [
    | none ↦ json.null
    | some realm ↦ json.string realm
  ]
  context_value context user_id = json.string context.user
  context_value context current_authority = json.string context.authority
  context_value context executor_optional = elim context.executor [
    | none ↦ json.null
    | some executor ↦ json.string executor
  ]

  unfoldable pub obligation_value :
      String → String → String → ProjectionState V → Result ExecutionError V
  obligation_value provider entity field state =
      if not (
        provider == "sdk.derive.inherit-parent-authority/v1"
        || provider == "sdk.derive.inherit-parent-authority/v2")
      then err (unknown_provider provider)
      else ok_or
          (bind_option (first_instance (get entity state.entities)) (λ e. get field e.fields))
          (obligation_refused "parent_not_found")

  abbrev pub snapshot_output : GraphSnapshotOutput → GraphMaterialization V → V
  snapshot_output nodes_output graph = json.array graph.nodes
  snapshot_output edges_output graph = json.array graph.edges
  snapshot_output digest_output graph = json.string graph.digest
  snapshot_output node_count graph = json.number (length graph.nodes)
  snapshot_output edge_count graph = json.number (length graph.edges)

  module _ (snapshots : Snapshots V) where
    unfoldable pub graph_snapshot_value :
        ProjectionState V
        → Map V
        → GraphSnapshotBinding
        → GraphSnapshotOutput
        → Result ExecutionError V
    graph_snapshot_value state command binding output =
        Result.◌>>=◌
          (graph_materialization json snapshots state (snapshot_obligation binding) command none)
          (λ graph. ok (snapshot_output output graph))

  -- `for event in &events { reduce(service, &mut preview, event)?; }`
  unfoldable pub preview :
      Map ReducerPlan
      → ProjectionState V
      → List (DomainEvent V)
      → Result ExecutionError (ProjectionState V)
  preview reducers state [] = ok state
  preview reducers state (event ∷ events) =
      Result.◌>>=◌ (reduce json reducers state event) (λ next. preview reducers next events)

module _ {W V : Type 0} (json : Json V) (snapshots : Snapshots V) (resources : ServiceResources W V)
    (context : VerifiedAuthContext) (stream_id : String) (command : Map V)
    (state : ProjectionState V) where
  unfoldable pub field_value : ValueSource → Action W ExecutionError V
  field_value (from_input field) = lift (ok_or (get field command) (missing_input field))
  field_value from_stream_id = pure (json.string stream_id)
  field_value (from_context value) = pure (context_value json context value)
  field_value from_uuid_v7 = do id ← port resources.uuid_v7; pure (json.string id)
  field_value (from_literal value) = pure (json.string value)
  field_value (from_obligation provider entity field) =
      lift (obligation_value json provider entity field state)
  field_value (from_graph_snapshot binding output) =
      lift (graph_snapshot_value json snapshots state command binding output)

  unfoldable pub event_values : List EventFieldPlan → Map V → Action W ExecutionError (Map V)
  event_values [] fields = pure fields
  event_values (field ∷ plan) fields = do
    value ← field_value field.source
    event_values plan (insert field.name value fields)

  unfoldable pub planned_events :
      List ProducedEventPlan → Action W ExecutionError (List (DomainEvent V))
  planned_events [] = pure []
  planned_events (event ∷ plan) = do
    fields ← event_values event.fields []
    events ← planned_events plan
    pure (record { name = event.event; fields = fields } ∷ events)

  unfoldable pub produce_events :
      Map ReducerPlan → List ProducedEventPlan → Action W ExecutionError (List (DomainEvent V))
  produce_events reducers plan = do
    events ← planned_events plan
    if is_empty events then fail (invalid_plan "empty decision") else pure tt
    lift (Result.◌>>=◌ (preview json reducers state events) (λ reduced. ok events))
