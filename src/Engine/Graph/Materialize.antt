-- ===== src/Engine/Graph/Materialize.antt =====
-- crates/service-engine/src/lib.rs: `graph_materialization`, the checked snapshot of a graph.
pub mod Accepted
use Prim.Native.String.{◌++◌}
use service_sdk.Base.{
  ℕ, ◌+◌, String, Bool, true, false, Option, none, some, List, [], ◌∷◌, not, ltb, length, is_empty,
  is_some, if◌then◌else◌,
}
use service_sdk.Base.Decimal.{parse_u64}
use service_sdk.Base.Bytes.{Bytes}
use service_sdk.Base.Bytes.Hex.{hex}
use service_sdk.Base.Maps.{Map, get, insert, keys, values}
use service_sdk.Base.Result.{Result, ok, err, ok_or, ◌>>=◌, ◌>>◌}
use service_sdk.Engine.{
  EntityValue, ProjectionState, Json, ExecutionError, obligation_refused, invalid_plan, or_default,
}
use service_sdk.Engine.Obligations.{
  ObligationUse, binding, binding_or, command_binding_string, is_active,
}
use service_sdk.Engine.Graph.{build_adjacency}
use service_sdk.Engine.Graph.Cycle.{graph_has_cycle}

-- `serde_json` on the object of the two arrays, `Value::Object`, and SHA-256: third-party code.
pub record Snapshots (V : Type 0) : Type 0 where
  pub object : Map V → V
  pub to_vec : List V → List V → Option Bytes
  pub from_slice : Bytes → Option (List V × List V)
  pub sha256 : Bytes → Bytes

pub record GraphMaterialization (V : Type 0) : Type 0 where
  pub nodes : List V
  pub edges : List V
  pub digest : String

-- The names that are read before the graph is.
pub record GraphNames : Type 0 where
  pub partition : String
  pub active : String
  pub node_partition : String
  pub node_identity : String
  pub edge_partition : String
  pub edge_identity : String
  pub edge_source : String
  pub edge_target : String
  pub nodes : String

abbrev positive : Option ℕ → ExecutionError → Result ExecutionError ℕ
positive none e = err e
positive (some n) e = if ltb 0 n then ok n else err e

unfoldable pub bound_limit : ObligationUse → String → ℕ → Result ExecutionError ℕ
bound_limit obligation name default = elim (get name obligation.bindings) [
  | none ↦ ok default
  | some value ↦
      positive (parse_u64 value) (invalid_plan (obligation.provider ++ (".bindings." ++ name)))
]

-- Whether the search has answered that there is no cycle.
abbrev pub is_acyclic : Option Bool → Bool
is_acyclic (some false) = true
is_acyclic _ = false

module _ {V : Type 0} (json : Json V) where
  unfoldable pub graph_names : ObligationUse → Map V → Result ExecutionError GraphNames
  graph_names obligation command = do
    partition ← command_binding_string json command obligation "partition"
    node_partition ← binding obligation "node_partition"
    node_identity ← binding obligation "node_identity"
    edge_partition ← binding obligation "edge_partition"
    edge_source ← binding obligation "edge_source"
    edge_target ← binding obligation "edge_target"
    nodes ← binding obligation "nodes"
    ok (record {
      partition = partition;
      active = binding_or obligation "active_state" "Active";
      node_partition = node_partition;
      node_identity = node_identity;
      edge_partition = edge_partition;
      edge_identity = binding_or obligation "edge_identity" "edge_id";
      edge_source = edge_source;
      edge_target = edge_target;
      nodes = nodes;
    })

  -- The instances that are active in the partition.
  unfoldable pub active_entries :
      String → String → String → Map (EntityValue V) → Map (EntityValue V)
  active_entries active field partition [] = []
  active_entries active field partition ((identity, entity) ∷ entries) =
      let rest = active_entries active field partition entries in
      if is_active json active field partition entity then (identity, entity) ∷ rest else rest

  -- The checks of the graph, up to the search for a cycle.
  unfoldable pub check_graph :
      ProjectionState V
      → ObligationUse
      → GraphNames
      → Option (String × String)
      → Result ExecutionError (Map (EntityValue V) × Map (EntityValue V))
  check_graph state obligation names proposed = do
    let nodes =
        active_entries names.active names.node_partition names.partition
          (or_default (get names.nodes state.entities))
    if is_empty nodes then err (obligation_refused "empty_graph") else ok tt
    max_nodes ← bound_limit obligation "max_nodes" 500
    if ltb max_nodes (length nodes) then err (obligation_refused "graph_too_large") else ok tt
    edges_name ← binding obligation "edges"
    let edges =
        active_entries names.active names.edge_partition names.partition
          (or_default (get edges_name state.entities))
    max_edges ← bound_limit obligation "max_edges" 2000
    if ltb max_edges (length edges + (if is_some proposed then 1 else 0))
        then err (obligation_refused "graph_too_large")
        else ok tt
    built ←
        build_adjacency json names.edge_source names.edge_target (keys nodes) (values edges)
          proposed
    if not (is_acyclic (graph_has_cycle built.0))
        then err (obligation_refused "graph_cycle")
        else ok (nodes, edges)

  module _ (snapshots : Snapshots V) where
    open snapshots use {object, to_vec, from_slice, sha256}

    unfoldable pub snapshot_row : String → String → EntityValue V → V
    snapshot_row field identity entity = object (insert field (json.string identity) entity.fields)

    unfoldable pub snapshot_rows : String → Map (EntityValue V) → List V
    snapshot_rows field [] = []
    snapshot_rows field ((identity, entity) ∷ entries) =
        snapshot_row field identity entity ∷ snapshot_rows field entries

    unfoldable pub graph_materialization :
        ProjectionState V
        → ObligationUse
        → Map V
        → Option (String × String)
        → Result ExecutionError (GraphMaterialization V)
    graph_materialization state obligation command proposed = do
      names ← graph_names obligation command
      checked ← check_graph state obligation names proposed
      canonical ←
          ok_or
            (to_vec (snapshot_rows names.node_identity checked.0)
              (snapshot_rows names.edge_identity checked.1))
            (invalid_plan "graph snapshot")
      arrays ← ok_or (from_slice canonical) (invalid_plan "graph snapshot")
      ok (record { nodes = arrays.0; edges = arrays.1; digest = hex (sha256 canonical) })
