-- ===== src/Tests/Graph.antt =====
-- Graphs at concrete values: crates/service-engine/src/lib.rs.
use service_sdk.Base.{String, Bool, true, false, none, some, [], ◌∷◌, ◌++◌, ◌≡◌, ◌↔◌, refl}
use service_sdk.Base.Maps.{Map, get, insert, insert_key, remove_key, contains}
use service_sdk.Base.Result.{ok, err}
use service_sdk.Engine.{EntityValue, ProjectionState, obligation_refused}
use service_sdk.Engine.Graph.{
  Adjacency, contains_pair, insert_pair, insert_graph_edge, isolated, insert_edge_rows,
  build_adjacency,
}
use service_sdk.Engine.Graph.Cycle.{visit_any, visit, graph_has_cycle}
use service_sdk.Engine.Graph.Cycle.Search.{Cycle, graph_has_cycle-decides}
use service_sdk.Engine.Graph.Materialize.{
  GraphNames, bound_limit, graph_names, active_entries, check_graph, snapshot_row, snapshot_rows,
  graph_materialization,
}
use service_sdk.Engine.Graph.Materialize.Accepted.{IsAccepted, check_graph-IsAccepted}
use service_sdk.Engine.Obligations.{
  ObligationUse, binding, binding_or, command_binding_string, field_string, is_active,
}
use service_sdk.Engine.Obligations.Authorization.{authority_check, run_intent_authorization}
use service_sdk.Engine.Obligations.Run.{
  connect_dag, enforce_obligation, enforce_all, run_intent_obligations,
}
use service_sdk.Engine.Obligations.Run.Enforced.{Accepts, run_intent_obligations-connected}
use service_sdk.Tests.Service.{Value, text, json, snapshots, resources, context}

abbrev chain : Adjacency
chain = ("a", "b" ∷ []) ∷ ("b", "c" ∷ []) ∷ ("c", []) ∷ []

abbrev ring : Adjacency
ring = ("a", "b" ∷ []) ∷ ("b", "c" ∷ []) ∷ ("c", "a" ∷ []) ∷ []

searched : (graph_has_cycle chain ≡ some false) × (graph_has_cycle ring ≡ some true)
unfolding graph_has_cycle visit_any visit get contains insert_key remove_key
searched = (refl, refl)

graph_has_cycle-decides_example :
    (found : Bool) × (graph_has_cycle chain ≡ some found) × ((found ≡ true) ↔ Cycle chain)
graph_has_cycle-decides_example = graph_has_cycle-decides chain

abbrev node : String → EntityValue Value
node id = record { state = "Active"; fields = ("graph", text "g") ∷ [] }

abbrev link : String → String → EntityValue Value
link source target = record {
  state = "Active";
  fields = ("from", text source) ∷ ("graph", text "g") ∷ ("to", text target) ∷ [];
}

abbrev state : ProjectionState Value
state = record {
  entities =
      ("Link", ("l1", link "a" "b") ∷ [])
      ∷ ("Task", ("a", node "a") ∷ ("b", node "b") ∷ ("c", node "c") ∷ [])
      ∷ [];
}

abbrev connecting : ObligationUse
connecting = record {
  provider = "sdk.graph.connect-dag/v1";
  bindings =
      ("edge_partition", "graph")
      ∷ ("edge_source", "from")
      ∷ ("edge_target", "to")
      ∷ ("edges", "Link")
      ∷ ("node_identity", "task_id")
      ∷ ("node_partition", "graph")
      ∷ ("nodes", "Task")
      ∷ ("partition", "graph")
      ∷ ("source", "from")
      ∷ ("target", "to")
      ∷ [];
}

abbrev names : GraphNames
names = record {
  partition = "g";
  active = "Active";
  node_partition = "graph";
  node_identity = "task_id";
  edge_partition = "graph";
  edge_identity = "edge_id";
  edge_source = "from";
  edge_target = "to";
  nodes = "Task";
}

abbrev nodes : Map (EntityValue Value)
nodes = ("a", node "a") ∷ ("b", node "b") ∷ ("c", node "c") ∷ []

abbrev edges : Map (EntityValue Value)
edges = ("l1", link "a" "b") ∷ []

passes : check_graph json state connecting names (some ("b", "c")) ≡ ok (nodes, edges)
unfolding check_graph active_entries is_active field_string bound_limit binding get build_adjacency
    isolated insert_edge_rows insert_graph_edge contains_pair insert_pair insert insert_key
    graph_has_cycle visit_any visit contains remove_key
passes = refl

refused :
    check_graph json state connecting names (some ("b", "a"))
    ≡ err (obligation_refused "graph_cycle")
unfolding check_graph active_entries is_active field_string bound_limit binding get build_adjacency
    isolated insert_edge_rows insert_graph_edge contains_pair insert_pair insert insert_key
    graph_has_cycle visit_any visit contains remove_key
refused = refl

check_graph-IsAccepted_example :
    IsAccepted json state connecting names (some ("b", "c")) nodes edges
check_graph-IsAccepted_example =
    check_graph-IsAccepted json state connecting names (some ("b", "c")) nodes edges passes

abbrev command : Map Value
command = ("from", text "b") ∷ ("graph", text "g") ∷ ("to", text "c") ∷ []

connected :
    run_intent_obligations json resources
      (λ t. none)
      snapshots
      context
      state
      command
      ([] ++ (connecting ∷ []))
      0
    ≡ (ok tt, 0)
unfolding run_intent_obligations run_intent_authorization authority_check enforce_all
    enforce_obligation connect_dag command_binding_string graph_materialization graph_names
    snapshot_rows snapshot_row binding_or check_graph active_entries is_active field_string
    bound_limit binding get build_adjacency isolated insert_edge_rows insert_graph_edge
    contains_pair insert_pair insert insert_key graph_has_cycle visit_any visit contains remove_key
connected = refl

run_intent_obligations-connected_example :
    (source : String) × (target : String) × (command_binding_string json command connecting "source"
      ≡ ok source)
    × (command_binding_string json command connecting "target" ≡ ok target)
    × Accepts json resources (λ t. none) snapshots state command connecting (some (source, target))
run_intent_obligations-connected_example =
    run_intent_obligations-connected json resources (λ t. none) snapshots context state command []
      [] connecting 0 0 refl connected
