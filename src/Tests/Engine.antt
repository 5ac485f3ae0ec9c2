-- ===== src/Tests/Engine.antt =====
-- A plan of tasks and their links: reducers and obligations of crates/service-engine/src/lib.rs at
-- concrete values.
use service_sdk.Base.{
  String, ◌≡◌, ◌≢◌, refl, Option, none, some, [], ◌∷◌, ◌++◌, ◌==◌, if◌then◌else◌,
}
use service_sdk.Base.Maps.{Map, get, insert, contains}
use service_sdk.Base.Result.{ok, err}
use service_sdk.Engine.{
  DomainEvent, LoadedStream, create, move, ReducerPlan, EntityValue, ProjectionState, Json,
  inherited, event_fields, created_fields, reduce_entity, reduce, reduce_all, misnumbered, fold,
  or_default,
}
use service_sdk.Engine.Step.{find, EntityStep, reduce-EntityStep}
use service_sdk.Engine.Replay.{fold-append}
use service_sdk.Engine.Declared.{IsNamed, fold-IsDeclared}
use service_sdk.Engine.Obligations.{
  ObligationUse, binding, binding_or, command_binding_string, field_string, is_active, node_exists,
  references, require_unreferenced_node,
}
use service_sdk.Engine.Obligations.References.{Bound, require_unreferenced_node-ok}
use service_sdk.Engine.Graph.{
  Pairs, contains_pair, insert_pair, Adjacency, targets, insert_graph_edge, isolated,
}
use service_sdk.Engine.Graph.Edges.{IsProper, Distinct}
use service_sdk.Engine.Graph.Build.{endpoints, listed, build_adjacency-exact}
use service_sdk.Engine.{obligation_refused}
use service_sdk.Engine.Graph.{build_adjacency, insert_edge_rows, insert_pair}
use service_sdk.Base.Maps.{contains_key, insert_key}
use service_sdk.Base.{All}

-- Values are texts.
abbrev json : Json String
json = record {
  as_str = λ v. some v;
  as_u64 = λ v. none;
  as_object = λ v. none;
  is_null = λ v. v == "null";
  null = "null";
  string = λ v. v;
  number = λ n. "number";
  array = λ vs. "array";
}

abbrev opening : ReducerPlan
opening = record {
  entity = "Task";
  identity_field = "task_id";
  effect = create "Active";
  fields = "graph" ∷ [];
  inherit = none;
}

abbrev closing : ReducerPlan
closing = record opening { effect = move ("Active" ∷ []) "Closed"; fields = [] }

abbrev reducers : Map ReducerPlan
reducers = ("closed", closing) ∷ ("opened", opening) ∷ []

abbrev opened : DomainEvent String
opened = record { name = "opened"; fields = ("graph", "g") ∷ ("task_id", "t1") ∷ [] }

abbrev closed : DomainEvent String
closed = record { name = "closed"; fields = ("task_id", "t1") ∷ [] }

abbrev nothing : ProjectionState String
nothing = record { entities = [] }

abbrev task_in : String → ProjectionState String
task_in state = record {
  entities =
      (
        "Task",
        ("t1", record { state = state; fields = ("graph", "g") ∷ ("task_id", "t1") ∷ [] }) ∷ [],
      )
      ∷ [];
}

abbrev history : LoadedStream String
history = record { version = 1; events = record { version = 1; event = opened } ∷ [] }

folds : fold json reducers history ≡ ok (task_in "Active")
unfolding fold reduce_all reduce reduce_entity inherited created_fields event_fields misnumbered get
    insert
folds = refl

closes : reduce json reducers (task_in "Active") closed ≡ ok (task_in "Closed")
unfolding reduce reduce_entity inherited get insert contains
closes = refl

reduce-EntityStep_example :
    (reducer : ReducerPlan) × (get "closed" reducers ≡ some reducer)
    × (value : String) × (get reducer.identity_field closed.fields ≡ some value)
    × (identity : String) × (some value ≡ some identity)
    × (authority : Option (String × String)) × (inherited json
          (task_in "Active")
          closed
          reducer.inherit
        ≡ ok authority)
    × (e : EntityValue String) × EntityStep json reducer closed identity authority
        (find (task_in "Active") reducer.entity identity)
        e
    × ((other i : String)
        → find (task_in "Closed") other i ≡ (
            if reducer.entity == other
            then (if identity == i then some e else find (task_in "Active") other i)
            else find (task_in "Active") other i))
reduce-EntityStep_example =
    reduce-EntityStep json reducers (task_in "Active") (task_in "Closed") closed closes

fold-append_example :
    fold json reducers (record {
      version = 2;
      events = history.events ++ (record { version = 2; event = closed } ∷ []);
    })
    ≡ reduce json reducers (task_in "Active") closed
fold-append_example =
    fold-append json reducers history (record { version = 2; event = closed }) (task_in "Active")
      folds refl

found :
    find (task_in "Active") "Task" "t1"
    ≡ some (record { state = "Active"; fields = ("graph", "g") ∷ ("task_id", "t1") ∷ [] })
unfolding find get
found = refl

fold-IsDeclared_example : IsNamed json reducers "Task" "Active"
fold-IsDeclared_example =
    fold-IsDeclared json reducers history (task_in "Active") folds "Task" "t1"
      (record { state = "Active"; fields = ("graph", "g") ∷ ("task_id", "t1") ∷ [] }) found

abbrev removal : ObligationUse
removal = record {
  provider = "sdk.graph.node-unreferenced/v1";
  bindings =
      ("edge_partition", "graph")
      ∷ ("edge_source", "from")
      ∷ ("edge_target", "to")
      ∷ ("edges", "Link")
      ∷ ("node", "task_id")
      ∷ ("node_partition", "graph")
      ∷ ("nodes", "Task")
      ∷ ("partition", "graph")
      ∷ [];
}

abbrev command : Map String
command = ("graph", "g") ∷ ("task_id", "t1") ∷ []

free : require_unreferenced_node json (task_in "Active") removal command ≡ ok tt
unfolding require_unreferenced_node command_binding_string binding binding_or node_exists is_active
    field_string references get
free = refl

require_unreferenced_node-ok_example :
    (b : Bound json removal command) × ((entity : EntityValue String) × (get b.node
          (or_default (get b.nodes (task_in "Active").entities))
        ≡ some entity)
      × (entity.state ≡ b.active)
      × (field_string json entity b.node_partition ≡ some b.partition))
    × ((identity : String) (edge : EntityValue String)
        → get identity (or_default (get b.edges (task_in "Active").entities)) ≡ some edge
        → edge.state ≡ b.active
        → field_string json edge b.edge_partition ≡ some b.partition
        → (field_string json edge b.edge_source ≢ some b.node)
          × (field_string json edge b.edge_target ≢ some b.node))
require_unreferenced_node-ok_example =
    require_unreferenced_node-ok json (task_in "Active") removal command free

abbrev link : EntityValue String
link = record { state = "Active"; fields = ("from", "a") ∷ ("to", "b") ∷ [] }

abbrev chain : Adjacency
chain = ("a", "b" ∷ []) ∷ ("b", "c" ∷ []) ∷ ("c", []) ∷ []

abbrev two_edges : Pairs
two_edges = ("a", "b") ∷ ("b", "c") ∷ []

chained :
    build_adjacency json "from" "to" ("a" ∷ "b" ∷ "c" ∷ []) (link ∷ []) (some ("b", "c"))
    ≡ ok (chain, two_edges)
unfolding build_adjacency insert_edge_rows insert_graph_edge field_string isolated insert insert_key
    insert_pair contains_pair get
chained = refl

refused_cycle_of_one :
    build_adjacency json "from" "to" ("a" ∷ "b" ∷ []) (link ∷ []) (some ("b", "b"))
    ≡ err (obligation_refused "self_edge")
unfolding build_adjacency insert_edge_rows insert_graph_edge field_string isolated insert insert_key
    insert_pair contains_pair get
refused_cycle_of_one = refl

build_adjacency-exact_example :
    All
      (IsProper (isolated ("a" ∷ "b" ∷ "c" ∷ [])))
      (endpoints json "from" "to" (link ∷ []) ++ listed (some ("b", "c")))
    × Distinct (endpoints json "from" "to" (link ∷ []) ++ listed (some ("b", "c")))
    × ((s t : String)
        → contains t (targets s chain)
          ≡ contains_pair
              (s, t)
              (endpoints json "from" "to" (link ∷ []) ++ listed (some ("b", "c"))))
    × ((k : String) → contains_key k chain ≡ contains_key k (isolated ("a" ∷ "b" ∷ "c" ∷ [])))
build_adjacency-exact_example =
    build_adjacency-exact json "from" "to" ("a" ∷ "b" ∷ "c" ∷ []) (link ∷ []) (some ("b", "c"))
      chain two_edges chained
