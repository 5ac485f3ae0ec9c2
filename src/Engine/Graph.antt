-- ===== src/Engine/Graph.antt =====
-- crates/service-engine/src/lib.rs: the adjacency of an aggregate's graph, built edge by edge.
pub mod Edges
pub mod Build
pub mod Cycle
pub mod Materialize
use service_sdk.Base.{
  String, Bool, true, false, Option, none, some, List, [], ◌∷◌, not, ◌&&◌, ◌||◌, ◌==◌,
  if◌then◌else◌,
}
use service_sdk.Base.Maps.{Map, str_lt, get, insert, contains_key, insert_key}
use service_sdk.Base.Result.{Result, ok, err, ok_or, ◌>>=◌}
use service_sdk.Engine.Obligations.{field_string}
use service_sdk.Engine.{ExecutionError, obligation_refused, invalid_plan, Json, EntityValue}

-- `BTreeSet<(String, String)>`: pairs in their order, the first component before the second.
abbrev pub Pairs : Type 0
Pairs = List (String × String)

abbrev pub pair_eq : String × String → String × String → Bool
pair_eq (a, b) (c, d) = a == c && b == d

abbrev pair_lt : String × String → String × String → Bool
pair_lt (a, b) (c, d) = str_lt a c || (a == c && str_lt b d)

unfoldable pub contains_pair : String × String → Pairs → Bool
contains_pair p [] = false
contains_pair p (q ∷ pairs) = pair_eq q p || contains_pair p pairs

unfoldable pub insert_pair : String × String → Pairs → Pairs
insert_pair p [] = p ∷ []
insert_pair p (q ∷ pairs) =
    if pair_eq q p
    then q ∷ pairs
    else if pair_lt p q
    then p ∷ q ∷ pairs
    else q ∷ insert_pair p pairs

-- `BTreeMap<String, BTreeSet<String>>`
abbrev pub Adjacency : Type 0
Adjacency = Map (List String)

abbrev pub set_or_empty : Option (List String) → List String
set_or_empty none = []
set_or_empty (some set) = set

abbrev pub targets : String → Adjacency → List String
targets node adjacency = set_or_empty (get node adjacency)

unfoldable pub insert_graph_edge :
    Adjacency → Pairs → String → String → Result ExecutionError (Adjacency × Pairs)
insert_graph_edge adjacency pairs source target =
    if source == target
    then err (obligation_refused "self_edge")
    else if not (contains_key source adjacency) || not (contains_key target adjacency)
    then err (obligation_refused "dangling_edge")
    else if contains_pair (source, target) pairs
    then err (obligation_refused "duplicate_edge")
    else ok (
      insert source (insert_key target (targets source adjacency)) adjacency,
      insert_pair (source, target) pairs,
    )

-- Edge after edge, given by their endpoints.
unfoldable pub insert_graph_edges :
    Adjacency → Pairs → List (String × String) → Result ExecutionError (Adjacency × Pairs)
insert_graph_edges adjacency pairs [] = ok (adjacency, pairs)
insert_graph_edges adjacency pairs ((source, target) ∷ edges) =
    insert_graph_edge adjacency pairs source target >>= λ built.
    insert_graph_edges built.0 built.1 edges

-- Every node with no targets.
unfoldable pub isolated : List String → Adjacency
isolated [] = []
isolated (node ∷ nodes) = insert node [] (isolated nodes)

module _ {V : Type 0} (json : Json V) (edge_source edge_target : String) where
  -- The loop over the stored edges in `graph_materialization`.
  unfoldable pub insert_edge_rows :
      Adjacency → Pairs → List (EntityValue V) → Result ExecutionError (Adjacency × Pairs)
  insert_edge_rows adjacency pairs [] = ok (adjacency, pairs)
  insert_edge_rows adjacency pairs (edge ∷ edges) = do
    source ← ok_or (field_string json edge edge_source) (invalid_plan edge_source)
    target ← ok_or (field_string json edge edge_target) (invalid_plan edge_target)
    built ← insert_graph_edge adjacency pairs source target
    insert_edge_rows built.0 built.1 edges

  -- The adjacency of the nodes, the stored edges and the proposed one.
  unfoldable pub build_adjacency :
      List String
      → List (EntityValue V)
      → Option (String × String)
      → Result ExecutionError (Adjacency × Pairs)
  build_adjacency nodes edges proposed = do
    built ← insert_edge_rows (isolated nodes) [] edges
    elim proposed [
      | none ↦ ok built
      | some (source, target) ↦ insert_graph_edge built.0 built.1 source target
    ]
