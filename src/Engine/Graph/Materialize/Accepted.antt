-- ===== src/Engine/Graph/Materialize/Accepted.antt =====
-- The graphs that the checks let pass: crates/service-engine/src/lib.rs, `graph_materialization`.
use service_sdk.Base.{
  ℕ, ◌+◌, ◌≤◌, String, ◌≡◌, ◌≢◌, refl, subst, ◌∙◌, length-append, Bool, true, false, Option, none,
  some, List, [], ◌∷◌, ◌++◌, not, ltb, length, is_empty, is_some, All, arith, if◌then◌else◌,
}
use service_sdk.Base.Maps.{Map, get, keys, values, contains}
use service_sdk.Base.Result.{Result, ok, err, >>=-eq-ok, ◌>>=◌}
use service_sdk.Engine.{
  EntityValue, ProjectionState, Json, ExecutionError, obligation_refused, or_default,
}
use service_sdk.Engine.Obligations.{ObligationUse, binding, field_string}
use service_sdk.Engine.Obligations.References.{refusal}
use service_sdk.Engine.Graph.{Pairs, contains_pair, Adjacency, targets, isolated, build_adjacency}
use service_sdk.Engine.Graph.Edges.{IsProper, Distinct}
use service_sdk.Engine.Graph.Build.{both, endpoints, listed, build_adjacency-exact}
use service_sdk.Engine.Graph.Cycle.{graph_has_cycle}
use service_sdk.Engine.Graph.Cycle.Search.{Reach, edge, onward, graph_has_cycle-decides}
use service_sdk.Engine.Graph.Materialize.{
  GraphNames, bound_limit, is_acyclic, active_entries, check_graph,
}

-- A path of one of the edges or more.
pub data Joins (edges : Pairs) (a : String) : String → Type 0 where
  one : {b : String} → contains_pair (a, b) edges ≡ true → Joins edges a b
  more : {b c : String} → Joins edges a b → contains_pair (b, c) edges ≡ true → Joins edges a c

Joins-Reach :
    (adjacency : Adjacency) (edges : Pairs)
    → ((s t : String) → contains t (targets s adjacency) ≡ contains_pair (s, t) edges)
    → {a b : String} → Joins edges a b
    → Reach adjacency a b
Joins-Reach adjacency edges same {a = a} {b = b} (one h) = edge (same a b ∙ h)
Joins-Reach adjacency edges same {b = c} (more {b = b} r h) =
    onward (Joins-Reach adjacency edges same r) (same b c ∙ h)

acyclic_lem :
    (adjacency : Adjacency)
    → is_acyclic (graph_has_cycle adjacency) ≡ true
    → (node : String) → Reach adjacency node node
    → ⊥
acyclic_lem adjacency h node r =
    let (found, answer, exactly) = graph_has_cycle-decides adjacency in
    let yes_found : found ≡ true = exactly.1 (node, r) in absurd (ground arith)

-- A graph that passed: its active nodes and edges, and the bounds that they keep.
pub record IsAccepted {V : Type 0} (json : Json V) (state : ProjectionState V)
    (obligation : ObligationUse) (names : GraphNames) (proposed : Option (String × String))
    (nodes edges : Map (EntityValue V)) : Type 0 where
  pub edges_name : String
  pub edges_bound : binding obligation "edges" ≡ ok edges_name
  pub own_nodes :
      nodes
      ≡ active_entries json names.active names.node_partition names.partition
          (or_default (get names.nodes state.entities))
  pub own_edges :
      edges
      ≡ active_entries json names.active names.edge_partition names.partition
          (or_default (get edges_name state.entities))
  pub some_node : nodes ≢ []
  pub max_nodes : ℕ
  pub max_edges : ℕ
  pub nodes_bound : bound_limit obligation "max_nodes" 500 ≡ ok max_nodes
  pub few_nodes : length nodes ≤ max_nodes
  pub limit_bound : bound_limit obligation "max_edges" 2000 ≡ ok max_edges
  pub few_edges :
      length (endpoints json names.edge_source names.edge_target (values edges) ++ listed proposed)
      ≤ max_edges
  pub proper :
      All
        (IsProper (isolated (keys nodes)))
        (endpoints json names.edge_source names.edge_target (values edges) ++ listed proposed)
  pub distinct :
      Distinct
        (endpoints json names.edge_source names.edge_target (values edges) ++ listed proposed)
  pub acyclic :
      (node : String)
      → Joins
          (endpoints json names.edge_source names.edge_target (values edges) ++ listed proposed)
          node
          node
      → ⊥

length-both : (s t : Option String) → length (both s t) ≤ 1
length-both none t = omega arith
length-both (some s) none = omega arith
length-both (some s) (some t) = omega arith

ltb-le : (a b : ℕ) → ltb a b ≡ false → b ≤ a
ltb-le a b h = ground arith

not_empty : {A : Type 0} (xs : List A) → is_empty xs ≡ false → xs ≢ []
not_empty [] h = absurd (cc)
not_empty (x ∷ xs) h = λ e. cc

last_step :
    {A B : Type 0} (b : Bool) (e : ExecutionError) (x x' : A) (y y' : B)
    → ◌≡◌ {A = Result ExecutionError (A × B)} (if not b then err e else ok (x, y)) (ok (x', y'))
    → (b ≡ true) × (x ≡ x') × (y ≡ y')
last_step b e x x' y y' h = ground arith

length-endpoints-le :
    {V : Type 0} (json : Json V) (source target : String) (edges : Map (EntityValue V))
    → length (endpoints json source target (values edges)) ≤ length edges
length-endpoints-le json source target [] = omega arith
length-endpoints-le json source target ((k, e) ∷ edges) = ground (
  arith,
  length-append (both (field_string json e source) (field_string json e target))
      (endpoints json source target (values edges)),
  length-both (field_string json e source) (field_string json e target),
  length-endpoints-le json source target edges,
)

length-listed : (p : Option (String × String)) → length (listed p) ≡ (if is_some p then 1 else 0)
length-listed none = refl
length-listed (some p) = refl

search_stage :
    {A B : Type 0} (r : Result ExecutionError (Adjacency × Pairs)) (x x' : A) (y y' : B)
    → ◌≡◌ {A = Result ExecutionError (A × B)}
        (r >>= (λ built.
          if not (is_acyclic (graph_has_cycle built.0))
          then err (obligation_refused "graph_cycle")
          else ok (x, y)))
        (ok (x', y'))
    → (built : Adjacency × Pairs) × (r ≡ ok built)
      × (is_acyclic (graph_has_cycle built.0) ≡ true)
      × (x ≡ x')
      × (y ≡ y')
search_stage r x x' y y' h =
    let (built, h1, h2) = >>=-eq-ok r _ h in
    let (searched, same, same') =
      last_step (is_acyclic (graph_has_cycle built.0)) (obligation_refused "graph_cycle") x x' y y'
        h2 in
    (built, h1, searched, same, same')

-- A graph passes the checks only if it is accepted: it has a node, keeps both limits, its edges and
-- the proposed one are between two different nodes of it and none stands there twice, and no path
-- over them comes back to where it started.
pub check_graph-IsAccepted :
    {V : Type 0} (json : Json V) (state : ProjectionState V) (obligation : ObligationUse)
    (names : GraphNames) (proposed : Option (String × String)) (nodes edges : Map (EntityValue V))
    → check_graph json state obligation names proposed ≡ ok (nodes, edges)
    → IsAccepted json state obligation names proposed nodes edges
unfolding check_graph
check_graph-IsAccepted json state obligation names proposed nodes edges h =
    let all_nodes =
      active_entries json names.active names.node_partition names.partition
        (or_default (get names.nodes state.entities)) in
    let (_, h1, k1) =
      >>=-eq-ok (if is_empty all_nodes then err (obligation_refused "empty_graph") else ok tt) _
        h in
    let (max_nodes, h2, k2) = >>=-eq-ok (bound_limit obligation "max_nodes" 500) _ k1 in
    let (_, h3, k3) =
      >>=-eq-ok
        (if ltb max_nodes (length all_nodes)
          then err (obligation_refused "graph_too_large")
          else ok tt)
        _ k2 in
    let (edges_name, h4, k4) = >>=-eq-ok (binding obligation "edges") _ k3 in
    let all_edges =
      active_entries json names.active names.edge_partition names.partition
        (or_default (get edges_name state.entities)) in
    let (max_edges, h5, k5) = >>=-eq-ok (bound_limit obligation "max_edges" 2000) _ k4 in
    let (_, h6, k6) =
      >>=-eq-ok
        (if ltb max_edges (length all_edges + (if is_some proposed then 1 else 0))
          then err (obligation_refused "graph_too_large")
          else ok tt)
        _ k5 in
    let (built, h7, searched, same_nodes, same_edges) =
      search_stage
        (build_adjacency json names.edge_source names.edge_target (keys all_nodes)
          (values all_edges) proposed)
        all_nodes nodes all_edges edges k6 in
    let (proper, distinct, exact, _) =
      build_adjacency-exact json names.edge_source names.edge_target (keys all_nodes)
        (values all_edges) proposed built.0 built.1 h7 in
    subst (λ n. IsAccepted json state obligation names proposed n edges) same_nodes
      (subst (λ e. IsAccepted json state obligation names proposed all_nodes e) same_edges
        (record {
          edges_name = edges_name;
          edges_bound = h4;
          own_nodes = refl;
          own_edges = refl;
          some_node = not_empty all_nodes (refusal _ _ h1);
          max_nodes = max_nodes;
          max_edges = max_edges;
          nodes_bound = h2;
          few_nodes = ltb-le max_nodes (length all_nodes) (refusal _ _ h3);
          limit_bound = h5;
          few_edges = omega (
            arith,
            ltb-le max_edges (length all_edges + (if is_some proposed then 1 else 0))
                (refusal _ _ h6),
            length-append (endpoints json names.edge_source names.edge_target (values all_edges))
                (listed proposed),
            length-endpoints-le json names.edge_source names.edge_target all_edges,
            length-listed proposed,
          );
          proper = proper;
          distinct = distinct;
          acyclic = λ node r. acyclic_lem built.0 searched node (Joins-Reach built.0 _ exact r);
        }))
