-- ===== src/Engine/Graph/Build.antt =====
-- The adjacency that `graph_materialization` of crates/service-engine/src/lib.rs builds.
use service_sdk.Base.{String, ◌≡◌, refl, ◌∙◌, Option, none, some, List, [], ◌∷◌, ◌++◌, All}
use service_sdk.Base.Maps.{contains_key, contains}
use service_sdk.Base.Result.{ok, ok_or, >>=-eq-ok, ok_or-eq-ok}
use service_sdk.Engine.{EntityValue, Json, invalid_plan}
use service_sdk.Engine.Obligations.{field_string}
use service_sdk.Engine.Graph.{
  Pairs, contains_pair, Adjacency, targets, insert_graph_edge, insert_graph_edges, isolated,
  insert_edge_rows, build_adjacency,
}
use service_sdk.Engine.Graph.Edges.{IsProper, Distinct, ok_inj, insert_graph_edges-exact}

abbrev pub both : Option String → Option String → Pairs
both (some s) (some t) = (s, t) ∷ []
both _ _ = []

abbrev pub listed : Option (String × String) → Pairs
listed none = []
listed (some p) = p ∷ []

module _ {V : Type 0} (json : Json V) (edge_source edge_target : String) where
  -- The endpoints of the stored edges.
  abbrev pub endpoints : List (EntityValue V) → Pairs
  endpoints [] = []
  endpoints (edge ∷ edges) =
      both (field_string json edge edge_source) (field_string json edge edge_target)
      ++ endpoints edges

  insert_edge_rows-ok :
      (a : Adjacency) (pairs : Pairs) (edges : List (EntityValue V)) (built : Adjacency × Pairs)
      (rest : Pairs)
      → insert_edge_rows json edge_source edge_target a pairs edges ≡ ok built
      → insert_graph_edges a pairs (endpoints edges ++ rest)
        ≡ insert_graph_edges built.0 built.1 rest
  unfolding insert_edge_rows insert_graph_edges
  insert_edge_rows-ok a pairs [] built rest h =
      λ i. insert_graph_edges (ok_inj h i).0 (ok_inj h i).1 rest
  insert_edge_rows-ok a pairs (edge ∷ edges) built rest h =
      let (s, h1, k1) =
        >>=-eq-ok (ok_or (field_string json edge edge_source) (invalid_plan edge_source)) _ h in
      let (t, h2, k2) =
        >>=-eq-ok (ok_or (field_string json edge edge_target) (invalid_plan edge_target)) _ k1 in
      let (next, h3, k3) = >>=-eq-ok (insert_graph_edge a pairs s t) _ k2 in
      rw (ok_or-eq-ok _ _ h1, ok_or-eq-ok _ _ h2, h3)
        (insert_edge_rows-ok next.0 next.1 edges built rest k3)

  -- The adjacency of a graph that is accepted so far holds exactly the stored edges and the
  -- proposed one; each is between two different nodes of the graph, and none stands there twice.
  pub build_adjacency-exact :
      (nodes : List String) (edges : List (EntityValue V)) (proposed : Option (String × String))
      (adjacency : Adjacency) (pairs : Pairs)
      → build_adjacency json edge_source edge_target nodes edges proposed ≡ ok (adjacency, pairs)
      → All (IsProper (isolated nodes)) (endpoints edges ++ listed proposed)
        × Distinct (endpoints edges ++ listed proposed)
        × ((s t : String)
            → contains t (targets s adjacency)
              ≡ contains_pair (s, t) (endpoints edges ++ listed proposed))
        × ((k : String) → contains_key k adjacency ≡ contains_key k (isolated nodes))
  unfolding build_adjacency insert_graph_edges
  build_adjacency-exact nodes edges proposed adjacency pairs h =
      let (built, h1, k1) =
        >>=-eq-ok (insert_edge_rows json edge_source edge_target (isolated nodes) [] edges) _ h in
      insert_graph_edges-exact nodes (endpoints edges ++ listed proposed) pairs adjacency (
        insert_edge_rows-ok (isolated nodes) [] edges built (listed proposed) h1
        ∙ last proposed built k1)
    where
      last :
          (p : Option (String × String)) (built : Adjacency × Pairs)
          → elim p [
            | none ↦ ok built
            | some (source, target) ↦ insert_graph_edge built.0 built.1 source target
          ]
            ≡ ok (adjacency, pairs)
          → insert_graph_edges built.0 built.1 (listed p) ≡ ok (adjacency, pairs)
      last none built k = k
      last (some (s, t)) built k = rw k refl
