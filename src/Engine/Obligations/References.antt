-- ===== src/Engine/Obligations/References.antt =====
-- When a node may go: crates/service-engine/src/lib.rs, `require_unreferenced_node`.
use service_sdk.Base.{
  String, ◌≡◌, ◌≢◌, refl, ◌⊎◌, inl, inr, Bool, true, false, Option, none, some, [], ◌∷◌, any, arith,
  ◌==◌, eq_iff, option_eq_iff, not, if◌then◌else◌, Bool-cases, Option-cases,
}
use service_sdk.Base.Maps.{Map, get, values}
use service_sdk.Base.Result.{Result, ok, err, >>=-eq-ok}
use service_sdk.Engine.{
  EntityValue, ProjectionState, Json, ExecutionError, obligation_refused, or_default,
}
use service_sdk.Engine.Obligations.{
  ObligationUse, binding, binding_or, or_empty, command_binding_string, field_string, is_active,
  node_exists, references, require_unreferenced_node,
}

any-get :
    {A : Type 0} (p : A → Bool) (m : Map A) (k : String) (v : A)
    → any p (values m) ≡ false
    → get k m ≡ some v
    → p v ≡ false
unfolding get
any-get p [] k v h g = absurd (ground arith)
any-get p ((j, w) ∷ m) k v h g = elim (Bool-cases (j == k)) [
  | inl same ↦ ground arith
  | inr other ↦ any-get p m k v (ground arith) (ground arith)
]

pub refusal :
    (b : Bool) (e : ExecutionError)
    → ◌≡◌ {A = Result ExecutionError (Unit {0})} (if b then err e else ok tt) (ok tt)
    → b ≡ false
refusal b e h = ground arith

module _ {V : Type 0} (json : Json V) where
  -- The bindings of the obligation and of the command, as the check reads them.
  pub record Bound (obligation : ObligationUse) (command : Map V) : Type 0 where
    pub partition : String
    pub node : String
    pub nodes : String
    pub edges : String
    pub edge_partition : String
    pub edge_source : String
    pub edge_target : String
    pub active : String
    pub node_partition : String
    pub active_bound :
        (get "active_state" obligation.bindings ≡ some active)
        ⊎ ((get "active_state" obligation.bindings ≡ none) × (active ≡ "Active"))
    pub node_partition_bound :
        (get "node_partition" obligation.bindings ≡ some node_partition)
        ⊎ ((get "node_partition" obligation.bindings ≡ none) × (node_partition ≡ ""))
    pub partition_bound : command_binding_string json command obligation "partition" ≡ ok partition
    pub node_bound : command_binding_string json command obligation "node" ≡ ok node
    pub nodes_bound : binding obligation "nodes" ≡ ok nodes
    pub edges_bound : binding obligation "edges" ≡ ok edges
    pub edge_partition_bound : binding obligation "edge_partition" ≡ ok edge_partition
    pub edge_source_bound : binding obligation "edge_source" ≡ ok edge_source
    pub edge_target_bound : binding obligation "edge_target" ≡ ok edge_target

  not_referenced :
      (active edge_partition edge_source edge_target partition node : String) (edge : EntityValue V)
      → references json active edge_partition edge_source edge_target partition node edge ≡ false
      → is_active json active edge_partition partition edge ≡ true
      → (field_string json edge edge_source ≢ some node)
        × (field_string json edge edge_target ≢ some node)
  unfolding references
  not_referenced active ep es et partition node edge h a = ground (
    arith,
    option_eq_iff (field_string json edge es) (some node),
    option_eq_iff (field_string json edge et) (some node),
  )

  active-bound :
      (obligation : ObligationUse)
      → (get "active_state" obligation.bindings
          ≡ some (binding_or obligation "active_state" "Active"))
        ⊎ ((get "active_state" obligation.bindings ≡ none)
            × (binding_or obligation "active_state" "Active" ≡ "Active"))
  unfolding binding_or
  active-bound obligation = elim (Option-cases (get "active_state" obligation.bindings)) [
    | inl e ↦ inr (e, ground arith)
    | inr (v, e) ↦ inl (ground arith)
  ]

  node_partition-bound :
      (obligation : ObligationUse)
      → (get "node_partition" obligation.bindings
          ≡ some (or_empty json (binding obligation "node_partition")))
        ⊎ ((get "node_partition" obligation.bindings ≡ none)
            × (or_empty json (binding obligation "node_partition") ≡ ""))
  unfolding binding
  node_partition-bound obligation = elim (Option-cases (get "node_partition" obligation.bindings)) [
    | inl e ↦ inr (e, ground arith)
    | inr (v, e) ↦ inl (ground arith)
  ]

  is_active_iff :
      (active field partition : String) (entity : EntityValue V)
      → (is_active json active field partition entity ≡ true
          → (entity.state ≡ active) × (field_string json entity field ≡ some partition))
        × ((entity.state ≡ active) × (field_string json entity field ≡ some partition)
            → is_active json active field partition entity ≡ true)
  unfolding is_active
  is_active_iff active field partition entity = (
    λ h. (
      (eq_iff entity.state active).0 (ground arith),
      (option_eq_iff (field_string json entity field) (some partition)).0 (ground arith),
    ),
    λ h.
        rw
          (
            (eq_iff entity.state active).1 h.0,
            (option_eq_iff (field_string json entity field) (some partition)).1 h.1,
          )
          refl,
  )

  exists-active :
      (obligation : ObligationUse) (active partition : String) (found : Option (EntityValue V))
      → node_exists json obligation active partition found ≡ true
      → (entity : EntityValue V) × (found ≡ some entity)
        × (entity.state ≡ active)
        × (field_string json entity (or_empty json (binding obligation "node_partition"))
            ≡ some partition)
  unfolding node_exists
  exists-active obligation active partition none h = absurd (ground arith)
  exists-active obligation active partition (some entity) h =
      let (on, lies) =
        (is_active_iff active (or_empty json (binding obligation "node_partition")) partition
            entity).0
          h in
      (entity, refl, on, lies)

  -- A node that may go is stored under the bound identity, in the active state ("Active" when none
  -- is bound) and in the command's partition, and no edge in that state and that
  -- partition, wherever it is stored, starts or ends at it.
  pub require_unreferenced_node-ok :
      (state : ProjectionState V) (obligation : ObligationUse) (command : Map V)
      → require_unreferenced_node json state obligation command ≡ ok tt
      → (b : Bound obligation command) × ((entity : EntityValue V) × (get b.node
              (or_default (get b.nodes state.entities))
            ≡ some entity)
          × (entity.state ≡ b.active)
          × (field_string json entity b.node_partition ≡ some b.partition))
        × ((identity : String) (edge : EntityValue V)
            → get identity (or_default (get b.edges state.entities)) ≡ some edge
            → edge.state ≡ b.active
            → field_string json edge b.edge_partition ≡ some b.partition
            → (field_string json edge b.edge_source ≢ some b.node)
              × (field_string json edge b.edge_target ≢ some b.node))
  unfolding require_unreferenced_node
  require_unreferenced_node-ok state obligation command h =
      let active = binding_or obligation "active_state" "Active" in
      let (partition, h1, k1) =
        >>=-eq-ok (command_binding_string json command obligation "partition") _ h in
      let (node, h2, k2) = >>=-eq-ok (command_binding_string json command obligation "node") _ k1 in
      let (nodes, h3, k3) = >>=-eq-ok (binding obligation "nodes") _ k2 in
      let found = get node (or_default (get nodes state.entities)) in
      let (_, h4, k4) =
        >>=-eq-ok
          (if not (node_exists json obligation active partition found)
            then err (obligation_refused "node_not_found")
            else ok tt)
          _ k3 in
      let (edge_partition, h5, k5) = >>=-eq-ok (binding obligation "edge_partition") _ k4 in
      let (edge_source, h6, k6) = >>=-eq-ok (binding obligation "edge_source") _ k5 in
      let (edge_target, h7, k7) = >>=-eq-ok (binding obligation "edge_target") _ k6 in
      let (edges, h8, k8) = >>=-eq-ok (binding obligation "edges") _ k7 in
      let free = refusal _ _ k8 in
      (
        record {
          partition = partition;
          node = node;
          nodes = nodes;
          edges = edges;
          edge_partition = edge_partition;
          edge_source = edge_source;
          edge_target = edge_target;
          active = active;
          node_partition = or_empty json (binding obligation "node_partition");
          active_bound = active-bound obligation;
          node_partition_bound = node_partition-bound obligation;
          partition_bound = h1;
          node_bound = h2;
          nodes_bound = h3;
          edges_bound = h8;
          edge_partition_bound = h5;
          edge_source_bound = h6;
          edge_target_bound = h7;
        },
        exists-active obligation active partition found (ground arith),
        λ identity edge stored on lies.
            not_referenced active edge_partition edge_source edge_target partition node edge
              (any-get _ (or_default (get edges state.entities)) identity edge free stored)
              ((is_active_iff active edge_partition partition edge).1 (on, lies)),
      )
