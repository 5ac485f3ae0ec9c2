-- ===== src/Engine/Obligations/Run/Enforced.antt =====
-- A plan that connects a graph: crates/service-engine/src/lib.rs, `run_intent_obligations` with
-- `graph_materialization`.
use service_sdk.Base.{ℕ, String, ◌≡◌, sym, ap, subst, Option, some, List, [], ◌∷◌, ◌++◌}
use service_sdk.Base.Maps.{Map}
use service_sdk.Base.Result.{Result, ok, >>=-eq-ok}
use service_sdk.Base.Action
use service_sdk.Runtime.Auth.{VerifiedAuthContext}
use service_sdk.Engine.{EntityValue, ProjectionState, Json, ExecutionError}
use service_sdk.Engine.Ports.{ServiceResources}
use service_sdk.Engine.Graph.Materialize.{
  Snapshots, GraphMaterialization, GraphNames, graph_names, check_graph, graph_materialization,
}
use service_sdk.Engine.Graph.Materialize.Accepted.{IsAccepted, check_graph-IsAccepted}
use service_sdk.Engine.Obligations.{ObligationUse, command_binding_string}
use service_sdk.Engine.Obligations.Authorization.{run_intent_authorization}
use service_sdk.Engine.Obligations.Run.{
  connect_dag, enforce_obligation, enforce_all, run_intent_obligations,
}

module _ {W V : Type 0} (json : Json V) (resources : ServiceResources W V)
    (instant : String → Option ℕ) (snapshots : Snapshots V) where
  -- The graph of the obligation with a proposed edge was accepted.
  pub record Accepts (state : ProjectionState V) (command : Map V) (obligation : ObligationUse)
      (proposed : Option (String × String)) : Type 0 where
    pub names : GraphNames
    pub named : graph_names json obligation command ≡ ok names
    pub nodes : Map (EntityValue V)
    pub edges : Map (EntityValue V)
    pub accepted : IsAccepted json state obligation names proposed nodes edges

  graph_materialization-Accepts :
      (state : ProjectionState V) (command : Map V) (obligation : ObligationUse)
      (proposed : Option (String × String)) (graph : GraphMaterialization V)
      → graph_materialization json snapshots state obligation command proposed ≡ ok graph
      → Accepts state command obligation proposed
  unfolding graph_materialization
  graph_materialization-Accepts state command obligation proposed graph h =
      let (names, h1, k1) = >>=-eq-ok (graph_names json obligation command) _ h in
      let (checked, h2, k2) = >>=-eq-ok (check_graph json state obligation names proposed) _ k1 in
      record {
        names = names;
        named = h1;
        nodes = checked.0;
        edges = checked.1;
        accepted =
            check_graph-IsAccepted json state obligation names proposed checked.0 checked.1 h2;
      }

  enforced :
      (state : ProjectionState V) (command : Map V) (before after : List ObligationUse)
      (obligation : ObligationUse) (w w' : W)
      → ◌≡◌ {A = Result ExecutionError (Unit {0}) × W}
          (enforce_all json resources instant snapshots state command
            (before ++ (obligation ∷ after))
            w)
          (ok tt, w')
      → (v : W) × ((enforce_obligation json resources instant snapshots state command obligation
            v).0
          ≡ ok tt)
  unfolding enforce_all
  enforced state command [] after obligation w w' h =
      let (_, h1, k1) =
        Action.>>=-eq-ok
          (enforce_obligation json resources instant snapshots state command obligation) _ w h in
      (w, h1)
  enforced state command (o ∷ before) after obligation w w' h =
      let (_, h1, k1) =
        Action.>>=-eq-ok (enforce_obligation json resources instant snapshots state command o) _ w
          h in
      enforced state command before after obligation
        (enforce_obligation json resources instant snapshots state command o w).1 w' k1

  connects :
      (state : ProjectionState V) (command : Map V) (obligation : ObligationUse) (v : W)
      → obligation.provider ≡ "sdk.graph.connect-dag/v1"
      → (enforce_obligation json resources instant snapshots state command obligation v).0 ≡ ok tt
      → connect_dag json resources instant snapshots state command obligation ≡ ok tt
  unfolding enforce_obligation
  connects state command obligation v h k =
      subst (λ o. connect_dag json resources instant snapshots state command o ≡ ok tt)
        (ap (λ p. record obligation { provider = p }) (sym h)) (rw h at k)

  -- When the obligations of an intent succeed and one of them connects a graph, then the command
  -- names the ends of a new edge, and the graph with that edge has a node, keeps its limits, joins
  -- two different nodes by each edge, has none twice, and has no cycle.
  pub run_intent_obligations-connected :
      (context : VerifiedAuthContext) (state : ProjectionState V) (command : Map V)
      (before after : List ObligationUse) (obligation : ObligationUse) (w w' : W)
      → obligation.provider ≡ "sdk.graph.connect-dag/v1"
      → ◌≡◌ {A = Result ExecutionError (Unit {0}) × W}
          (run_intent_obligations json resources instant snapshots context state command
            (before ++ (obligation ∷ after))
            w)
          (ok tt, w')
      → (source : String) × (target : String) × (command_binding_string json command obligation
            "source"
          ≡ ok source)
        × (command_binding_string json command obligation "target" ≡ ok target)
        × Accepts state command obligation (some (source, target))
  unfolding run_intent_obligations connect_dag
  run_intent_obligations-connected context state command before after obligation w w' p h =
      let (_, h1, k1) =
        Action.>>=-eq-ok
          (run_intent_authorization json resources context state command
            (before ++ (obligation ∷ after)))
          _ w h in
      let (v, done) =
        enforced state command before after obligation
          (run_intent_authorization json resources context state command
            (before ++ (obligation ∷ after)) w).1
          w' k1 in
      let (source, h2, k2) =
        >>=-eq-ok (command_binding_string json command obligation "source") _
          (connects state command obligation v p done) in
      let (target, h3, k3) =
        >>=-eq-ok (command_binding_string json command obligation "target") _ k2 in
      let (graph, h4, k4) =
        >>=-eq-ok
          (graph_materialization json snapshots state obligation command (some (source, target))) _
          k3 in
      (
        source,
        target,
        h2,
        h3,
        graph_materialization-Accepts state command obligation (some (source, target)) graph h4,
      )
