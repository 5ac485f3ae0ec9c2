-- ===== src/Engine/Obligations/Run.antt =====
-- crates/service-engine/src/lib.rs: `run_intent_obligations`.
pub mod Enforced
use service_sdk.Base.{ℕ, String, Option, none, some, List, [], ◌∷◌, ◌==◌, if◌then◌else◌}
use service_sdk.Base.Maps.{Map, contains}
use service_sdk.Base.Result
use service_sdk.Base.Result.{Result, ok, err}
use service_sdk.Base.Action.{Action, pure, fail, lift, ◌>>=◌, ◌>>◌}
use service_sdk.Runtime.Auth.{VerifiedAuthContext}
use service_sdk.Engine.{ProjectionState, Json, ExecutionError, unknown_provider}
use service_sdk.Engine.Ports.{ServiceResources}
use service_sdk.Engine.Graph.Materialize.{Snapshots, graph_materialization}
use service_sdk.Engine.Obligations.{
  ObligationUse, command_binding_string, require_state, require_nested_entity,
  require_owned_revision, require_unreferenced_node,
}
use service_sdk.Engine.Obligations.Authorization.{run_intent_authorization}
use service_sdk.Engine.Obligations.Lifetime.{
  validate_lifetime, validate_future, validate_expiry_due,
}

-- The providers that `run_intent_obligations` passes over, after the authorization.
abbrev pub settled_providers : List String
settled_providers =
    "sdk.auth.owner-and-conjunctive-scopes/v1" ∷ "sdk.auth.requested-scopes/v1"
    ∷ "sdk.auth.same-partition-owner-transfer/v1" ∷ "sdk.auth.trusted-scheduler/v1"
    ∷ "sdk.aggregate.event-sourced/v1" ∷ "sdk.content.external-erasable/v1"
    ∷ "sdk.derive.inherit-parent-authority/v1" ∷ "sdk.derive.inherit-parent-authority/v2"
    ∷ "sdk.projection.auth-partitioned-visibility/v1"
    ∷ "sdk.projection.conjunctive-scopes-visibility/v1" ∷ "sdk.projection.hide-terminal-parent/v1"
    ∷ []

module _ {W V : Type 0} (json : Json V) (resources : ServiceResources W V)
    (instant : String → Option ℕ) (snapshots : Snapshots V) where
  -- The arm `sdk.graph.connect-dag/v1`.
  unfoldable pub connect_dag :
      ProjectionState V → Map V → ObligationUse → Result ExecutionError (Unit {0})
  connect_dag state command obligation =
      Result.◌>>=◌ (command_binding_string json command obligation "source") (λ source.
        Result.◌>>=◌ (command_binding_string json command obligation "target") (λ target.
          Result.◌>>=◌
            (graph_materialization json snapshots state obligation command (some (source, target)))
            (λ graph. ok tt)))

  -- The arm `sdk.graph.publish-snapshot/v1`.
  unfoldable pub publish_snapshot :
      ProjectionState V → Map V → ObligationUse → Result ExecutionError (Unit {0})
  publish_snapshot state command obligation =
      Result.◌>>=◌ (graph_materialization json snapshots state obligation command none)
        (λ graph. ok tt)

  -- The match on the provider.
  unfoldable pub enforce_obligation :
      ProjectionState V → Map V → ObligationUse → Action W ExecutionError (Unit {0})
  enforce_obligation state command obligation =
      if obligation.provider == "sdk.lifecycle.require-state/v1"
      then lift (require_state json state obligation command)
      else if obligation.provider == "sdk.aggregate.nested-entity/v1"
      then lift (require_nested_entity json state obligation command)
      else if obligation.provider == "sdk.graph.connect-dag/v1"
      then lift (connect_dag state command obligation)
      else if obligation.provider == "sdk.graph.node-unreferenced/v1"
      then lift (require_unreferenced_node json state obligation command)
      else if obligation.provider == "sdk.graph.publish-snapshot/v1"
      then lift (publish_snapshot state command obligation)
      else if obligation.provider == "sdk.aggregate.owned-revision/v1"
      then lift (require_owned_revision json state obligation command)
      else if obligation.provider == "sdk.lifecycle.expiring-parent-child/v1"
      then validate_lifetime json resources instant obligation state command
      else if obligation.provider == "sdk.lifecycle.bounded-future/v1"
      then validate_future json resources instant obligation command
      else if obligation.provider == "sdk.lifecycle.expiry-due/v1"
      then validate_expiry_due json resources instant obligation state command
      else if contains obligation.provider settled_providers
      then pure tt
      else fail (unknown_provider obligation.provider)

  -- The loop over the obligations.
  unfoldable pub enforce_all :
      ProjectionState V → Map V → List ObligationUse → Action W ExecutionError (Unit {0})
  enforce_all state command [] = pure tt
  enforce_all state command (obligation ∷ obligations) = do
    enforce_obligation state command obligation
    enforce_all state command obligations

  unfoldable pub run_intent_obligations :
      VerifiedAuthContext
      → ProjectionState V
      → Map V
      → List ObligationUse
      → Action W ExecutionError (Unit {0})
  run_intent_obligations context state command obligations = do
    run_intent_authorization json resources context state command obligations
    enforce_all state command obligations
