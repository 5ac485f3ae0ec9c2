-- ===== src/Engine/Obligations/Authorization.antt =====
-- crates/service-engine/src/lib.rs: `run_intent_authorization`.
pub mod Allowed
use service_sdk.Base.{
  String, Bool, true, false, Option, none, some, List, [], ◌∷◌, ◌==◌, if◌then◌else◌,
}
use service_sdk.Base.Maps.{Map, get, contains}
use service_sdk.Base.Result
use service_sdk.Base.Result.{Result, ok, err, ok_or}
use service_sdk.Base.Action.{Action, pure, fail, lift, ◌>>=◌, ◌>>◌}
use service_sdk.Runtime.Auth.{VerifiedAuthContext}
use service_sdk.Engine.{
  ProjectionState, Json, ExecutionError, missing_input, obligation_refused, unknown_provider,
}
use service_sdk.Engine.Ports.{
  AuthorityCheck, owner_and_scopes, requested_scopes, owner_transfer, capability, ServiceResources,
  port,
}
use service_sdk.Engine.Obligations.{ObligationUse, binding, binding_or, bound_entity, bound_value}

-- The providers that `run_intent_authorization` passes over.
abbrev pub unasked_providers : List String
unasked_providers =
    "sdk.aggregate.event-sourced/v1" ∷ "sdk.content.external-erasable/v1"
    ∷ "sdk.derive.inherit-parent-authority/v1" ∷ "sdk.derive.inherit-parent-authority/v2"
    ∷ "sdk.projection.auth-partitioned-visibility/v1"
    ∷ "sdk.projection.conjunctive-scopes-visibility/v1" ∷ "sdk.projection.hide-terminal-parent/v1"
    ∷ "sdk.lifecycle.require-state/v1" ∷ "sdk.aggregate.nested-entity/v1"
    ∷ "sdk.graph.connect-dag/v1" ∷ "sdk.graph.node-unreferenced/v1"
    ∷ "sdk.graph.publish-snapshot/v1" ∷ "sdk.aggregate.owned-revision/v1"
    ∷ "sdk.lifecycle.expiring-parent-child/v1" ∷ "sdk.lifecycle.bounded-future/v1"
    ∷ "sdk.lifecycle.expiry-due/v1" ∷ []

module _ {W V : Type 0} (json : Json V) (resources : ServiceResources W V) where
  -- The arms: the question that an obligation puts to the authority, if it puts one.
  unfoldable pub owner_check :
      ProjectionState V → ObligationUse → Result ExecutionError (Option (AuthorityCheck V))
  owner_check state obligation =
      Result.◌>>=◌ (bound_entity json state obligation "owner") (λ entity.
        Result.◌>>=◌ (bound_value json entity obligation "owner") (λ owner.
          Result.◌>>=◌ (bound_value json entity obligation "scopes")
            (λ scopes. ok (some (owner_and_scopes owner scopes)))))

  scopes_check : ObligationUse → Map V → Result ExecutionError (Option (AuthorityCheck V))
  scopes_check obligation command = Result.◌>>=◌ (binding obligation "scopes") (λ field.
      Result.◌>>=◌ (ok_or (get field command) (missing_input field))
        (λ scopes. ok (some (requested_scopes scopes))))

  transfer_check : ObligationUse → Map V → Result ExecutionError (Option (AuthorityCheck V))
  transfer_check obligation command =
      let field = binding_or obligation "new_owner" "new_owner" in
      Result.◌>>=◌ (ok_or (get field command) (missing_input field))
        (λ new_owner. ok (some (owner_transfer new_owner)))

  scheduler_check : ObligationUse → Result ExecutionError (Option (AuthorityCheck V))
  scheduler_check obligation =
      Result.◌>>=◌ (binding obligation "capability") (λ name. ok (some (capability name)))

  unfoldable pub authority_check :
      ProjectionState V → Map V → ObligationUse → Result ExecutionError (Option (AuthorityCheck V))
  unfolding owner_check scopes_check transfer_check scheduler_check
  authority_check state command obligation =
      if obligation.provider == "sdk.auth.owner-and-conjunctive-scopes/v1"
      then owner_check state obligation
      else if obligation.provider == "sdk.auth.requested-scopes/v1"
      then scopes_check obligation command
      else if obligation.provider == "sdk.auth.same-partition-owner-transfer/v1"
      then transfer_check obligation command
      else if obligation.provider == "sdk.auth.trusted-scheduler/v1"
      then scheduler_check obligation
      else if contains obligation.provider unasked_providers
      then ok none
      else err (unknown_provider obligation.provider)

  unfoldable pub require_authority :
      VerifiedAuthContext → AuthorityCheck V → Action W ExecutionError (Unit {0})
  require_authority context check = do
    granted ← port (resources.allowed context check)
    if granted then pure tt else fail (obligation_refused "forbidden")

  abbrev pub ask :
      VerifiedAuthContext → Option (AuthorityCheck V) → Action W ExecutionError (Unit {0})
  ask context none = pure tt
  ask context (some check) = require_authority context check

  unfoldable pub run_intent_authorization :
      VerifiedAuthContext
      → ProjectionState V
      → Map V
      → List ObligationUse
      → Action W ExecutionError (Unit {0})
  run_intent_authorization context state command [] = pure tt
  run_intent_authorization context state command (obligation ∷ obligations) = do
    check ← lift (authority_check state command obligation)
    ask context check
    run_intent_authorization context state command obligations
