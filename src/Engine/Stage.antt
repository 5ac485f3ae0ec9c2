-- ===== src/Engine/Stage.antt =====
-- crates/service-engine/src/lib.rs: the staged content of an intent (the loop over the inputs in
-- `decide_intent`, `abandon_all`).
use service_sdk.Base.{String, List, [], ◌∷◌, ◌++◌}
use service_sdk.Base.Maps.{Map, get, insert}
use service_sdk.Base.Result.{ok, err, ok_or}
use service_sdk.Base.Action.{Action, pure, lift, ◌>>=◌, ◌>>◌}
use service_sdk.Runtime.Auth.{VerifiedAuthContext}
use service_sdk.Engine.{Json, ExecutionError, missing_input}
use service_sdk.Engine.Ports.{StagedContent, ServiceResources, port}
use service_sdk.Engine.Plans.{content_input, InputPlan, ServicePlan}
use service_sdk.Engine.Inputs.{content_payload}

module _ {W V : Type 0} (json : Json V) (resources : ServiceResources W V) (service : ServicePlan)
    (context : VerifiedAuthContext) where
  unfoldable pub abandon_all : List StagedContent → W → W
  abandon_all [] w = w
  abandon_all (item ∷ staged) w = abandon_all staged (resources.abandon context item.token w).1

  -- A step whose failure abandons what is staged.
  unfoldable pub or_abandon :
      {A : Type 0} → List StagedContent → Action W ExecutionError A → Action W ExecutionError A
  or_abandon staged step w =
      let (r, w') = step w in elim r [ ok a ↦ (ok a, w') | err e ↦ (err e, abandon_all staged w') ]

  -- One round of the loop over the inputs.
  unfoldable pub stage_input :
      String
      → Map V
      → InputPlan
      → Map V
      → List StagedContent
      → Action W ExecutionError (Map V × List StagedContent)
  stage_input key decoded input command staged = elim input.source [
    | content_input policy field ↦ do
      value ← lift (ok_or (get input.name decoded) (missing_input input.name))
      payload ← lift (content_payload json service.content policy input.name value)
      item ← or_abandon staged (port (resources.stage context policy key payload))
      pure (insert field (json.string item.reference) command, staged ++ (item ∷ []))
    | _ ↦ pure (command, staged)
  ]

  unfoldable pub stage_all :
      String
      → Map V
      → List InputPlan
      → Map V
      → List StagedContent
      → Action W ExecutionError (Map V × List StagedContent)
  stage_all key decoded [] command staged = pure (command, staged)
  stage_all key decoded (input ∷ inputs) command staged = do
    next ← stage_input key decoded input command staged
    stage_all key decoded inputs next.0 next.1

  unfoldable pub accept_all : List StagedContent → Action W ExecutionError (Unit {0})
  accept_all [] = pure tt
  accept_all (item ∷ staged) = do port (resources.accept context item.token); accept_all staged
