-- ===== src/Engine/Obligations/Authorization/Allowed.antt =====
-- What an authorized intent has been asked: crates/service-engine/src/lib.rs,
-- `run_intent_authorization`.
use service_sdk.Base.{
  Bool, true, false, ◌≡◌, ◌↔◌, refl, subst, none, some, List, [], ◌∷◌, if◌then◌else◌, arith, inl,
  inr,
}
use service_sdk.Base.Maps.{Map}
use service_sdk.Base.Result.{Result, ok, err, Result-cases, map_err}
use service_sdk.Base.Action.{Action, pure, fail, continue, ◌>>◌}
use service_sdk.Runtime.Auth.{VerifiedAuthContext}
use service_sdk.Engine.{ProjectionState, Json, ExecutionError, resource_error, obligation_refused}
use service_sdk.Engine.Ports.{AuthorityCheck, ResourceError, ServiceResources}
use service_sdk.Engine.Obligations.{ObligationUse}
use service_sdk.Engine.Obligations.Authorization.{
  authority_check, require_authority, run_intent_authorization,
}

module _ {W V : Type 0} (json : Json V) (resources : ServiceResources W V)
    (context : VerifiedAuthContext) (state : ProjectionState V) (command : Map V) where
  -- The authority grants, one after the other, what the obligations ask.
  pub data Allowed : List ObligationUse → W → W → Type 0 where
    done : {w : W} → Allowed [] w w
    unasked :
        {obligation : ObligationUse} {obligations : List ObligationUse} {w w' : W}
        → authority_check json resources state command obligation ≡ ok none
        → Allowed obligations w w'
        → Allowed (obligation ∷ obligations) w w'
    granted :
        {obligation : ObligationUse} {obligations : List ObligationUse} {w w1 w' : W}
        (check : AuthorityCheck V)
        → authority_check json resources state command obligation ≡ ok (some check)
        → resources.allowed context check w ≡ (ok true, w1)
        → Allowed obligations w1 w'
        → Allowed (obligation ∷ obligations) w w'

  same_world :
      (w w' : W) → ◌≡◌ {A = Result ExecutionError (Unit {0}) × W} (ok tt, w) (ok tt, w') → w ≡ w'
  same_world w w' h = ground arith

  abbrev answered : Result ResourceError Bool × W → Action W ExecutionError (Unit {0})
  answered p w =
      continue (map_err (λ _. resource_error) p.0)
        (λ g. if g then pure tt else fail (obligation_refused "forbidden")) p.1

  answered-ok :
      (p : Result ResourceError Bool × W) (k : Action W ExecutionError (Unit {0})) (w w' : W)
      → ◌≡◌ {A = Result ExecutionError (Unit {0}) × W} ((answered p >> k) w) (ok tt, w')
      → (p ≡ (ok true, p.1)) × ◌≡◌ {A = Result ExecutionError (Unit {0}) × W} (k p.1) (ok tt, w')
  answered-ok (ok true, w1) k w w' h = (refl, h)
  answered-ok (ok false, w1) k w w' h = absurd (ground arith)
  answered-ok (err e, w1) k w w' h = absurd (ground arith)

  run-Allowed :
      (obligations : List ObligationUse) (w w' : W)
      → ◌≡◌ {A = Result ExecutionError (Unit {0}) × W}
          (run_intent_authorization json resources context state command obligations w)
          (ok tt, w')
      → Allowed obligations w w'
  unfolding run_intent_authorization require_authority
  run-Allowed [] w w' h = subst (λ v. Allowed [] w v) (same_world w w' h) done
  run-Allowed (obligation ∷ obligations) w w' h =
      elim (Result-cases (authority_check json resources state command obligation)) [
        | inr (e, p) ↦ absurd (ground arith)
        | inl (none, p) ↦ unasked p (run-Allowed obligations w w' (rw p at h))
        | inl (some check, p) ↦
            let (said, rest) =
              answered-ok (resources.allowed context check w)
                (run_intent_authorization json resources context state command obligations) w w'
                (rw p at h) in
            granted check p said
              (run-Allowed obligations (resources.allowed context check w).1 w' rest)
      ]

  Allowed-run :
      (obligations : List ObligationUse) (w w' : W)
      → Allowed obligations w w'
      → ◌≡◌ {A = Result ExecutionError (Unit {0}) × W}
          (run_intent_authorization json resources context state command obligations w)
          (ok tt, w')
  unfolding run_intent_authorization require_authority
  Allowed-run [] w _ done = refl
  Allowed-run (obligation ∷ obligations) w w' (unasked p rest) =
      rw p (Allowed-run obligations w w' rest)
  Allowed-run (obligation ∷ obligations) w w' (granted {w1 = w1} check p said rest) =
      rw p (rw said (Allowed-run obligations w1 w' rest))

  -- The authorization of an intent succeeds exactly when each obligation either puts no question or
  -- puts one that the authority grants, in the order of the plan, each on the resources as the
  -- questions before it left them.
  pub run_intent_authorization-Allowed :
      (obligations : List ObligationUse) (w w' : W)
      → ◌≡◌ {A = Result ExecutionError (Unit {0}) × W}
          (run_intent_authorization json resources context state command obligations w)
          (ok tt, w')
        ↔ Allowed obligations w w'
  run_intent_authorization-Allowed obligations w w' =
      (run-Allowed obligations w w', Allowed-run obligations w w')
