-- ===== src/Engine/Obligations/Lifetime/Bounds.antt =====
-- The bounds on lifetimes: crates/service-engine/src/lib.rs, `validate_lifetime`,
-- `validate_future` and `validate_expiry_due`.
use service_sdk.Base.{
  ℕ, ◌≤◌, ◌<◌, String, false, ◌≡◌, ◌∙◌, ap, refl, Option, some, leb, ltb, arith, bind_option,
}
use service_sdk.Base.Maps.{Map, get}
use service_sdk.Base.Result.{Result, ok, err, ok_or, map_err}
use service_sdk.Base.Action.{
  Action, lift, ◌>>=◌, continue, lift-eq-ok, lift-ok_or-eq-ok, refuse-eq-ok, refuse-ok,
}
use service_sdk.Engine.{
  EntityValue, ProjectionState, Json, ExecutionError, obligation_refused, resource_error,
}
use service_sdk.Engine.Ports.{ResourceError, ServiceResources}
use service_sdk.Engine.Obligations.{ObligationUse, binding, selected}
use service_sdk.Engine.Obligations.Lifetime.{
  lifetime_instant, parse_instant, current, parent_expiry, validate_lifetime, validate_expiry_due,
}

module _ {W V : Type 0} (json : Json V) (resources : ServiceResources W V)
    (instant : String → Option ℕ) where
  -- The field of the map holds a lifetime that ends then.
  abbrev pub Expires : Map V → String → ℕ → Type 0
  Expires fields field time =
      (text : String) × (bind_option (get field fields) (lifetime_instant json resources instant)
        ≡ some text)
      × (instant text ≡ some time)

  -- What the clock says.
  abbrev pub Reads : W → ℕ → Type 0
  Reads w now = (text : String) × ((resources.now w).0 ≡ ok text) × (instant text ≡ some now)

  -- The end of the parent's lifetime.
  abbrev pub ParentExpires : ObligationUse → ProjectionState V → ℕ → Type 0
  ParentExpires obligation state limit =
      (parent : String) × (binding obligation "parent" ≡ ok parent)
      × (text : String) × (parent_expiry json resources instant obligation
            (get parent state.entities)
          ≡ some text)
      × (instant text ≡ some limit)

  later : (a b : ℕ) → leb a b ≡ false → b < a
  later a b h = ground arith

  not_later : (a b : ℕ) → ltb a b ≡ false → b ≤ a
  not_later a b h = ground arith

  current-Reads :
      {B : Type 0} (f : ℕ → Action W ExecutionError B) (w : W) {x : B} {w'' : W}
      → ◌≡◌ {A = Result ExecutionError B × W} ((current json resources instant >>= f) w) (ok x, w'')
      → (now : ℕ) × Reads w now
        × ◌≡◌ {A = Result ExecutionError B × W} (f now (resources.now w).1) (ok x, w'')
  unfolding current parse_instant
  current-Reads {B = B} f w {x = x} {w'' = w''} h = go (resources.now w) h
    where
      go :
          (p : Result ResourceError String × W)
          → ◌≡◌ {A = Result ExecutionError B × W}
              (continue
                (continue
                  (map_err (λ _. resource_error) p.0)
                  (λ text. lift (ok_or (instant text) (obligation_refused "invalid_lifetime")))
                  p.1).0
                f
                (continue
                  (map_err (λ _. resource_error) p.0)
                  (λ text. lift (ok_or (instant text) (obligation_refused "invalid_lifetime")))
                  p.1).1)
              (ok x, w'')
          → (now : ℕ) × ((text : String) × (p.0 ≡ ok text) × (instant text ≡ some now))
            × ◌≡◌ {A = Result ExecutionError B × W} (f now p.1) (ok x, w'')
      go (ok text, w1) h =
          let (now, read, rest) =
            lift-ok_or-eq-ok (instant text) (obligation_refused "invalid_lifetime") f w1 h in
          (now, (text, refl, read), rest)
      go (err e, w1) h = absurd (ground arith)

  -- A new child lifetime ends after the instant that the clock reads, and no later than that of the
  -- parent.
  pub validate_lifetime-within :
      (obligation : ObligationUse) (state : ProjectionState V) (command : Map V) (w w' : W)
      → ◌≡◌ {A = Result ExecutionError (Unit {0}) × W}
          (validate_lifetime json resources instant obligation state command w)
          (ok tt, w')
      → (field : String) × (binding obligation "child_lifetime" ≡ ok field)
        × (candidate : ℕ) × Expires command field candidate
        × (now : ℕ) × Reads w now
        × (limit : ℕ) × ParentExpires obligation state limit
        × (now < candidate)
        × (candidate ≤ limit)
  unfolding validate_lifetime parse_instant
  validate_lifetime-within obligation state command w w' h =
      let (field, h1, k1) = lift-eq-ok (binding obligation "child_lifetime") _ w h in
      let (text, h2, k2) =
        lift-ok_or-eq-ok (bind_option (get field command) (lifetime_instant json resources instant))
          _ _ w k1 in
      let (candidate, h3, k3) = lift-ok_or-eq-ok (instant text) _ _ w k2 in
      let (now, read, k4) = current-Reads _ w k3 in
      let w1 = (resources.now w).1 in
      let (after, k5) = refuse-eq-ok (leb candidate now) _ _ w1 k4 in
      let (parent, h6, k6) = lift-eq-ok (binding obligation "parent") _ w1 k5 in
      let (expiry, h7, k7) =
        lift-ok_or-eq-ok
          (parent_expiry json resources instant obligation (get parent state.entities)) _ _ w1 k6 in
      let (limit, h8, k8) = lift-ok_or-eq-ok (instant expiry) _ _ w1 k7 in
      (
        field,
        h1,
        candidate,
        (text, h2, h3),
        now,
        read,
        limit,
        (parent, h6, expiry, h7, h8),
        later candidate now after,
        not_later limit candidate (refuse-ok (ltb limit candidate) _ w1 k8),
      )

  -- An expiry that is due: the lifetime of the entity that the command names, or of the first one,
  -- has ended by the instant that the clock reads.
  pub validate_expiry_due-due :
      (obligation : ObligationUse) (state : ProjectionState V) (command : Map V) (w w' : W)
      → ◌≡◌ {A = Result ExecutionError (Unit {0}) × W}
          (validate_expiry_due json resources instant obligation state command w)
          (ok tt, w')
      → (name : String) × (binding obligation "entity" ≡ ok name)
        × (instances : Map (EntityValue V)) × (get name state.entities ≡ some instances)
        × (entity : EntityValue V) × (selected json obligation command instances ≡ ok (some entity))
        × (field : String) × (binding obligation "lifetime" ≡ ok field)
        × (expiry : ℕ) × Expires entity.fields field expiry
        × (now : ℕ) × Reads w now
        × (expiry ≤ now)
  unfolding validate_expiry_due parse_instant
  validate_expiry_due-due obligation state command w w' h =
      let (name, h1, k1) = lift-eq-ok (binding obligation "entity") _ w h in
      let (instances, h2, k2) = lift-ok_or-eq-ok (get name state.entities) _ _ w k1 in
      let (found, h3, k3) = lift-eq-ok (selected json obligation command instances) _ w k2 in
      let (entity, h4, k4) = lift-ok_or-eq-ok found _ _ w k3 in
      let (field, h5, k5) = lift-eq-ok (binding obligation "lifetime") _ w k4 in
      let (text, h6, k6) =
        lift-ok_or-eq-ok
          (bind_option (get field entity.fields) (lifetime_instant json resources instant)) _ _ w
          k5 in
      let (expiry, h7, k7) = lift-ok_or-eq-ok (instant text) _ _ w k6 in
      let (now, read, k8) = current-Reads _ w k7 in
      let due = refuse-ok (ltb now expiry) _ (resources.now w).1 k8 in
      (
        name,
        h1,
        instances,
        h2,
        entity,
        h3 ∙ ap (λ o. ok o) h4,
        field,
        h5,
        expiry,
        (text, h6, h7),
        now,
        read,
        not_later now expiry due,
      )
