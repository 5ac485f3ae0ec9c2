-- ===== src/Engine/Obligations/Lifetime.antt =====
-- crates/service-engine/src/lib.rs: the obligations on lifetimes, which read the clock
-- (`validate_lifetime`, `validate_future`, `validate_expiry_due`).
pub mod Bounds
use service_sdk.Base.{
  ℕ, String, Bool, Option, none, some, List, leb, ltb, bind_option, if◌then◌else◌,
}
use service_sdk.Base.Maps.{Map, get}
use service_sdk.Base.Result.{Result, ok, err, ok_or}
use service_sdk.Base.Action.{Action, pure, fail, lift, ◌>>=◌, ◌>>◌}
use service_sdk.Engine.{
  EntityValue, ProjectionState, Json, ExecutionError, invalid_plan, invalid_input,
  obligation_refused, first_instance,
}
use service_sdk.Engine.Ports.{ServiceResources, port}
use service_sdk.Engine.Obligations.{ObligationUse, binding, selected}

-- `binding(..).ok()`
abbrev pub to_option : {A : Type 0} → Result ExecutionError A → Option A
to_option (ok a) = some a
to_option (err e) = none

-- `instant` stands for `OffsetDateTime::parse(.., &Rfc3339)`, third-party code: instants are
-- counted from the earliest one.
module _ {W V : Type 0} (json : Json V) (resources : ServiceResources W V)
    (instant : String → Option ℕ) where
  unfoldable pub lifetime_instant : V → Option String
  lifetime_instant value =
      bind_option (json.as_object value)
        (λ object. bind_option (get "expires_at" object) (λ v. json.as_str v))

  unfoldable pub parse_instant : String → Result ExecutionError ℕ
  parse_instant value = ok_or (instant value) (obligation_refused "invalid_lifetime")

  -- `parse_instant(&clock.now()?)?`
  unfoldable pub current : Action W ExecutionError ℕ
  current = do text ← port resources.now; lift (parse_instant text)

  -- The expiry of the first instance of the parent.
  unfoldable pub parent_expiry : ObligationUse → Option (Map (EntityValue V)) → Option String
  parent_expiry obligation instances = bind_option (first_instance instances) (λ parent.
      bind_option (to_option (binding obligation "parent_lifetime"))
        (λ field. bind_option (get field parent.fields) lifetime_instant))

  unfoldable pub validate_lifetime :
      ObligationUse → ProjectionState V → Map V → Action W ExecutionError (Unit {0})
  validate_lifetime obligation state command = do
    child_field ← lift (binding obligation "child_lifetime")
    text ← lift (
        ok_or (bind_option (get child_field command) lifetime_instant)
          (obligation_refused "invalid_lifetime"))
    candidate ← lift (parse_instant text)
    now ← current
    if leb candidate now then fail (obligation_refused "invalid_lifetime") else pure tt
    parent ← lift (binding obligation "parent")
    expiry ← lift (
        ok_or (parent_expiry obligation (get parent state.entities))
          (obligation_refused "parent_not_found"))
    limit ← lift (parse_instant expiry)
    if ltb limit candidate then fail (obligation_refused "invalid_lifetime") else pure tt

  unfoldable pub validate_future : ObligationUse → Map V → Action W ExecutionError (Unit {0})
  validate_future obligation command = do
    field ← lift (binding obligation "lifetime")
    text ← lift (ok_or (bind_option (get field command) lifetime_instant) (invalid_input field))
    candidate ← lift (ok_or (instant text) (invalid_input field))
    now ← current
    if leb candidate now then fail (invalid_input field) else pure tt

  unfoldable pub validate_expiry_due :
      ObligationUse → ProjectionState V → Map V → Action W ExecutionError (Unit {0})
  validate_expiry_due obligation state command = do
    name ← lift (binding obligation "entity")
    instances ← lift (ok_or (get name state.entities) (obligation_refused "not_found"))
    found ← lift (selected json obligation command instances)
    entity ← lift (ok_or found (obligation_refused "not_found"))
    field ← lift (binding obligation "lifetime")
    text ← lift (
        ok_or (bind_option (get field entity.fields) lifetime_instant)
          (invalid_plan "entity lifetime"))
    expiry ← lift (parse_instant text)
    now ← current
    if ltb now expiry then fail (obligation_refused "expiry_not_due") else pure tt
