-- ===== src/Tests/Lifetimes.antt =====
-- Lifetimes at concrete values: crates/service-engine/src/lib.rs.
use service_sdk.Base.{
  ℕ, ◌≤◌, ◌<◌, String, Option, none, some, [], ◌∷◌, ◌≡◌, refl, ◌==◌, if◌then◌else◌,
}
use service_sdk.Base.Maps.{Map, get}
use service_sdk.Base.Result.{ok}
use service_sdk.Engine.{ProjectionState}
use service_sdk.Engine.Obligations.{ObligationUse, binding, selected}
use service_sdk.Engine.Obligations.Lifetime.{
  lifetime_instant, parse_instant, current, parent_expiry, validate_lifetime, validate_future,
  validate_expiry_due,
}
use service_sdk.Engine.Obligations.Lifetime.Bounds.{
  Expires, Reads, ParentExpires, validate_lifetime-within,
}
use service_sdk.Tests.Service.{Value, object_of, json, resources}

-- Instants are written as one digit.
abbrev instant : String → Option ℕ
instant t =
    if t == "3"
    then some 3
    else if t == "5"
    then some 5
    else if t == "7"
    then some 7
    else if t == "9"
    then some 9
    else none

abbrev ends : String → Value
ends time = object_of (("expires_at", time) ∷ [])

abbrev child : ObligationUse
child = record {
  provider = "sdk.lifecycle.expiring-parent-child/v1";
  bindings =
      ("child_lifetime", "lifetime")
      ∷ ("entity", "Order")
      ∷ ("lifetime", "lifetime")
      ∷ ("parent", "Order")
      ∷ ("parent_lifetime", "lifetime")
      ∷ [];
}

abbrev order_until : String → ProjectionState Value
order_until time = record {
  entities =
      ("Order", ("o1", record { state = "Open"; fields = ("lifetime", ends time) ∷ [] }) ∷ []) ∷ [];
}

abbrev until : String → Map Value
until time = ("lifetime", ends time) ∷ []

within : validate_lifetime json resources instant child (order_until "9") (until "7") 0 ≡ (ok tt, 1)
unfolding validate_lifetime current parse_instant parent_expiry lifetime_instant binding get
within = refl

validate_lifetime-within_example :
    (field : String) × (binding child "child_lifetime" ≡ ok field)
    × (candidate : ℕ) × Expires json resources instant (until "7") field candidate
    × (now : ℕ) × Reads json resources instant 0 now
    × (limit : ℕ) × ParentExpires json resources instant child (order_until "9") limit
    × (now < candidate)
    × (candidate ≤ limit)
validate_lifetime-within_example =
    validate_lifetime-within json resources instant child (order_until "9") (until "7") 0 1 within

future : validate_future json resources instant child (until "7") 0 ≡ (ok tt, 1)
unfolding validate_future current parse_instant lifetime_instant binding get
future = refl

due : validate_expiry_due json resources instant child (order_until "3") [] 0 ≡ (ok tt, 1)
unfolding validate_expiry_due current parse_instant lifetime_instant selected binding get
due = refl
