-- ===== src/Tests/Admission.antt =====
-- The admission of a plan of crates/service-engine/src/lib.rs.
use service_sdk.Base.{String, some, [], ◌∷◌, ◌≡◌, refl}
use service_sdk.Base.Maps.{insert_key}
use service_sdk.Base.Result.{ok, err}
use service_sdk.Base.Text.{is_blank}
use service_sdk.Effect.Plan.{all_hex}
use service_sdk.Engine.Plans.{ViewPlan, ServicePlan}
use service_sdk.Engine.Admission.{
  realization_plan_format, legacy_realization_plan_format, is_digest, strip_suffix,
  outer_optional_type, set_of, same_set, optional_names, is_typed, check_views, from_json,
  invalid_view,
}
use service_sdk.Engine.Admission.Typed.{Admitted, from_json-Admitted}
use service_sdk.Tests.Service.{service, task_view}

abbrev zeros : String
zeros = "0000000000000000000000000000000000000000000000000000000000000000"

abbrev typed_view : ViewPlan
typed_view = record task_view {
  field_types = ("state", "String") ∷ ("task_id", "Optional<String>") ∷ [];
  optional_fields = "task_id" ∷ [];
}

abbrev sealed : ServicePlan
sealed = record service {
  ess_source_digest = zeros;
  obligation_catalog_digest = zeros;
  views = ("tasks", typed_view) ∷ [];
}

-- The same plan without the optional field.
abbrev untyped : ServicePlan
untyped = record sealed { views = ("tasks", record typed_view { optional_fields = [] }) ∷ [] }

admitted : from_json (some sealed) ≡ ok sealed
unfolding from_json realization_plan_format legacy_realization_plan_format is_digest all_hex
    is_blank check_views is_typed set_of same_set optional_names outer_optional_type strip_suffix
    insert_key
admitted = refl

refused : from_json (some untyped) ≡ err (invalid_view "tasks")
unfolding from_json realization_plan_format legacy_realization_plan_format is_digest all_hex
    is_blank check_views is_typed set_of same_set optional_names outer_optional_type strip_suffix
    insert_key
refused = refl

from_json-Admitted_example : Admitted (some sealed) sealed
from_json-Admitted_example = from_json-Admitted (some sealed) sealed admitted
