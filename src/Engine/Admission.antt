-- ===== src/Engine/Admission.antt =====
-- crates/service-engine/src/lib.rs: the admission of a generated plan (`ServicePlan::from_json`).
pub mod OptionalType
pub mod Typed
use Prim.Native.String
use Prim.Native.String.{len}
use Prim.Native.Char.{Char}
use service_sdk.Base.{
  ℕ, String, Bool, true, false, Option, none, some, List, [], ◌∷◌, not, ◌&&◌, ◌||◌, ◌==◌, eqb,
  length, is_empty, is_some, bind_option, if◌then◌else◌,
}
use service_sdk.Base.Maps.{Map, keys, insert_key}
use service_sdk.Base.Result.{Result, ok, err, ok_or, ◌>>=◌, ◌>>◌}
use service_sdk.Base.Text.{is_blank, strip_prefix}
use service_sdk.Engine.Plans.{ViewPlan, ServicePlan}
use service_sdk.Effect.Plan.{all_hex}

unfoldable pub realization_plan_format : String
realization_plan_format = "service-realization-plan/3"

unfoldable pub legacy_realization_plan_format : String
legacy_realization_plan_format = "service-realization-plan/2"

-- Without the message of serde in `Json`.
pub data PlanError : Type 0 where
  plan_json empty_service invalid_digest : PlanError
  unsupported_format invalid_view : String → PlanError

unfoldable pub is_digest : String → Bool
is_digest value = eqb (len value) 64 && all_hex value

abbrev pub put_first : Char → Option String → Option String
put_first c none = none
put_first c (some s) = some (String.◌∷◌ c s)

-- `s.strip_suffix(k)`: without its last character, if that is the text `k` of one character.
unfoldable pub strip_suffix : String → String → Option String
strip_suffix k String.[] = none
strip_suffix k (String.◌∷◌ c String.[]) = if String.◌∷◌ c "" == k then some "" else none
strip_suffix k (String.◌∷◌ c (String.◌∷◌ d s)) = put_first c (strip_suffix k (String.◌∷◌ d s))

-- `.is_some_and(|inner| !inner.is_empty())`
abbrev pub is_inner : Option String → Bool
is_inner none = false
is_inner (some inner) = not (inner == "")

unfoldable pub outer_optional_type : String → Bool
outer_optional_type type_ref =
    is_inner (bind_option (strip_prefix "Optional<" type_ref) (λ inner. strip_suffix ">" inner))

-- `.collect::<BTreeSet<_>>()`
unfoldable pub set_of : List String → List String
set_of [] = []
set_of (k ∷ ks) = insert_key k (set_of ks)

-- Equality of ordered sets.
unfoldable pub same_set : List String → List String → Bool
same_set [] [] = true
same_set (s ∷ ss) (t ∷ ts) = s == t && same_set ss ts
same_set _ _ = false

-- The fields whose type is optional.
unfoldable pub optional_names : Map String → List String
optional_names [] = []
optional_names ((field, type_ref) ∷ types) =
    let rest = optional_names types in if outer_optional_type type_ref then field ∷ rest else rest

-- A view of the current format.
unfoldable pub is_typed : ViewPlan → Bool
is_typed view =
    eqb (length (set_of view.fields)) (length view.fields)
    && (same_set (set_of (keys view.field_types)) (set_of view.fields)
        && same_set view.optional_fields (set_of (optional_names view.field_types)))

-- A view of the format before it.
abbrev pub is_untyped : ViewPlan → Bool
is_untyped view = is_empty view.field_types && is_empty view.optional_fields

-- The loop over the views.
unfoldable pub check_views : String → Map ViewPlan → Result PlanError (Unit {0})
check_views format [] = ok tt
check_views format ((name, view) ∷ views) =
    (if if format == legacy_realization_plan_format then is_untyped view else is_typed view
      then ok tt
      else err (invalid_view name))
    >> check_views format views

-- `from_json` behind serde, on the plan that serde read, or none.
unfoldable pub from_json : Option ServicePlan → Result PlanError ServicePlan
from_json text = do
  plan ← ok_or text plan_json
  if not (plan.format == realization_plan_format)
        && not (plan.format == legacy_realization_plan_format)
      then err (unsupported_format plan.format)
      else ok tt
  if not (is_digest plan.ess_source_digest) || not (is_digest plan.obligation_catalog_digest)
      then err invalid_digest
      else ok tt
  if is_blank plan.service then err empty_service else ok tt
  check_views plan.format plan.views
  ok plan
