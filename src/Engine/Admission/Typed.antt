-- ===== src/Engine/Admission/Typed.antt =====
-- What an admitted plan says of the types of its views: crates/service-engine/src/lib.rs,
-- `ServicePlan::from_json`.
use service_sdk.Base.{
  String, Bool, true, false, ◌≡◌, ◌≢◌, ◌↔◌, ◌⊎◌, refl, sym, ap, subst, ◌∙◌, Option, some, List, [],
  ◌∷◌, not, ◌&&◌, ◌||◌, ◌==◌, any, All, eq_iff, Bool-cases, length, is_empty, inl, inr, arith,
  if◌then◌else◌,
}
use service_sdk.Base.Maps.{Map, keys, contains}
use service_sdk.Base.Maps.Laws.{contains-insert_key}
use service_sdk.Base.Result.{Result, ok, err, ok_or, ◌>>◌, >>=-eq-ok, ok_or-eq-ok}
use service_sdk.Base.Text.{is_blank}
use Prim.Native.String.{◌++◌}
use service_sdk.Engine.Admission.OptionalType.{outer_optional_type_iff}
use service_sdk.Engine.Plans.{ViewPlan, ServicePlan}
use service_sdk.Engine.Admission.{
  realization_plan_format, legacy_realization_plan_format, PlanError, is_digest,
  outer_optional_type, set_of, same_set, optional_names, is_typed, is_untyped, check_views,
  from_json, plan_json, unsupported_format, invalid_digest, empty_service,
}

contains-set_of : (k : String) (ks : List String) → contains k (set_of ks) ≡ contains k ks
unfolding set_of contains
contains-set_of k [] = refl
contains-set_of k (j ∷ ks) =
    contains-insert_key j k (set_of ks)
    ∙ ap (λ b. if j == k then true else b) (contains-set_of k ks)

same_set-eq : (ss ts : List String) → same_set ss ts ≡ true → ss ≡ ts
unfolding same_set
same_set-eq [] [] h = refl
same_set-eq [] (t ∷ ts) h = cc
same_set-eq (s ∷ ss) [] h = cc
same_set-eq (s ∷ ss) (t ∷ ts) h =
    let heads : (s == t) ≡ true = ground arith in
    let tails : same_set ss ts ≡ true = ground arith in
    ap (λ k. k ∷ ss) ((eq_iff s t).0 heads) ∙ ap (λ ks. t ∷ ks) (same_set-eq ss ts tails)

-- Some declared type of the field is optional.
abbrev pub has_optional_type : String → Map String → Bool
has_optional_type field types = any (λ entry. entry.0 == field && outer_optional_type entry.1) types

contains-optional_names :
    (field : String) (types : Map String)
    → contains field (optional_names types) ≡ has_optional_type field types
unfolding optional_names contains
contains-optional_names field [] = refl
contains-optional_names field ((name, type_ref) ∷ types) =
    ground (arith, contains-optional_names field types)

-- The field has a type `Optional<T>`.
abbrev pub HasOptional : String → Map String → Type 0
HasOptional field [] = ⊥
HasOptional field ((name, type_ref) ∷ types) =
    ((name ≡ field) × (inner : String) × (type_ref ≡ "Optional<" ++ (inner ++ ">")) × (inner ≢ ""))
    ⊎ HasOptional field types

has_optional_type-HasOptional :
    (field : String) (types : Map String)
    → (has_optional_type field types ≡ true) ↔ HasOptional field types
has_optional_type-HasOptional field [] = (λ h. cc, λ h. absurd h)
has_optional_type-HasOptional field ((name, type_ref) ∷ types) = ground (
  arith,
  eq_iff name field,
  outer_optional_type_iff type_ref,
  has_optional_type-HasOptional field types,
)

-- The types of a view: no field is declared twice, the typed fields are the declared ones, and a field
-- is optional exactly if its type is.
pub record Typed (view : ViewPlan) : Type 0 where
  pub distinct : length (set_of view.fields) ≡ length view.fields
  pub fields :
      (field : String) → contains field (keys view.field_types) ≡ contains field view.fields
  pub optional :
      (field : String)
      → (contains field view.optional_fields ≡ true) ↔ HasOptional field view.field_types

is_typed-Typed : (view : ViewPlan) → is_typed view ≡ true → Typed view
unfolding is_typed
is_typed-Typed view h =
    let types : same_set (set_of (keys view.field_types)) (set_of view.fields) ≡ true =
      ground arith in
    let optionals : same_set view.optional_fields (set_of (optional_names view.field_types))
        ≡ true =
      ground arith in
    record {
      distinct = ground arith;
      fields = λ field.
          sym (contains-set_of field (keys view.field_types))
          ∙ ap (λ s. contains field s) (same_set-eq _ _ types)
          ∙ contains-set_of field view.fields;
      optional = λ field.
          let named =
            ap (λ s. contains field s) (same_set-eq _ _ optionals)
            ∙ contains-set_of field (optional_names view.field_types)
            ∙ contains-optional_names field view.field_types in
          let typed = has_optional_type-HasOptional field view.field_types in
          (λ h. typed.0 (sym named ∙ h), λ h. named ∙ typed.1 h);
    }

abbrev AllTyped : Map ViewPlan → Type 0
AllTyped views = All (λ entry. Typed entry.1) views

check_views-Typed :
    (views : Map ViewPlan) → check_views realization_plan_format views ≡ ok tt → AllTyped views
unfolding check_views realization_plan_format legacy_realization_plan_format
check_views-Typed [] h = tt
check_views-Typed ((name, view) ∷ views) h = elim (Bool-cases (is_typed view)) [
  | inl typed ↦ (is_typed-Typed view typed, check_views-Typed views (rw typed at h))
  | inr other ↦ cc (rw other at h)
]

-- The views of the format before it have neither types nor optional fields.
pub record Untyped (view : ViewPlan) : Type 0 where
  pub no_types : view.field_types ≡ []
  pub no_optionals : view.optional_fields ≡ []

is_empty-nil : {A : Type 0} (xs : List A) → is_empty xs ≡ true → xs ≡ []
is_empty-nil [] h = refl
is_empty-nil (x ∷ xs) h = cc

check_views-Untyped :
    (views : Map ViewPlan)
    → check_views legacy_realization_plan_format views ≡ ok tt
    → All (λ entry. Untyped entry.1) views
unfolding check_views realization_plan_format legacy_realization_plan_format
check_views-Untyped [] h = tt
check_views-Untyped ((name, view) ∷ views) h = elim (Bool-cases (is_untyped view)) [
  | inl untyped ↦ (
    record {
      no_types = is_empty-nil view.field_types (ground arith);
      no_optionals = is_empty-nil view.optional_fields (ground arith);
    },
    check_views-Untyped views (rw untyped at h),
  )
  | inr other ↦ cc (rw other at h)
]

-- What `from_json` admits.
pub record Admitted (text : Option ServicePlan) (plan : ServicePlan) : Type 0 where
  pub own : text ≡ some plan
  pub format :
      (plan.format ≡ realization_plan_format) ⊎ (plan.format ≡ legacy_realization_plan_format)
  pub source_digest : is_digest plan.ess_source_digest ≡ true
  pub catalog_digest : is_digest plan.obligation_catalog_digest ≡ true
  pub named : is_blank plan.service ≡ false
  pub typed : plan.format ≡ realization_plan_format → AllTyped plan.views
  pub untyped :
      plan.format ≡ legacy_realization_plan_format → All (λ entry. Untyped entry.1) plan.views

checked :
    (b : Bool) (e : PlanError) {A : Type 0} (k : Result PlanError A) (a : A)
    → ((if b then err e else ok tt) >> k) ≡ ok a
    → (b ≡ false) × (k ≡ ok a)
checked true e k a h = cc
checked false e k a h = (refl, h)

-- A plan is admitted only in one of the two known formats, with two digests of 64 lowercase
-- hexadecimal digits and a service name that is not blank; and in the current format each view
-- declares no field twice, has types for exactly its fields, and a field is optional exactly if it has
-- a type `Optional<T>`, T not empty; in the format before it no view has types or optional fields.
pub from_json-Admitted :
    (text : Option ServicePlan) (plan : ServicePlan) → from_json text ≡ ok plan → Admitted text plan
unfolding from_json
from_json-Admitted text plan h =
    let (p, h1, k1) = >>=-eq-ok (ok_or text plan_json) _ h in
    let (formats, k2) =
      checked
        (not (p.format == realization_plan_format)
          && not (p.format == legacy_realization_plan_format))
        (unsupported_format p.format) _ plan k1 in
    let (digests, k3) =
      checked (not (is_digest p.ess_source_digest) || not (is_digest p.obligation_catalog_digest))
        invalid_digest _ plan k2 in
    let (named, k4) = checked (is_blank p.service) empty_service _ plan k3 in
    let (done, views, k5) = >>=-eq-ok (check_views p.format p.views) _ k4 in
    let same : p ≡ plan = same_plan p plan k5 in
    subst (λ q. Admitted text q) same
      (record {
        own = ok_or-eq-ok text plan_json h1;
        format = known p formats;
        source_digest = ground arith;
        catalog_digest = ground arith;
        named = named;
        typed = λ current.
            check_views-Typed p.views (ap (λ f. check_views f p.views) (sym current) ∙ views);
        untyped = λ legacy.
            check_views-Untyped p.views (ap (λ f. check_views f p.views) (sym legacy) ∙ views);
      })
  where
    same_plan : (p q : ServicePlan) → ◌≡◌ {A = Result PlanError ServicePlan} (ok p) (ok q) → p ≡ q
    same_plan p q h = cc

    known :
        (p : ServicePlan)
        → (not (p.format == realization_plan_format)
            && not (p.format == legacy_realization_plan_format))
          ≡ false
        → (p.format ≡ realization_plan_format) ⊎ (p.format ≡ legacy_realization_plan_format)
    known p h = ground (
      arith,
      eq_iff p.format realization_plan_format,
      eq_iff p.format legacy_realization_plan_format,
    )
