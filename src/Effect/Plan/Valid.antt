-- ===== src/Effect/Plan/Valid.antt =====
-- Which plans can be prepared.
use Prim.Native.String.{◌++◌}
use service_sdk.Base.{
  String, inl, inr, Option-cases, ◌≡◌, ◌≢◌, ◌↔◌, refl, true, false, none, List, [], ◌∷◌, All, any,
  is_some, arith, eq_iff,
}
use service_sdk.Base.Text.{is_blank}
use service_sdk.Base.Bytes.Digest.{digest}
use service_sdk.Base.Result.{ok}
use service_sdk.Effect.Plan.{
  EffectPlan, PreparedEffect, effect_plan_format, is_sha256, validate, Sealing, prepare, plan_parts,
  operation_parts,
}

-- What the documentation of `EffectPlan` asks for.
pub record IsValid (plan : EffectPlan) : Type 0 where
  pub format : plan.format ≡ effect_plan_format
  pub service : is_blank plan.service ≡ false
  pub operation : is_blank plan.operation ≡ false
  pub resource_revision : is_blank plan.resource_revision ≡ false
  pub authority_reference : is_blank plan.authority_reference ≡ false
  pub input_digest : is_sha256 plan.input_digest ≡ true
  pub binding_digest : is_sha256 plan.binding_digest ≡ true
  pub grants : is_some plan.grant_reference ≡ is_some plan.grant_revision
  pub some_consequence : plan.consequences ≢ []
  pub named_consequences : All (λ c. is_blank c ≡ false) plan.consequences

any-false : (cs : List String) → (any is_blank cs ≡ false) ↔ All (λ c. is_blank c ≡ false) cs
any-false [] = ground arith
any-false (c ∷ cs) = ground (arith, any-false cs)

pub validate_sound : (plan : EffectPlan) → validate plan ≡ ok tt → IsValid plan
unfolding validate
validate_sound plan h =
    ground (arith, any-false plan.consequences, eq_iff plan.format effect_plan_format)

pub validate_complete : (plan : EffectPlan) → IsValid plan → validate plan ≡ ok tt
unfolding validate
validate_complete plan v =
    ground (arith, any-false plan.consequences, eq_iff plan.format effect_plan_format)

-- A plan is prepared exactly when it is valid, the caller's key is not blank and the plan can be
-- encoded; the prepared effect then holds the plan and the key unchanged.
pub prepare_iff :
    (sealing : Sealing) (plan : EffectPlan) (key : String)
    → ((p : PreparedEffect) × (prepare sealing plan key ≡ ok p)
        × (p.plan ≡ plan)
        × (p.idempotency_key ≡ key))
      ↔ (IsValid plan × (is_blank key ≡ false) × (sealing.to_vec plan ≢ none))
unfolding prepare
prepare_iff sealing plan key = (
  λ (p, e, _, _). (validate_sound plan (ground arith), ground arith, ground arith),
  λ (v, named, encoded). elim (Option-cases (sealing.to_vec plan)) [
    | inl nothing ↦ absurd (encoded nothing)
    | inr (bytes, e) ↦ (
      record {
        plan = plan;
        plan_digest = "sha256:" ++ digest sealing.sha256 (plan_parts sealing bytes);
        operation_id =
            "effect:sha256:" ++ digest sealing.sha256 (operation_parts sealing plan key bytes);
        idempotency_key = key;
      },
      ground (arith, validate_complete plan v),
      refl,
      refl,
    )
  ],
)
