-- ===== src/Effect/Plan/Equality.antt =====
-- The derived equality of prepared effects.
use service_sdk.Base.{
  ℕ, String, ◌≡◌, ◌↔◌, Bool, true, false, ◌&&◌, Option, none, some, List, [], ◌∷◌, ◌==◌, eqb,
  option_eq, arith, eq_iff, option_eq_iff,
}
use service_sdk.Effect.Plan.{EffectRisk, low, medium, high, destructive, EffectPlan, PreparedEffect}

abbrev risk_eq : EffectRisk → EffectRisk → Bool
risk_eq low low = true
risk_eq medium medium = true
risk_eq high high = true
risk_eq destructive destructive = true
risk_eq _ _ = false

abbrev revision_eq : Option ℕ → Option ℕ → Bool
revision_eq none none = true
revision_eq (some a) (some b) = eqb a b
revision_eq _ _ = false

unfoldable pub texts_eq : List String → List String → Bool
texts_eq [] [] = true
texts_eq (s ∷ ss) (t ∷ ts) = s == t && texts_eq ss ts
texts_eq _ _ = false

unfoldable pub plan_eq : EffectPlan → EffectPlan → Bool
unfolding texts_eq
plan_eq a b =
    a.format == b.format
    && (a.service == b.service
        && (a.operation == b.operation
            && (a.input_digest == b.input_digest
                && (option_eq a.input_reference b.input_reference
                    && (a.binding_digest == b.binding_digest
                        && (eqb a.aggregate_version b.aggregate_version
                            && (a.resource_revision == b.resource_revision
                                && (a.authority_reference == b.authority_reference
                                    && (option_eq a.grant_reference b.grant_reference
                                        && (revision_eq a.grant_revision b.grant_revision
                                            && (risk_eq a.risk b.risk
                                                && texts_eq a.consequences b.consequences)))))))))))

unfoldable pub prepared_eq : PreparedEffect → PreparedEffect → Bool
unfolding plan_eq
prepared_eq a b =
    plan_eq a.plan b.plan
    && (a.plan_digest == b.plan_digest
        && (a.operation_id == b.operation_id && a.idempotency_key == b.idempotency_key))

risk_eq_iff : (a b : EffectRisk) → (risk_eq a b ≡ true) ↔ (a ≡ b)
risk_eq_iff a b = ground arith

revision_eq_iff : (a b : Option ℕ) → (revision_eq a b ≡ true) ↔ (a ≡ b)
revision_eq_iff a b = ground arith

texts_eq_iff : (a b : List String) → (texts_eq a b ≡ true) ↔ (a ≡ b)
unfolding texts_eq
texts_eq_iff [] [] = ground arith
texts_eq_iff [] (t ∷ ts) = ground arith
texts_eq_iff (s ∷ ss) [] = ground arith
texts_eq_iff (s ∷ ss) (t ∷ ts) = ground (arith, eq_iff s t, texts_eq_iff ss ts)

pub plan_eq_iff : (a b : EffectPlan) → (plan_eq a b ≡ true) ↔ (a ≡ b)
unfolding plan_eq
plan_eq_iff a b = ground (
  arith,
  eq_iff a.format b.format,
  eq_iff a.service b.service,
  eq_iff a.operation b.operation,
  eq_iff a.input_digest b.input_digest,
  option_eq_iff a.input_reference b.input_reference,
  eq_iff a.binding_digest b.binding_digest,
  eq_iff a.resource_revision b.resource_revision,
  eq_iff a.authority_reference b.authority_reference,
  option_eq_iff a.grant_reference b.grant_reference,
  revision_eq_iff a.grant_revision b.grant_revision,
  risk_eq_iff a.risk b.risk,
  texts_eq_iff a.consequences b.consequences,
)

pub prepared_eq_iff : (a b : PreparedEffect) → (prepared_eq a b ≡ true) ↔ (a ≡ b)
unfolding prepared_eq
prepared_eq_iff a b = ground (
  arith,
  plan_eq_iff a.plan b.plan,
  eq_iff a.plan_digest b.plan_digest,
  eq_iff a.operation_id b.operation_id,
  eq_iff a.idempotency_key b.idempotency_key,
)
