-- ===== src/Effect/Plan.antt =====
-- crates/service-runtime/src/effect.rs: effect plans, their validation and their sealing.
pub mod Valid
pub mod Identity
pub mod Equality
use Prim.Native.Char.{Char, code}
use Prim.Native.String.{◌++◌, len}
use Prim.Native.String
use service_sdk.Base.{
  ℕ, ◌+◌, String, Bool, true, false, not, ◌&&◌, ◌||◌, Option, none, some, List, [], ◌∷◌, ◌==◌, leb,
  eqb, any, is_empty, is_some, if◌then◌else◌,
}
use service_sdk.Base.Text.{is_blank, strip_prefix}
use service_sdk.Base.Bytes.{Bytes, as_bytes}
use service_sdk.Base.Bytes.Digest.{digest}
use service_sdk.Base.Result.{Result, ok, err, ok_or, ◌>>=◌, ◌>>◌}

pub data EffectRisk : Type 0 where
  low medium high destructive : EffectRisk

pub record EffectPlan : Type 0 where
  pub format : String
  pub service : String
  pub operation : String
  pub input_digest : String
  pub input_reference : Option String
  pub binding_digest : String
  pub aggregate_version : ℕ
  pub resource_revision : String
  pub authority_reference : String
  pub grant_reference : Option String
  pub grant_revision : Option ℕ
  pub risk : EffectRisk
  pub consequences : List String

pub record PreparedEffect : Type 0 where
  pub plan : EffectPlan
  pub plan_digest : String
  pub operation_id : String
  pub idempotency_key : String

pub data EffectPlanError : Type 0 where
  format : EffectPlanError
  empty : String → EffectPlanError
  digest_malformed : String → EffectPlanError
  grant_pair consequences encoding : EffectPlanError

abbrev pub effect_plan_format : String
effect_plan_format = "service-effect-plan/1"

-- A lowercase hexadecimal digit. Every other character of UTF-8 has a byte that is none.
abbrev pub is_hex : Char → Bool
is_hex c = (leb b'0' (code c) && leb (code c) b'9') || (leb b'a' (code c) && leb (code c) b'f')

unfoldable pub all_hex : String → Bool
all_hex String.[] = true
all_hex (String.◌∷◌ c s) = is_hex c && all_hex s

unfoldable pub is_sha256 : String → Bool
unfolding all_hex
is_sha256 value =
    let digits : String = elim (strip_prefix "sha256:" value) [ none ↦ value | some rest ↦ rest ] in
    eqb (len digits) 64 && all_hex digits

-- The loop over the coordinates that must not be blank.
abbrev require_named : List (String × String) → Result EffectPlanError (Unit {0})
require_named [] = ok tt
require_named ((name, value) ∷ rest) =
    if is_blank value then err (empty name) else require_named rest

-- The loop over the digests.
abbrev require_digests : List (String × String) → Result EffectPlanError (Unit {0})
require_digests [] = ok tt
require_digests ((name, value) ∷ rest) =
    if not (is_sha256 value) then err (digest_malformed name) else require_digests rest

abbrev same : Bool → Bool → Bool
same true b = b
same false b = not b

unfoldable pub validate : EffectPlan → Result EffectPlanError (Unit {0})
validate plan = do
  if not (plan.format == effect_plan_format) then err EffectPlanError.format else ok tt
  require_named (
      ("service", plan.service)
      ∷ ("operation", plan.operation)
      ∷ ("resource_revision", plan.resource_revision)
      ∷ ("authority_reference", plan.authority_reference)
      ∷ [])
  require_digests
      (("input_digest", plan.input_digest) ∷ ("binding_digest", plan.binding_digest) ∷ [])
  if not (same (is_some plan.grant_reference) (is_some plan.grant_revision))
      then err grant_pair
      else ok tt
  if is_empty plan.consequences || any is_blank plan.consequences
      then err EffectPlanError.consequences
      else ok tt

-- Third-party code: the JSON encoder `serde_json::to_vec`, and SHA-256.
pub record Sealing : Type 0 where
  pub to_vec : EffectPlan → Option Bytes
  pub sha256 : Bytes → Bytes

module _ (sealing : Sealing) where
  open sealing use {to_vec, sha256}

  abbrev pub plan_parts : Bytes → List Bytes
  plan_parts bytes = as_bytes "service-effect-plan-digest/1" ∷ bytes ∷ []

  abbrev pub operation_parts : EffectPlan → String → Bytes → List Bytes
  operation_parts plan idempotency_key bytes =
      as_bytes "service-effect-operation/1"
      ∷ as_bytes plan.service
      ∷ as_bytes idempotency_key
      ∷ as_bytes (digest sha256 (plan_parts bytes))
      ∷ []

  unfoldable pub prepare : EffectPlan → String → Result EffectPlanError PreparedEffect
  prepare plan idempotency_key = do
    validate plan
    if is_blank idempotency_key then err (empty "idempotency_key") else ok tt
    bytes ← ok_or (to_vec plan) encoding
    ok (record {
      plan = plan;
      plan_digest = "sha256:" ++ digest sha256 (plan_parts bytes);
      operation_id = "effect:sha256:" ++ digest sha256 (operation_parts plan idempotency_key bytes);
      idempotency_key = idempotency_key;
    })
