-- ===== src/Tests/Plans.antt =====
-- A plan for an external effect, sealed and recovered: crates/service-runtime/src/effect.rs at
-- concrete values.
use Prim.Native.String.{◌++◌}
use service_sdk.Base.{
  ℕ, ◌+◌, String, ◌≡◌, ◌⊎◌, refl, sym, ◌∙◌, if◌then◌else◌, Option, none, some, [], ◌∷◌, arith,
}
use service_sdk.Effect.Plan.Equality.{plan_eq, texts_eq, plan_eq_iff}
use service_sdk.Base.Bytes.{Bytes, as_bytes, frame, to_be_bytes}
use service_sdk.Base.Bytes.Hex.{hex}
use service_sdk.Base.Bytes.Digest.{digest, Collision}
use service_sdk.Base.Text.{is_blank}
use service_sdk.Base.Result.{ok, err}
use service_sdk.Effect.Plan.{
  EffectPlan, PreparedEffect, low, Sealing, is_sha256, validate, prepare, plan_parts,
  operation_parts, EffectPlanError,
}
use service_sdk.Effect.Plan.Identity.{IsAddressable, operation_id_inj}
use service_sdk.Effect.Journal.Store.{EffectOutcome, EffectClaim, prepared}
use service_sdk.Effect.Resume.{
  EffectJournal, EffectAdapter, World, resume_effect, resume_effect-dispatch, not_observed,
}
use service_sdk.Tests.Execution.{alice}
use service_sdk.Tests.Streams.{low_bytes, low_bytes-IsBytes}

abbrev zeros : String
zeros = "0000000000000000000000000000000000000000000000000000000000000000"

abbrev pub restart : EffectPlan
restart = record {
  format = "service-effect-plan/1";
  service = "tasks";
  operation = "restart";
  input_digest = zeros;
  input_reference = none;
  binding_digest = "sha256:" ++ zeros;
  aggregate_version = 3;
  resource_revision = "r1";
  authority_reference = "alice";
  grant_reference = some "g";
  grant_revision = some 1;
  risk = low;
  consequences = "restarts the host" ∷ [];
}

-- An encoder that knows one plan.
abbrev encode_restart : EffectPlan → Option Bytes
encode_restart plan = if plan_eq plan restart then some (as_bytes "restart") else none

-- A stand-in for the encoder and for SHA-256.
abbrev sealing : Sealing
sealing = record { to_vec = encode_restart; sha256 = low_bytes }

encode_restart-known :
    (plan : EffectPlan) (bytes : Bytes) → encode_restart plan ≡ some bytes → plan ≡ restart
encode_restart-known plan bytes h = ground (arith, plan_eq_iff plan restart)

encode_restart_inj :
    (a b : EffectPlan) (bytes : Bytes)
    → encode_restart a ≡ some bytes
    → encode_restart b ≡ some bytes
    → a ≡ b
encode_restart_inj a b bytes h k =
    encode_restart-known a bytes h ∙ sym (encode_restart-known b bytes k)

encodes : encode_restart restart ≡ some (as_bytes "restart")
unfolding plan_eq texts_eq
encodes = refl

abbrev pub sealed : PreparedEffect
sealed = record {
  plan = restart;
  plan_digest = "sha256:" ++ digest low_bytes (plan_parts sealing (as_bytes "restart"));
  operation_id =
      "effect:sha256:"
      ++ digest low_bytes (operation_parts sealing restart "k" (as_bytes "restart"));
  idempotency_key = "k";
}

seals : prepare sealing restart "k" ≡ ok sealed
unfolding prepare validate is_sha256 is_blank plan_eq texts_eq
seals = refl

refused_test :
    prepare sealing (record restart { grant_revision = none }) "k" ≡ err EffectPlanError.grant_pair
unfolding prepare validate is_sha256 is_blank
refused_test = refl

addressable : IsAddressable sealing low_bytes-IsBytes restart "k" (as_bytes "restart")
unfolding as_bytes digest hex frame to_be_bytes
addressable = (
  (omega arith, (omega arith, (omega arith, (omega arith, tt)))),
  (omega arith, (omega arith, tt)),
)

operation_id_inj_example :
    (((restart ≡ restart) × (◌≡◌ {A = String} "k" "k"))
      ⊎ Collision low_bytes
          (operation_parts sealing restart "k" (as_bytes "restart"))
          (operation_parts sealing restart "k" (as_bytes "restart"))
      ⊎ Collision low_bytes
          (plan_parts sealing (as_bytes "restart"))
          (plan_parts sealing (as_bytes "restart")))
operation_id_inj_example =
    operation_id_inj sealing low_bytes-IsBytes restart restart "k" "k" (as_bytes "restart")
      (as_bytes "restart") sealed sealed seals seals encodes encodes addressable addressable
      encode_restart_inj refl

-- A journal that keeps the last outcome, and a downstream service that counts dispatches.
abbrev last_outcome : EffectJournal (Option EffectOutcome) String
last_outcome = record {
  prepare = λ c effect j. (err "unused", j);
  claim = λ c id claim now j. (err "unused", j);
  complete = λ c id lease outcome j.
      (ok (record { prepared = sealed; state = prepared; revision = 3 }), some outcome);
}

abbrev counting : EffectAdapter ℕ
counting = record {
  observe = λ effect d. (ok not_observed, d);
  dispatch = λ effect d. (err (record { code = "timeout" }), d + 1);
}

abbrev claim : EffectClaim
claim = record { lease_id = "l1"; worker = "w1"; expires_at = "2026-01-01T00:00:00Z" }

abbrev idle : World (Option EffectOutcome) ℕ
idle = record { journal = none; downstream = 0 }

resume_effect-dispatch_example :
    ((outcome : EffectOutcome) × (((resume_effect last_outcome counting alice sealed claim idle).0
          ≡ (last_outcome.complete alice sealed.operation_id "l1" outcome none).0)
        × ((resume_effect last_outcome counting alice sealed claim idle).1.journal ≡ some outcome)))
    × (((resume_effect last_outcome counting alice sealed claim idle).1.downstream ≡ 0)
        ⊎ ((counting.observe sealed 0).0 ≡ ok not_observed)
          × ((resume_effect last_outcome counting alice sealed claim idle).1.downstream ≡ 1))
resume_effect-dispatch_example =
    resume_effect-dispatch last_outcome counting alice sealed claim idle
