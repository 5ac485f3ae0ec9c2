-- ===== src/Tests/Journal.antt =====
-- The effect journal on a store in memory: `EventlogEffectJournal` of
-- crates/service-eventlog/src/lib.rs at concrete values.
use service_sdk.Base.{
  ℕ, ◌+◌, String, ◌≡◌, refl, ◌⊎◌, inl, false, Option, none, some, List, [], ◌∷◌, ◌++◌, length,
  arith, if◌then◌else◌, ◌==◌,
}
use service_sdk.Base.Result.{ok, err}
use service_sdk.Codec.{DurableStream, encode_stream_id}
use service_sdk.Effect.Plan.{PreparedEffect}
use service_sdk.Effect.Journal.Store.{
  EffectClaim, EffectOutcome, succeeded, EffectRecord, claimed, prepared, acquired,
  idempotency_mismatch, exact, RecordedEvent, CommandMeta, Durable,
}
use service_sdk.Effect.Journal.Load.{page, fold_event, fold_events, finish, load_effect}
use service_sdk.Effect.Journal.Paging.{IsReadable, slice_of, replay, load_effect-replay}
use service_sdk.Effect.Journal.Operations.{
  effect_stream, claim_effect, answer_claim, validate_claim, reload, effect_meta,
}
use service_sdk.Base.Text.{is_blank}
use service_sdk.Effect.Journal.Decisions.{Claiming, claim_effect-writes}
use service_sdk.Effect.Journal.Answers.{Free, Valid, Answered}
use service_sdk.Effect.Journal.Lifecycle.{IsWritable, Claimed, claim_effect-acquired}
use service_sdk.Tests.Execution.{alice}
use service_sdk.Tests.Plans.{sealed}
use service_sdk.Base.{◌≢◌}
use service_sdk.Effect.Journal.Operations.{prepare}
use service_sdk.Effect.Journal.Prepared.{prepare-held}

-- The stored JSON values.
data Body : Type 0 where
  prepared_body : PreparedEffect → Body
  claim_body : EffectClaim → Body
  outcome_body : EffectOutcome → Body

abbrev prepared_of : Body → Option PreparedEffect
prepared_of (prepared_body p) = some p
prepared_of _ = none

abbrev claim_of : Body → Option EffectClaim
claim_of (claim_body c) = some c
claim_of _ = none

abbrev outcome_of : Body → Option EffectOutcome
outcome_of (outcome_body o) = some o
outcome_of _ = none

abbrev Events : Type 0
Events = List (RecordedEvent Body)

-- The times of the tests are the words "early" and "late".
abbrev instant_of : String → Option ℕ
instant_of t = if t == "early" then some 1 else if t == "late" then some 9 else none

-- A store of one stream that accepts every append.
abbrev memory : Durable Events Body
memory = record {
  new_stream = λ a b c. ok (record { tenant = a; stream_type = b; stream_id = c });
  new_event = λ n v b. ok (record { name = n; schema_version = v; body = b });
  request_hash = λ b. ok "hash";
  now_utc = λ w. 5;
  read_stream = λ s after limit w. (ok (slice_of w after limit), w);
  append = λ s expected e m w. (
    ok tt,
    w ++ (record { version = length w + 1; name = e.name; redacted = false; body = e.body } ∷ []),
  );
  parse_instant = instant_of;
  of_prepared = λ p. some (prepared_body p);
  to_prepared = prepared_of;
  of_claim = λ c. some (claim_body c);
  to_claim = claim_of;
  of_outcome = λ o. some (outcome_body o);
  to_outcome = outcome_of;
}

abbrev content : Events → DurableStream → Events
content w s = w

memory-IsReadable : IsReadable memory content
memory-IsReadable = record { reads = λ w s after limit. refl }

-- The store in memory repeats no command.
abbrev Never : Events → DurableStream → CommandMeta → Type 0
Never w s m = ⊥

memory-IsWritable : IsWritable memory content Never
memory-IsWritable = record {
  appends = λ w w' s expected e m h. inl (ground arith);
  keeps = λ n v b e h. ground arith;
  to_of_claim = λ c b h. ground arith;
}

abbrev ours : EffectClaim
ours = record { lease_id = "l1"; worker = "w1"; expires_at = "late" }

abbrev theirs : EffectClaim
theirs = record { lease_id = "l2"; worker = "w2"; expires_at = "late" }

abbrev event : ℕ → String → Body → RecordedEvent Body
event version name body = record { version = version; name = name; redacted = false; body = body }

abbrev fresh : Events
fresh = event 1 "service_effect_prepared" (prepared_body sealed) ∷ []

abbrev held : Events
held = fresh ++ (event 2 "service_effect_claimed" (claim_body theirs) ∷ [])

abbrev done : EffectOutcome
done = succeeded "r" "d"

abbrev over : Events
over = held ++ (event 3 "service_effect_completed" (outcome_body done) ∷ [])

abbrev stream : DurableStream
stream = record {
  tenant = "acme";
  stream_type = "generated-service-effect:tasks";
  stream_id = encode_stream_id (some "emea") "external-effect" "op";
}

replay-fresh :
    replay memory fresh ≡ ok (some (record { prepared = sealed; state = prepared; revision = 1 }))
unfolding replay fold_events fold_event finish
replay-fresh = refl

replay-held :
    replay memory held
    ≡ ok (some (record { prepared = sealed; state = claimed theirs; revision = 2 }))
unfolding replay fold_events fold_event finish
replay-held = refl

own_stream : effect_stream memory alice "tasks" "op" ≡ ok stream
unfolding effect_stream
own_stream = refl

load_effect-replay_example : load_effect memory 9 stream over ≡ (replay memory over, over)
load_effect-replay_example =
    load_effect-replay memory content memory-IsReadable over stream 9 (omega arith)

abbrev held_record : EffectRecord
held_record = record { prepared = sealed; state = claimed theirs; revision = 2 }

abbrev fresh_record : EffectRecord
fresh_record = record { prepared = sealed; state = prepared; revision = 1 }

claim_effect-writes_example :
    ((claim_effect memory 9 "tasks" alice "op" ours "early" fresh).1 ≡ fresh)
    ⊎ ((c : Claiming memory content memory-IsReadable 9 "tasks" alice fresh stream fresh_record "op"
          own_stream
          (omega arith)
          replay-fresh
          ours
          "early")
        × ((claim_effect memory 9 "tasks" alice "op" ours "early" fresh).1
            ≡ (memory.append stream (exact 1) c.event c.metadata fresh).1))
claim_effect-writes_example =
    claim_effect-writes memory content memory-IsReadable 9 "tasks" alice fresh stream fresh_record
      "op" own_stream (omega arith) replay-fresh ours "early"

abbrev taken : Events
taken = fresh ++ (event 2 "service_effect_claimed" (claim_body ours) ∷ [])

claims :
    claim_effect memory 9 "tasks" alice "op" ours "early" fresh
    ≡ (ok (acquired (record { prepared = sealed; state = claimed ours; revision = 2 })), taken)
unfolding claim_effect effect_stream load_effect fold_events fold_event finish answer_claim
    validate_claim reload page is_blank effect_meta
claims = refl

claim_effect-acquired_example :
    ((taken ≡ fresh)
      × Answered memory fresh_record ours "early"
          (acquired (record { prepared = sealed; state = claimed ours; revision = 2 })))
    ⊎ (Free memory fresh_record ours "early"
        × Valid memory ours "early"
        × Claimed memory content Never memory-IsReadable memory-IsWritable 9 "tasks" alice fresh
            stream fresh_record "op" own_stream
            (omega arith)
            replay-fresh
            ours
            (acquired (record { prepared = sealed; state = claimed ours; revision = 2 }))
            taken)
claim_effect-acquired_example =
    claim_effect-acquired memory content Never memory-IsReadable memory-IsWritable 9 "tasks" alice
      fresh stream fresh_record "op" own_stream (omega arith) replay-fresh ours "early"
      (acquired (record { prepared = sealed; state = claimed ours; revision = 2 })) taken claims

abbrev sealed_stream : DurableStream
sealed_stream = record stream {
  stream_id = encode_stream_id (some "emea") "external-effect" sealed.operation_id;
}

own_sealed : effect_stream memory alice "tasks" sealed.operation_id ≡ ok sealed_stream
unfolding effect_stream
own_sealed = refl

prepare-held_example :
    ((sealed ≡ sealed) × (prepare memory 9 "tasks" alice sealed held ≡ (ok held_record, held)))
    ⊎ ((sealed ≢ sealed)
        × (prepare memory 9 "tasks" alice sealed held
            ≡ (err (idempotency_mismatch sealed.idempotency_key), held)))
prepare-held_example =
    prepare-held memory content memory-IsReadable 9 "tasks" alice held sealed_stream held_record
      sealed own_sealed (omega arith) replay-held
