-- ===== src/Tests/Repeated.antt =====
-- An intent asked for twice on a log: crates/service-eventlog/src/lib.rs, `EventlogService`.
use service_sdk.Base.{true, false, none, some, [], ◌∷◌, ◌≡◌, refl}
use service_sdk.Base.Maps.{get, insert, contains}
use service_sdk.Base.Result.{Result, ok}
use service_sdk.Codec.{
  DurableStream, encode_stream_id, encode_realm, decode_stream_id, decode_framed,
}
use service_sdk.Engine.{ExecutionError}
use service_sdk.Engine.Ports.{IntentResult}
use service_sdk.Engine.Plans.{from_input, IntentPlan, ServicePlan}
use service_sdk.Engine.Inputs.{
  require_inputs, command_inputs_into, decode_inputs, expected_version, idempotency_value,
  idempotency,
}
use service_sdk.Engine.Obligations.{binding}
use service_sdk.Engine.Obligations.Authorization.{
  authority_check, require_authority, run_intent_authorization,
}
use service_sdk.Engine.Intent.{replay_intent, intent}
use service_sdk.Engine.Graph.Materialize.{Snapshots}
use service_sdk.Engine.Claim.{IntentCodec, category, command_key, claimed_key, intent_claim}
use service_sdk.Engine.JsonNumber.{null, text, object, end, member}
use service_sdk.Adapter.{
  AuthorityFacts, stream_type_of, counted, misplaced, foreign, domain_events, recorded_intent,
  verified_allows,
}
use service_sdk.Adapter.Store.{durable_stream}
use service_sdk.Adapter.Events.{
  authorization_state, durable_claim, read_batch, checked_page, consecutive, recorded_batch,
  find_recorded,
}
use service_sdk.Adapter.Layout.{for_service, hex_digest}
use service_sdk.Base.Bytes.Hex.{hex}
use service_sdk.Base.Decimal.{decimal, parse_u64}
use service_sdk.Base.Text.{is_blank, split_once}
use service_sdk.Runtime.Auth.{enforce}
use service_sdk.Adapter.Service.{System, resources, service_intent}
use service_sdk.Adapter.Projections.{Session}
use service_sdk.Tests.Service.{close_plan, context, service}
use service_sdk.Tests.Batch.{JsonValue, tree, opened, serde, Batch, log}

abbrev open_plan : IntentPlan
open_plan = record close_plan {
  command = "Open";
  outcome = record {
    name = "opened";
    events =
        record {
          event = "opened";
          fields = record { name = "task_id"; source = from_input "task_id" } ∷ [];
        }
        ∷ [];
  };
}

abbrev opening_service : ServicePlan
opening_service = record service { intents = ("open", open_plan) ∷ [] }

abbrev codec : IntentCodec JsonValue
codec = record {
  from_slice = λ body. some (object (member "task_id" (text "t1") end));
  plan_bytes = λ plan. some (1 ∷ []);
  intent_bytes = λ digest operation decoded key caller. some (2 ∷ []);
}

abbrev snapshots : Snapshots JsonValue
snapshots = record {
  object = λ m. null;
  to_vec = λ nodes edges. some [];
  from_slice = λ bytes. some ([], []);
  sha256 = λ bytes. bytes;
}

abbrev facts : AuthorityFacts
facts = record {
  principals = [];
  teams = [];
  projects = [];
  extensions = [];
  capabilities = "tasks" ∷ [];
}

abbrev system : System Batch
system = record { now = λ w. (ok "5", w); uuid_v7 = λ w. (ok "id", w) }

abbrev durable : DurableStream
durable = record {
  tenant = "acme";
  stream_type = "generated-service:tasks";
  stream_id = "1:2:eu|9:aggregate|2:t1";
}

abbrev before : Session Batch
before = record { log = none; next_cursor = none }

abbrev after : Session Batch
after = record {
  log = some (
    durable,
    record { name = "opened"; schema_version = 1; body = object (member "task_id" (text "t1") end) }
        ∷ [],
  );
  next_cursor = none;
}

abbrev result : IntentResult JsonValue
result = record {
  outcome = "opened";
  events = opened ∷ [];
  through_version = 1;
  was_replayed = false;
}

abbrev run : Session Batch → Result ExecutionError (IntentResult JsonValue) × Session Batch
run w =
    service_intent tree serde (λ a b. true) (λ bytes. bytes) 10 1000 11 system log opening_service
      snapshots (λ t. none) codec context facts (record { request_id = some "r1" }) "open" [] w

-- Asked for again, it is answered from the record.
repeats : run after ≡ (ok (record result { was_replayed = true }), after)
unfolding service_intent resources intent intent_claim claimed_key decode_inputs require_inputs
    enforce hex replay_intent command_key category idempotency idempotency_value expected_version
    is_blank command_inputs_into run_intent_authorization authority_check binding require_authority
    get insert contains for_service hex_digest find_recorded durable_claim recorded_batch read_batch
    checked_page consecutive authorization_state durable_stream stream_type_of encode_stream_id
    encode_realm decimal recorded_intent misplaced foreign domain_events counted decode_stream_id
    decode_framed split_once parse_u64 verified_allows
repeats = refl
