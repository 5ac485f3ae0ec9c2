-- ===== src/Tests/Adapter.antt =====
-- Stored batches and verified facts at concrete values: crates/service-eventlog/src/lib.rs.
use service_sdk.Base.{String, false, some, [], ◌∷◌, ◌++◌, ◌≡◌, refl}
use service_sdk.Base.Decimal.{parse_u64}
use service_sdk.Base.Text.{split_once, rsplit_once}
use service_sdk.Base.Maps.{get, contains}
use service_sdk.Base.Result.{ok}
use service_sdk.Codec.{decode_framed, decode_stream_id}
use service_sdk.Engine.{ProjectionState}
use service_sdk.Engine.Ports.{IntentClaimRequest, RecordedIntent}
use service_sdk.Engine.Obligations.{ObligationUse, binding, bound_entity, bound_value}
use service_sdk.Engine.Obligations.Authorization.{
  owner_check, authority_check, require_authority, run_intent_authorization,
}
use service_sdk.Adapter.{
  RecordedEvent, stream_type_of, counted, misplaced, foreign, domain_events, recorded_intent,
  AuthorityFacts, axis_allowed, scopes_allowed, verified_allows,
}
use service_sdk.Adapter.Recorded.{Answers, recorded_intent-Answers}
use service_sdk.Adapter.Authority.{verified, OwnerVerified, run_intent_authorization-OwnerVerified}
use service_sdk.Tests.Service.{Value, text, object_of, json, context, resources}

abbrev pub claim : IntentClaimRequest
claim = record {
  tenant = "acme";
  service = "tasks";
  realm = some "eu";
  category = "aggregate";
  stream_key = some "t1";
  key = "r1";
  digest = "02";
}

abbrev pub stored : RecordedEvent Value
stored = record {
  tenant = "acme";
  stream_type = "generated-service:tasks";
  stream_id = "1:2:eu|9:aggregate|2:t1";
  version = 4;
  schema_version = 1;
  is_redacted = false;
  name = "closed";
  body = object_of (("task_id", "t1") ∷ []);
  event_id = "e4";
  occurred_at = 0;
  subject = "alice";
  actor = "alice";
}

abbrev recorded : RecordedIntent Value
recorded = record {
  stream = record {
    service = "tasks";
    tenant = "acme";
    realm = some "eu";
    category = "aggregate";
    key = "t1";
  };
  events = record { name = "closed"; fields = ("task_id", text "t1") ∷ [] } ∷ [];
  through_version = 4;
}

answers : recorded_intent json 10 claim (stored ∷ []) 4 4 ≡ ok recorded
unfolding recorded_intent misplaced foreign domain_events counted stream_type_of decode_stream_id
    decode_framed split_once parse_u64
answers = refl

recorded_intent-Answers_example : Answers json 10 claim (stored ∷ []) 4 4 recorded
recorded_intent-Answers_example =
    recorded_intent-Answers json 10 claim (stored ∷ []) 4 4 recorded answers

abbrev facts : AuthorityFacts
facts = record {
  principals = [];
  teams = "red" ∷ [];
  projects = [];
  extensions = [];
  capabilities = [];
}

abbrev owned : ObligationUse
owned = record {
  provider = "sdk.auth.owner-and-conjunctive-scopes/v1";
  bindings = ("owner", "Order.owner") ∷ ("scopes", "Order.scopes") ∷ [];
}

abbrev orders : String → ProjectionState Value
orders team = record {
  entities =
      (
        "Order",
        (
          "o1",
          record {
            state = "Open";
            fields = ("owner", text "alice") ∷ ("scopes", object_of (("team", team) ∷ [])) ∷ [];
          },
        )
            ∷ [],
      )
      ∷ [];
}

owns :
    run_intent_authorization json
      (verified json resources facts)
      context
      (orders "red")
      []
      ([] ++ (owned ∷ []))
      0
    ≡ (ok tt, 0)
unfolding run_intent_authorization authority_check owner_check require_authority bound_entity
    bound_value binding rsplit_once get contains verified_allows scopes_allowed axis_allowed
owns = refl

other_team : scopes_allowed json facts (object_of (("team", "blue") ∷ [])) ≡ false
unfolding scopes_allowed axis_allowed contains
other_team = refl

run_intent_authorization-OwnerVerified_example :
    OwnerVerified json resources facts context (orders "red") owned
run_intent_authorization-OwnerVerified_example =
    run_intent_authorization-OwnerVerified json resources facts context (orders "red") [] [] []
      owned 0 0 refl owns
