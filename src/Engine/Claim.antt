-- ===== src/Engine/Claim.antt =====
-- crates/service-engine/src/lib.rs: the claim, the stream and the append request of an intent.
use service_sdk.Base.{String, Option, none, some, List, ◌==◌, find?, bind_option}
use service_sdk.Base.Bytes.{Bytes}
use service_sdk.Base.Bytes.Hex.{hex}
use service_sdk.Base.Maps.{Map, get}
use service_sdk.Base.Result
use service_sdk.Base.Result.{Result, ok, err, ok_or, map_err}
use service_sdk.Base.Action.{Action, lift}
use service_sdk.Runtime.Auth.{VerifiedAuthContext}
use service_sdk.Engine.{
  DomainEvent, Json, ExecutionError, missing_input, invalid_plan, scalar_string,
}
use service_sdk.Engine.Ports.{
  ServiceStream, AppendExpectation, IntentClaimRequest, AppendRequest, ServiceResources, port,
  RequestMetadata,
}
use service_sdk.Engine.Plans.{StreamPlan, command_field, generated_uuid_v7, IntentPlan, ServicePlan}
use service_sdk.Engine.Obligations.{ObligationUse}
use service_sdk.Engine.Graph.Materialize.{Snapshots}

-- `serde_json` on bodies, on the plan and on the fields of a claim: third-party code.
pub record IntentCodec (V : Type 0) : Type 0 where
  pub from_slice : Bytes → Option V
  pub plan_bytes : ServicePlan → Option Bytes
  pub intent_bytes : String → String → Map V → String → VerifiedAuthContext → Option Bytes

abbrev pub string_or : Option String → String → String
string_or none default = default
string_or (some s) default = s

unfoldable pub category : List ObligationUse → String
category obligations =
    string_or
      (bind_option (find? (λ item. item.provider == "sdk.aggregate.event-sourced/v1") obligations)
        (λ item. get "category" item.bindings))
      "aggregate"

module _ {V : Type 0} (json : Json V) where
  unfoldable pub command_key : String → Map V → Result ExecutionError String
  command_key field command =
      Result.◌>>=◌ (ok_or (get field command) (missing_input field))
        (λ value. scalar_string json value field)

  -- The stream key that a claim names.
  unfoldable pub claimed_key : StreamPlan → Map V → Result ExecutionError (Option String)
  claimed_key (command_field field) command =
      Result.◌>>=◌ (command_key field command) (λ key. ok (some key))
  claimed_key generated_uuid_v7 command = ok none

  module _ {W : Type 0} (resources : ServiceResources W V) where
    -- The stream key of a decision.
    unfoldable pub decided_key : StreamPlan → Map V → Action W ExecutionError String
    decided_key (command_field field) command = lift (command_key field command)
    decided_key generated_uuid_v7 command = port resources.uuid_v7

module _ (service : ServicePlan) (context : VerifiedAuthContext) where
  abbrev pub service_stream : IntentPlan → String → ServiceStream
  service_stream plan key = record {
    service = service.service;
    tenant = context.tenant;
    realm = context.realm;
    category = category plan.obligations;
    key = key;
  }

module _ {V : Type 0} (snapshots : Snapshots V) (codec : IntentCodec V) (service : ServicePlan)
    (context : VerifiedAuthContext) where
  unfoldable pub intent_claim :
      IntentPlan
      → String
      → Map V
      → String
      → Option String
      → Result ExecutionError IntentClaimRequest
  intent_claim plan operation decoded key stream_key =
      Result.◌>>=◌ (ok_or (codec.plan_bytes service) (invalid_plan "intent claim plan"))
        (λ plan_bytes.
          Result.◌>>=◌
            (ok_or
              (codec.intent_bytes (hex (snapshots.sha256 plan_bytes)) operation decoded key context)
              (invalid_plan "intent claim input"))
            (λ intent_bytes. ok (record {
              tenant = context.tenant;
              service = service.service;
              realm = context.realm;
              category = category plan.obligations;
              stream_key = stream_key;
              key = key;
              digest = hex (snapshots.sha256 intent_bytes);
            })))

module _ {V : Type 0} (context : VerifiedAuthContext) where
  -- The request that appends a decision.
  abbrev pub append_request :
      RequestMetadata
      → ServiceStream
      → AppendExpectation
      → String
      → IntentClaimRequest
      → List (DomainEvent V)
      → String
      → AppendRequest V
  append_request metadata stream expected key claim events occurred_at = record {
    stream = stream;
    expected = expected;
    idempotency_key = key;
    claim = claim;
    events = events;
    metadata = record {
      subject = context.authority;
      actor = string_or context.executor context.authority;
      request_id = string_or metadata.request_id key;
      trace_id = string_or metadata.request_id key;
      occurred_at = occurred_at;
    };
  }
