-- ===== src/Engine/Intent/Entered.antt =====
-- The steps that an intent which is answered has passed before its record is looked up:
-- crates/service-engine/src/lib.rs, `intent`.
use service_sdk.Base.{ℕ, String, ◌≡◌, Option, some}
use service_sdk.Base.Bytes.{Bytes}
use service_sdk.Base.Maps.{Map, get}
use service_sdk.Base.Result.{Result, ok, map_err}
use service_sdk.Base.Action.{step-eq-ok, lift-eq-ok, lift-ok_or-eq-ok}
use service_sdk.Runtime.Auth.{VerifiedAuthContext, enforce}
use service_sdk.Engine.{Json, ExecutionError, context_violation}
use service_sdk.Engine.Ports.{
  ResourceError, AppendExpectation, IntentClaimRequest, RecordedIntent, ServiceResources, port,
  port-eq-ok, RequestMetadata, IntentResult,
}
use service_sdk.Engine.Plans.{runtime, IntentPlan, ServicePlan}
use service_sdk.Engine.Inputs.{command_inputs, decode_inputs, expected_version, idempotency}
use service_sdk.Engine.Graph.Materialize.{Snapshots}
use service_sdk.Engine.Claim.{IntentCodec, claimed_key, intent_claim}
use service_sdk.Engine.Intent.{replay_or, decide_once, intent}

module _ {W V : Type 0} (json : Json V) (snapshots : Snapshots V) (instant : String → Option ℕ)
    (codec : IntentCodec V) (resources : ServiceResources W V) (service : ServicePlan)
    (context : VerifiedAuthContext) where
  -- `intent` up to the lookup of a record.
  pub record Entered (metadata : RequestMetadata) (operation : String) (body : Bytes) (w w' : W)
      (result : IntentResult V) : Type 0 where
    pub realm : map_err context_violation (enforce (runtime service.realm) context) ≡ ok tt
    pub plan : IntentPlan
    pub own_plan : get operation service.intents ≡ some plan
    pub decoded : Map V
    pub own_body : decode_inputs json codec.from_slice plan.inputs body ≡ ok decoded
    pub key : String
    pub own_key : idempotency json plan.idempotency decoded metadata ≡ ok key
    pub expected : AppendExpectation
    pub own_version : expected_version json plan.expected_version decoded ≡ ok expected
    pub stream_key : Option String
    pub own_stream :
        claimed_key json plan.stream (command_inputs plan.inputs decoded) ≡ ok stream_key
    pub claim : IntentClaimRequest
    pub own_claim :
        intent_claim snapshots codec service context plan operation decoded key stream_key
        ≡ ok claim
    pub found : Option (RecordedIntent V)
    pub looked_in : W
    pub looked :
        ◌≡◌ {A = Result ResourceError (Option (RecordedIntent V)) × W}
          (resources.recorded_intent claim w)
          (ok found, looked_in)
    pub answered :
        ◌≡◌ {A = Result ExecutionError (IntentResult V) × W}
          (replay_or json resources service context plan
            (command_inputs plan.inputs decoded)
            found
            (decide_once json resources service context snapshots instant metadata plan decoded
              (command_inputs plan.inputs decoded)
              claim)
            looked_in)
          (ok result, w')

  pub intent-Entered :
      (metadata : RequestMetadata) (operation : String) (body : Bytes) (w w' : W)
      (result : IntentResult V)
      → ◌≡◌ {A = Result ExecutionError (IntentResult V) × W}
          (intent json resources service context snapshots instant codec metadata operation body w)
          (ok result, w')
      → Entered metadata operation body w w' result
  unfolding intent
  intent-Entered metadata operation body w w' result h =
      let (_, h0, k0) =
        lift-eq-ok (map_err context_violation (enforce (runtime service.realm) context)) _ w h in
      let (plan, h1, k1) = lift-ok_or-eq-ok (get operation service.intents) _ _ w k0 in
      let (decoded, h2, k2) =
        lift-eq-ok (decode_inputs json codec.from_slice plan.inputs body) _ w k1 in
      let command = command_inputs plan.inputs decoded in
      let (key, h3, k3) = lift-eq-ok (idempotency json plan.idempotency decoded metadata) _ w k2 in
      let (expected, h4, k4) =
        lift-eq-ok (expected_version json plan.expected_version decoded) _ w k3 in
      let (stream_key, h5, k5) = lift-eq-ok (claimed_key json plan.stream command) _ w k4 in
      let (claim, h6, k6) =
        lift-eq-ok
          (intent_claim snapshots codec service context plan operation decoded key stream_key) _ w
          k5 in
      let (found, v, h7, k7) = step-eq-ok (port (resources.recorded_intent claim)) _ w k6 in
      record {
        realm = h0;
        plan = plan;
        own_plan = h1;
        decoded = decoded;
        own_body = h2;
        key = key;
        own_key = h3;
        expected = expected;
        own_version = h4;
        stream_key = stream_key;
        own_stream = h5;
        claim = claim;
        own_claim = h6;
        found = found;
        looked_in = v;
        looked = port-eq-ok (resources.recorded_intent claim) w v found h7;
        answered = k7;
      }
