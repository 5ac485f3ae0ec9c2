-- ===== src/Engine/Intent/Repeated.antt =====
-- The repetition of an intent: crates/service-engine/src/lib.rs, `intent` behind an `intent` that
-- committed.
use service_sdk.Base.{ℕ, String, true, false, ◌≡◌, refl, sym, ap, ◌∙◌, Option, some}
use service_sdk.Base.Bytes.{Bytes}
use service_sdk.Base.Maps.{Map, get}
use service_sdk.Base.Result.{Result, ok, ok_or, map_err}
use service_sdk.Base.Action.{Action, pure, ◌>>=◌, ◌>>◌, step-ok, lift-ok}
use service_sdk.Runtime.Auth.{VerifiedAuthContext, enforce}
use service_sdk.Engine.{Json, ExecutionError, context_violation, unknown_operation, resource_error}
use service_sdk.Engine.Ports.{
  ServiceStream, AppendExpectation, IntentClaimRequest, RecordedIntent, ServiceResources, port,
  RequestMetadata, IntentResult,
}
use service_sdk.Engine.Plans.{runtime, IntentPlan, ServicePlan}
use service_sdk.Engine.Inputs.{command_inputs, decode_inputs, expected_version, idempotency}
use service_sdk.Engine.Obligations.Authorization.{run_intent_authorization}
use service_sdk.Engine.Graph.Materialize.{Snapshots}
use service_sdk.Engine.Claim.{IntentCodec, claimed_key, intent_claim}
use service_sdk.Engine.Intent.Entered.{intent-Entered}
use service_sdk.Engine.Intent.{replay_intent, intent}
use service_sdk.Engine.Intent.Claims.{claim-IsOwn}
use service_sdk.Engine.Intent.Records.{Has, KeepsIntents}
use service_sdk.Engine.Intent.Kept.{answered-Has}

module _ {W V : Type 0} (json : Json V) (resources : ServiceResources W V)
    (context : VerifiedAuthContext) where
  -- What is left to do for a recorded intent: the authority is asked about the stored state of the
  -- recorded stream, and the earlier answer is given again, as a replay.
  abbrev pub repeated :
      IntentPlan → Map V → ServiceStream → IntentResult V → Action W ExecutionError (IntentResult V)
  repeated plan command stream result = do
    state ← port (resources.authorization_state stream)
    run_intent_authorization json resources context state command plan.obligations
    pure (record result { was_replayed = true })

module _ {W V : Type 0} (json : Json V) (snapshots : Snapshots V) (instant : String → Option ℕ)
    (codec : IntentCodec V) (resources : ServiceResources W V) (service : ServicePlan)
    (context : VerifiedAuthContext) (keeps : KeepsIntents resources) where
  -- An intent whose claim is recorded is the replay of its record.
  intent-found :
      (metadata : RequestMetadata) (operation : String) (body : Bytes) (w : W) (plan : IntentPlan)
      (decoded : Map V) (key : String) (expected : AppendExpectation) (stream_key : Option String)
      (claim : IntentClaimRequest) (recorded : RecordedIntent V) {passed : Unit {0}}
      → map_err context_violation (enforce (runtime service.realm) context) ≡ ok passed
      → get operation service.intents ≡ some plan
      → decode_inputs json codec.from_slice plan.inputs body ≡ ok decoded
      → idempotency json plan.idempotency decoded metadata ≡ ok key
      → expected_version json plan.expected_version decoded ≡ ok expected
      → claimed_key json plan.stream (command_inputs plan.inputs decoded) ≡ ok stream_key
      → intent_claim snapshots codec service context plan operation decoded key stream_key
        ≡ ok claim
      → Has resources claim recorded w
      → ◌≡◌ {A = Result ExecutionError (IntentResult V) × W}
          (intent json resources service context snapshots instant codec metadata operation body w)
          (replay_intent json resources service context plan
            (command_inputs plan.inputs decoded)
            recorded
            w)
  unfolding intent
  intent-found metadata operation body w plan decoded key expected stream_key claim recorded h0 h1
        h2 h3 h4 h5 h6 has =
      lift-ok (map_err context_violation (enforce (runtime service.realm) context)) _ w h0 (
        lift-ok (ok_or (get operation service.intents) (unknown_operation operation)) _ w
          (ap (λ o. ok_or o (unknown_operation operation)) h1)
          (lift-ok (decode_inputs json codec.from_slice plan.inputs body) _ w h2 (
            lift-ok (idempotency json plan.idempotency decoded metadata) _ w h3 (
              lift-ok (expected_version json plan.expected_version decoded) _ w h4 (
                lift-ok (claimed_key json plan.stream (command_inputs plan.inputs decoded)) _ w h5 (
                  lift-ok
                    (intent_claim snapshots codec service context plan operation decoded key
                      stream_key)
                    _ w h6
                    (step-ok (port (resources.recorded_intent claim)) _ w
                      (ap (λ p. (map_err (λ _. resource_error) p.0, p.1)) has) refl)))))))

  -- Over ports that keep intents: when an intent was answered as new, the same intent asked for again
  -- right after it, with the same metadata, operation and body, decides, appends, stages and projects
  -- nothing. It asks the authority about the stored state of the recorded stream and, if every
  -- obligation is granted, answers what was answered before, with the mark of a replay.
  pub intent-repeated :
      (metadata : RequestMetadata) (operation : String) (body : Bytes) (w w' : W)
      (result : IntentResult V)
      → ◌≡◌ {A = Result ExecutionError (IntentResult V) × W}
          (intent json resources service context snapshots instant codec metadata operation body w)
          (ok result, w')
      → result.was_replayed ≡ false
      → (plan : IntentPlan) × (get operation service.intents ≡ some plan)
        × (decoded : Map V) × (decode_inputs json codec.from_slice plan.inputs body ≡ ok decoded)
        × (stream : ServiceStream) × (intent json resources service context snapshots instant codec
              metadata operation body w'
            ≡ repeated json resources context plan
                (command_inputs plan.inputs decoded)
                stream
                result
                w')
  unfolding replay_intent
  intent-repeated metadata operation body w w' result h fresh =
      let e =
        intent-Entered json snapshots instant codec resources service context metadata operation
          body w w' result h in
      let own =
        claim-IsOwn json snapshots instant codec resources service context e.plan operation
          e.decoded e.key e.stream_key e.claim e.own_claim in
      let kept =
        answered-Has json snapshots instant codec resources service context keeps metadata e.plan
          e.decoded e.claim e.found e.looked_in w' result own.same_tenant e.answered fresh in
      let command = command_inputs e.plan.inputs e.decoded in
      (
        e.plan,
        e.own_plan,
        e.decoded,
        e.own_body,
        kept.stream,
        intent-found metadata operation body w' e.plan e.decoded e.key e.expected e.stream_key
              e.claim
              (record {
                stream = kept.stream;
                events = result.events;
                through_version = result.through_version;
              })
              e.realm e.own_plan e.own_body e.own_key e.own_version e.own_stream e.own_claim
              kept.has
            ∙ again e.plan command kept.stream kept.outcome,
      )
    where
      again :
          (plan : IntentPlan) (command : Map V) (stream : ServiceStream)
          → result.outcome ≡ plan.outcome.name
          → replay_intent json resources service context plan command
              (record {
                stream = stream;
                events = result.events;
                through_version = result.through_version;
              })
              w'
            ≡ repeated json resources context plan command stream result w'
      again plan command stream e =
          ap
            (λ name.
              (port (resources.authorization_state stream) >>= λ state.
              run_intent_authorization json resources context state command plan.obligations
              >> pure (record result { outcome = name; was_replayed = true }))
                w')
            (sym e)
