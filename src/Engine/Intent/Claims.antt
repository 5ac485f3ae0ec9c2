-- ===== src/Engine/Intent/Claims.antt =====
-- The claim of an intent: crates/service-engine/src/lib.rs, `intent`.
use service_sdk.Base.{ℕ, String, ◌≡◌, ap, subst, ◌∙◌, Option, none, some, arith}
use service_sdk.Base.Bytes.{Bytes}
use service_sdk.Base.Bytes.Hex.{hex}
use service_sdk.Base.Maps.{Map, get}
use service_sdk.Base.Result.{ok, ok_or, >>=-eq-ok, ok_or-eq-ok}
use service_sdk.Runtime.Auth.{VerifiedAuthContext}
use service_sdk.Engine.{Json, scalar_string}
use service_sdk.Engine.Ports.{IntentClaimRequest, ServiceResources, RequestMetadata}
use service_sdk.Engine.Plans.{StreamPlan, command_field, generated_uuid_v7, IntentPlan, ServicePlan}
use service_sdk.Engine.Inputs.{command_inputs, idempotency}
use service_sdk.Engine.Graph.Materialize.{Snapshots}
use service_sdk.Engine.Claim.{IntentCodec, category, command_key, claimed_key, intent_claim}
use service_sdk.Engine.Intent.Stream.{command_key-ok}

module _ {W V : Type 0} (json : Json V) (snapshots : Snapshots V) (instant : String → Option ℕ)
    (codec : IntentCodec V) (resources : ServiceResources W V) (service : ServicePlan)
    (context : VerifiedAuthContext) where
  -- The claim is made in the caller's partition of the service.
  pub record IsOwn (claim : IntentClaimRequest) : Type 0 where
    pub same_service : claim.service ≡ service.service
    pub same_tenant : claim.tenant ≡ context.tenant
    pub same_realm : claim.realm ≡ context.realm

  -- The key that a claim names: the scalar in the plan's field of the command, or none.
  abbrev pub ClaimsKey : StreamPlan → Map V → Option String → Type 0
  ClaimsKey (command_field field) command found =
      (key : String) × (found ≡ some key)
      × (value : V) × (get field command ≡ some value)
      × (scalar_string json value field ≡ ok key)
  ClaimsKey generated_uuid_v7 command found = found ≡ none

  -- The claim of the operation on the decoded body: in the caller's partition, under the caller's
  -- key, with the digest of the plan, the operation, the body, the key and the caller.
  pub record OwnClaim (metadata : RequestMetadata) (plan : IntentPlan) (operation : String)
      (decoded : Map V) (claim : IntentClaimRequest) : Type 0 where
    pub partition : IsOwn claim
    pub same_category : claim.category ≡ category plan.obligations
    pub own_key : idempotency json plan.idempotency decoded metadata ≡ ok claim.key
    pub own_stream : ClaimsKey plan.stream (command_inputs plan.inputs decoded) claim.stream_key
    pub plan_bytes : Bytes
    pub own_plan : codec.plan_bytes service ≡ some plan_bytes
    pub intent_bytes : Bytes
    pub own_intent :
        codec.intent_bytes (hex (snapshots.sha256 plan_bytes)) operation decoded claim.key context
        ≡ some intent_bytes
    pub own_digest : claim.digest ≡ hex (snapshots.sha256 intent_bytes)

  pub claim-IsOwn :
      (plan : IntentPlan) (operation : String) (decoded : Map V) (key : String)
      (stream_key : Option String) (claim : IntentClaimRequest)
      → intent_claim snapshots codec service context plan operation decoded key stream_key
        ≡ ok claim
      → IsOwn claim
  unfolding intent_claim
  claim-IsOwn plan operation decoded key stream_key claim h =
      let (plan_bytes, h1, k1) = >>=-eq-ok (ok_or (codec.plan_bytes service) _) _ h in
      let (intent_bytes, h2, k2) =
        >>=-eq-ok
          (ok_or
            (codec.intent_bytes (hex (snapshots.sha256 plan_bytes)) operation decoded key context)
            _)
          _ k1 in
      record { same_service = ground arith; same_tenant = ground arith; same_realm = ground arith }

  claimed_key-ClaimsKey :
      (plan : StreamPlan) (command : Map V) (found : Option String)
      → claimed_key json plan command ≡ ok found
      → ClaimsKey plan command found
  unfolding claimed_key
  claimed_key-ClaimsKey (command_field field) command found h =
      let (key, e, k) = >>=-eq-ok (command_key json field command) _ h in
      let (value, stored, scalar) = command_key-ok json resources field command key e in
      (key, ground arith, value, stored, scalar)
  claimed_key-ClaimsKey generated_uuid_v7 command found h = ground arith

  pub claim-OwnClaim :
      (metadata : RequestMetadata) (plan : IntentPlan) (operation : String) (decoded : Map V)
      (key : String) (stream_key : Option String) (claim : IntentClaimRequest)
      → idempotency json plan.idempotency decoded metadata ≡ ok key
      → claimed_key json plan.stream (command_inputs plan.inputs decoded) ≡ ok stream_key
      → intent_claim snapshots codec service context plan operation decoded key stream_key
        ≡ ok claim
      → OwnClaim metadata plan operation decoded claim
  unfolding intent_claim
  claim-OwnClaim metadata plan operation decoded key stream_key claim own named h =
      let (plan_bytes, h1, k1) = >>=-eq-ok (ok_or (codec.plan_bytes service) _) _ h in
      let (intent_bytes, h2, k2) =
        >>=-eq-ok
          (ok_or
            (codec.intent_bytes (hex (snapshots.sha256 plan_bytes)) operation decoded key context)
            _)
          _ k1 in
      let same_key : key ≡ claim.key = ground arith in
      let same_stream : stream_key ≡ claim.stream_key = ground arith in
      record {
        partition = claim-IsOwn plan operation decoded key stream_key claim h;
        same_category = ground arith;
        own_key = own ∙ ap ok same_key;
        own_stream =
            subst (λ x. ClaimsKey plan.stream (command_inputs plan.inputs decoded) x) same_stream
              (claimed_key-ClaimsKey plan.stream (command_inputs plan.inputs decoded) stream_key
                named);
        plan_bytes = plan_bytes;
        own_plan = ok_or-eq-ok (codec.plan_bytes service) _ h1;
        intent_bytes = intent_bytes;
        own_intent =
            subst
              (λ x.
                codec.intent_bytes (hex (snapshots.sha256 plan_bytes)) operation decoded x context
                ≡ some intent_bytes)
              same_key (ok_or-eq-ok _ _ h2);
        own_digest = ground arith;
      }
