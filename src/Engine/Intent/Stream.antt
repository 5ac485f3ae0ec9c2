-- ===== src/Engine/Intent/Stream.antt =====
-- The stream that an intent decides on: crates/service-engine/src/lib.rs, `decide_intent`.
use service_sdk.Base.{String, ◌≡◌, refl, ap, some, arith}
use service_sdk.Base.Maps.{Map, get}
use service_sdk.Base.Result.{Result, ok, >>=-eq-ok, ok_or-eq-ok}
use service_sdk.Runtime.Auth.{VerifiedAuthContext}
use service_sdk.Engine.{Json, ExecutionError, scalar_string}
use service_sdk.Engine.Ports.{ResourceError, ServiceStream, ServiceResources, port-eq-ok}
use service_sdk.Engine.Plans.{StreamPlan, command_field, generated_uuid_v7, IntentPlan, ServicePlan}
use service_sdk.Engine.Claim.{command_key, decided_key, service_stream, category}

module _ {W V : Type 0} (json : Json V) (resources : ServiceResources W V) where
  -- The key is the one that the plan names: the scalar in a field of the command, or a new identity
  -- that the ports generate between the two worlds.
  abbrev pub Named : StreamPlan → Map V → String → W → W → Type 0
  Named (command_field field) command key w v =
      (v ≡ w)
      × ((value : V) × (get field command ≡ some value) × (scalar_string json value field ≡ ok key))
  Named generated_uuid_v7 command key w v =
      ◌≡◌ {A = Result ResourceError String × W} (resources.uuid_v7 w) (ok key, v)

  pub command_key-ok :
      (field : String) (command : Map V) (key : String)
      → command_key json field command ≡ ok key
      → (value : V) × (get field command ≡ some value) × (scalar_string json value field ≡ ok key)
  unfolding command_key
  command_key-ok field command key h =
      let (value, e, k) = >>=-eq-ok _ _ h in (value, ok_or-eq-ok (get field command) _ e, k)

  pub decided_key-Named :
      (plan : StreamPlan) (command : Map V) (key : String) (w v : W)
      → ◌≡◌ {A = Result ExecutionError String × W}
          (decided_key json resources plan command w)
          (ok key, v)
      → Named plan command key w v
  unfolding decided_key
  decided_key-Named (command_field field) command key w v h =
      (ground arith, command_key-ok field command key (ap (λ p. p.0) h))
  decided_key-Named generated_uuid_v7 command key w v h = port-eq-ok resources.uuid_v7 w v key h

module _ (service : ServicePlan) (context : VerifiedAuthContext) where
  -- The stream lies in the caller's tenant and realm of the service, in the category of the plan,
  -- under the given key.
  pub record IsPlanned (plan : IntentPlan) (key : String) (stream : ServiceStream) : Type 0 where
    pub same_service : stream.service ≡ service.service
    pub same_tenant : stream.tenant ≡ context.tenant
    pub same_realm : stream.realm ≡ context.realm
    pub same_category : stream.category ≡ category plan.obligations
    pub same_key : stream.key ≡ key

  pub service_stream-IsPlanned :
      (plan : IntentPlan) (key : String)
      → IsPlanned plan key (service_stream service context plan key)
  service_stream-IsPlanned plan key = record {
    same_service = refl;
    same_tenant = refl;
    same_realm = refl;
    same_category = refl;
    same_key = refl;
  }
