-- ===== src/Engine/Intent/Records.antt =====
-- What the engine relies on in the records of intents that its ports keep:
-- crates/service-engine/src/lib.rs, `intent`.
use service_sdk.Base.{String, ◌≡◌, Option, some}
use service_sdk.Base.Result.{Result, ok}
use service_sdk.Runtime.Auth.{VerifiedAuthContext}
use service_sdk.Engine.{LoadedStream}
use service_sdk.Engine.Ports.{
  ResourceError, ServiceStream, committed, IntentClaimRequest, AppendRequest, AppendReceipt,
  RecordedIntent, ProjectionWrite, ServiceResources,
}

-- The record of a receipt.
abbrev pub recorded_of : {V : Type 0} → AppendReceipt V → RecordedIntent V
recorded_of receipt = record {
  stream = receipt.stream;
  events = receipt.events;
  through_version = receipt.through_version;
}

-- The ports have a record of the claim, and to look for it changes nothing.
abbrev pub Has :
    {W V : Type 0} → ServiceResources W V → IntentClaimRequest → RecordedIntent V → W → Type 0
Has {W = W} {V = V} resources claim recorded w =
    ◌≡◌ {A = Result ResourceError (Option (RecordedIntent V)) × W}
      (resources.recorded_intent claim w) (ok (some recorded), w)

-- What the engine relies on in the ports: an append that is answered as committed has appended the
-- events of the request and recorded them under its claim, and no later step of an intent loses the
-- record.
pub record KeepsIntents {W V : Type 0} (resources : ServiceResources W V) : Type 0 where
  pub appends :
      (request : AppendRequest V) (w w' : W) (receipt : AppendReceipt V)
      → request.claim.tenant ≡ request.stream.tenant
      → ◌≡◌ {A = Result ResourceError (AppendReceipt V) × W}
          (resources.append request w)
          (ok receipt, w')
      → receipt.disposition ≡ committed
      → (receipt.events ≡ request.events) × Has resources request.claim (recorded_of receipt) w'
  pub loads :
      (claim : IntentClaimRequest) (recorded : RecordedIntent V) (stream : ServiceStream)
      (history : LoadedStream V) (w w' : W)
      → ◌≡◌ {A = Result ResourceError (LoadedStream V) × W}
          (resources.load stream w)
          (ok history, w')
      → Has resources claim recorded w
      → Has resources claim recorded w'
  pub projects :
      (claim : IntentClaimRequest) (recorded : RecordedIntent V) (write : ProjectionWrite V)
      (w w' : W)
      → ◌≡◌ {A = Result ResourceError (Unit {0}) × W} (resources.project write w) (ok tt, w')
      → Has resources claim recorded w
      → Has resources claim recorded w'
  pub accepts :
      (claim : IntentClaimRequest) (recorded : RecordedIntent V) (caller : VerifiedAuthContext)
      (token : String) (w w' : W)
      → ◌≡◌ {A = Result ResourceError (Unit {0}) × W} (resources.accept caller token w) (ok tt, w')
      → Has resources claim recorded w
      → Has resources claim recorded w'
