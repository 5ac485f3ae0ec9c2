-- ===== src/Engine/Ports.antt =====
-- crates/service-engine/src/lib.rs: the resource ports that the engine calls, and the records that
-- pass through them.
use service_sdk.Base.{arith, ◌≡◌, ℕ, String, Bool, Option, List}
use service_sdk.Base.Bytes.{Bytes}
use service_sdk.Base.Maps.{Map}
use service_sdk.Base.Result.{Result, ok, err, map_err}
use service_sdk.Base.Action.{Action}
use service_sdk.Runtime.Auth.{VerifiedAuthContext}
use service_sdk.Engine.{DomainEvent, LoadedStream, ProjectionState, ExecutionError, resource_error}

pub data ResourceError : Type 0 where
  refused : ResourceError

pub record ServiceStream : Type 0 where
  pub service : String
  pub tenant : String
  pub realm : Option String
  pub category : String
  pub key : String

pub data AppendExpectation : Type 0 where
  no_stream : AppendExpectation
  exact : ℕ → AppendExpectation

pub record AppendMetadata : Type 0 where
  pub subject : String
  pub actor : String
  pub request_id : String
  pub trace_id : String
  pub occurred_at : String

pub record IntentClaimRequest : Type 0 where
  pub tenant : String
  pub service : String
  pub realm : Option String
  pub category : String
  pub stream_key : Option String
  pub key : String
  pub digest : String

pub record AppendRequest (V : Type 0) : Type 0 where
  pub stream : ServiceStream
  pub expected : AppendExpectation
  pub idempotency_key : String
  pub claim : IntentClaimRequest
  pub events : List (DomainEvent V)
  pub metadata : AppendMetadata

pub data AppendDisposition : Type 0 where
  committed replayed : AppendDisposition

pub record AppendReceipt (V : Type 0) : Type 0 where
  pub disposition : AppendDisposition
  pub through_version : ℕ
  pub stream : ServiceStream
  pub events : List (DomainEvent V)

pub record RecordedIntent (V : Type 0) : Type 0 where
  pub stream : ServiceStream
  pub events : List (DomainEvent V)
  pub through_version : ℕ

pub record ProjectionRow (V : Type 0) : Type 0 where
  pub view : String
  pub tenant : String
  pub realm : Option String
  pub source_stream : Option ServiceStream
  pub value : Map V

pub record ProjectionWrite (V : Type 0) : Type 0 where
  pub stream : ServiceStream
  pub through_version : ℕ
  pub rows : List (ProjectionRow V)

pub record ProjectionRead (V : Type 0) : Type 0 where
  pub view : String
  pub tenant : String
  pub realm : Option String
  pub selectors : Map V

pub record StagedContent : Type 0 where
  pub reference : String
  pub token : String

pub record ContentPayload : Type 0 where
  pub media_type : String
  pub bytes : Bytes

pub data AuthorityCheck (V : Type 0) : Type 0 where
  owner_and_scopes : V → V → AuthorityCheck V
  requested_scopes : V → AuthorityCheck V
  owner_transfer : V → AuthorityCheck V
  capability : String → AuthorityCheck V

-- `ServiceResources`: the operations of its six ports, on one state `W` of all of them.
pub record ServiceResources (W V : Type 0) : Type 0 where
  pub recorded_intent : IntentClaimRequest → Action W ResourceError (Option (RecordedIntent V))
  pub authorization_state : ServiceStream → Action W ResourceError (ProjectionState V)
  pub load : ServiceStream → Action W ResourceError (LoadedStream V)
  pub append : AppendRequest V → Action W ResourceError (AppendReceipt V)
  pub project : ProjectionWrite V → Action W ResourceError (Unit {0})
  pub query : ProjectionRead V → Action W ResourceError (List (ProjectionRow V))
  pub stage :
      VerifiedAuthContext → String → String → ContentPayload → Action W ResourceError StagedContent
  pub accept : VerifiedAuthContext → String → Action W ResourceError (Unit {0})
  pub abandon : VerifiedAuthContext → String → Action W ResourceError (Unit {0})
  pub allowed : VerifiedAuthContext → AuthorityCheck V → Action W ResourceError Bool
  pub now : Action W ResourceError String
  pub uuid_v7 : Action W ResourceError String

-- `?` on the result of a port.
abbrev pub port : {W A : Type 0} → Action W ResourceError A → Action W ExecutionError A
port m w = let (r, w') = m w in (map_err (λ _. resource_error) r, w')

pub record RequestMetadata : Type 0 where
  pub request_id : Option String

pub record IntentResult (V : Type 0) : Type 0 where
  pub outcome : String
  pub events : List (DomainEvent V)
  pub through_version : ℕ
  pub was_replayed : Bool

pub port-eq-ok :
    {W A : Type 0} (m : Action W ResourceError A) (w w' : W) (a : A)
    → ◌≡◌ {A = Result ExecutionError A × W} (port m w) (ok a, w')
    → ◌≡◌ {A = Result ResourceError A × W} (m w) (ok a, w')
port-eq-ok {W = W} {A = A} m w w' a h = go (m w) h
  where
    go :
        (p : Result ResourceError A × W)
        → ◌≡◌ {A = Result ExecutionError A × W} (map_err (λ _. resource_error) p.0, p.1) (ok a, w')
        → p ≡ (ok a, w')
    go (ok b, v) h = ground arith
    go (err e, v) h = absurd (ground arith)
