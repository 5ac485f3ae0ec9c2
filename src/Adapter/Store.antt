-- ===== src/Adapter/Store.antt =====
-- crates/service-eventlog/src/lib.rs: the durable event store under the ports of the engine
-- (`eventlog_core::DurableEventStore`, third-party code), with the stream identities made for it.
use service_sdk.Base.{arith, ◌≡◌, ℕ, String, Bool, Option, List}
use service_sdk.Base.Bytes.{Bytes}
use service_sdk.Base.Maps.{Map}
use service_sdk.Base.Result.{Result, ok, err, map_err, ◌>>=◌}
use service_sdk.Base.Action.{Action}
use service_sdk.Codec.{DurableStream, encode_stream_id}
use service_sdk.Effect.Journal.Store.{EventLogError, Expected, NewEvent}
use service_sdk.Engine.{DomainEvent, ProjectionState}
use service_sdk.Engine.Ports.{ResourceError, refused, ServiceStream, ProjectionRow}
use service_sdk.Adapter.{RecordedEvent, stream_type_of}

pub record Slice (V : Type 0) : Type 0 where
  pub events : List (RecordedEvent V)
  pub end_of_stream : Bool
  pub next_version : ℕ

-- `eventlog_core::Claim`
pub record Claim : Type 0 where
  pub scope : String
  pub key : String
  pub digest : String

-- What the store keeps of a claim.
pub record RecordedClaim : Type 0 where
  pub stream : DurableStream
  pub first_version : ℕ
  pub last_version : ℕ

-- `eventlog_core::CommandMeta`; its causation is absent in every append of the engine.
pub record CommandMeta : Type 0 where
  pub idempotency_key : String
  pub request_hash : String
  pub subject : String
  pub actor : String
  pub request_id : String
  pub trace_id : String
  pub occurred_at : ℕ
  pub claim : Option Claim

pub record AppendResult (V : Type 0) : Type 0 where
  pub events : List (RecordedEvent V)
  pub first_version : ℕ
  pub last_version : ℕ
  pub deduplicated : Bool

pub record ProjectionPage (V : Type 0) : Type 0 where
  pub rows : List (String × V)
  pub next_cursor : Option String

-- `DurableEventStore` over a state `W` and JSON values `V`. An instant is a place on the time line.
pub record DurableEventStore (W V : Type 0) : Type 0 where
  pub new_tenant : String → Result EventLogError String
  pub new_stream : String → String → String → Result EventLogError DurableStream
  pub new_event : String → ℕ → V → Result EventLogError (NewEvent V)
  pub new_claim : String → String → String → Result EventLogError Claim
  pub request_hash : V → Result EventLogError String
  pub parse_instant : String → Option ℕ
  pub format_instant : ℕ → Result String String
  pub recorded_claim : String → Claim → Action W EventLogError (Option RecordedClaim)
  pub read_stream : DurableStream → ℕ → ℕ → Action W EventLogError (Slice V)
  pub append :
      DurableStream
      → Expected
      → List (NewEvent V)
      → CommandMeta
      → Action W EventLogError (AppendResult V)
  pub stream_version : DurableStream → Action W EventLogError (Option ℕ)
  pub stream_identity : String → Action W EventLogError String
  pub projection_get : String → String → String → Action W EventLogError (Option V)
  pub projection_list : String → String → String → ℕ → Action W EventLogError (List (String × V))
  pub projection_page :
      String → String → String → Option String → ℕ → Action W EventLogError (ProjectionPage V)
  pub register_inline : String → Action W EventLogError (Unit {0})
  pub put_blob : String → String → Bytes → Action W EventLogError (Unit {0})

-- The conversions by serde between JSON values and the types of the engine.
pub record Serde (V : Type 0) : Type 0 where
  pub object : Map V → V
  pub of_events : List (DomainEvent V) → Option V
  pub of_state : ProjectionState V → Option V
  pub to_state : V → Option (ProjectionState V)
  pub of_row : ProjectionRow V → Option V
  pub to_row : V → Option (ProjectionRow V)

-- `.map_err(|_| ResourceError)`
abbrev pub resource : {W A : Type 0} → Action W EventLogError A → Action W ResourceError A
resource m w = let (r, w') = m w in (map_err (λ _. refused) r, w')

unfoldable pub durable_stream :
    {W V : Type 0} → DurableEventStore W V → ServiceStream → Result EventLogError DurableStream
durable_stream store stream = do
  tenant ← store.new_tenant stream.tenant
  store.new_stream tenant (stream_type_of stream.service)
      (encode_stream_id stream.realm stream.category stream.key)

pub resource-eq-ok :
    {W A : Type 0} (m : Action W EventLogError A) (w w' : W) (a : A)
    → ◌≡◌ {A = Result ResourceError A × W} (resource m w) (ok a, w')
    → ◌≡◌ {A = Result EventLogError A × W} (m w) (ok a, w')
resource-eq-ok {W = W} {A = A} m w w' a h = go (m w) h
  where
    go :
        (p : Result EventLogError A × W)
        → ◌≡◌ {A = Result ResourceError A × W} (map_err (λ _. refused) p.0, p.1) (ok a, w')
        → p ≡ (ok a, w')
    go (ok b, v) h = ground arith
    go (err e, v) h = absurd (ground arith)
