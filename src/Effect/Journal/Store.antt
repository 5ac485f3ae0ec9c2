-- ===== src/Effect/Journal/Store.antt =====
-- What the journal keeps, and the durable event log that it stands on.
use service_sdk.Base.{ℕ, String, Bool, Option, List}
use service_sdk.Base.Result.{Result}
use service_sdk.Base.Action.{Action}
use service_sdk.Codec.{DurableStream}
use service_sdk.Effect.Plan.{PreparedEffect}

pub record EffectClaim : Type 0 where
  pub lease_id : String
  pub worker : String
  pub expires_at : String

pub data EffectOutcome : Type 0 where
  succeeded : String → String → EffectOutcome
  refused failed unknown : String → EffectOutcome

pub data EffectState : Type 0 where
  prepared : EffectState
  claimed : EffectClaim → EffectState
  completed : EffectOutcome → EffectState

pub record EffectRecord : Type 0 where
  pub prepared : PreparedEffect
  pub state : EffectState
  pub revision : ℕ

pub data ClaimDisposition : Type 0 where
  acquired busy terminal : EffectRecord → ClaimDisposition

-- The errors of the event log that the journal makes or passes on. `out_of_fuel` is the model's
-- own: the loop of `load_effect` met its bound.
pub data EventLogError : Type 0 where
  idempotency_mismatch : String → EventLogError
  conflict : ℕ → ℕ → EventLogError
  not_found : EventLogError
  invalid backend : String → EventLogError
  out_of_fuel : EventLogError

pub data Expected : Type 0 where
  no_stream : Expected
  exact : ℕ → Expected

pub record NewEvent (V : Type 0) : Type 0 where
  pub name : String
  pub schema_version : ℕ
  pub body : V

pub record RecordedEvent (V : Type 0) : Type 0 where
  pub version : ℕ
  pub name : String
  pub redacted : Bool
  pub body : V

pub record Slice (V : Type 0) : Type 0 where
  pub events : List (RecordedEvent V)
  pub end_of_stream : Bool
  pub next_version : ℕ

-- `CommandMeta`; its causation and claim are absent in every append of the journal.
pub record CommandMeta : Type 0 where
  pub idempotency_key : String
  pub request_hash : String
  pub subject : String
  pub actor : String
  pub request_id : String
  pub trace_id : String
  pub occurred_at : ℕ

-- Third-party code: the event log `eventlog_core` over a state `W`, JSON values `V` with their
-- serde conversions, and the RFC 3339 parser, which gives a place on the time line.
pub record Durable (W V : Type 0) : Type 0 where
  pub new_stream : String → String → String → Result EventLogError DurableStream
  pub new_event : String → ℕ → V → Result EventLogError (NewEvent V)
  pub request_hash : V → Result EventLogError String
  pub now_utc : W → ℕ
  pub read_stream : DurableStream → ℕ → ℕ → Action W EventLogError (Slice V)
  pub append :
      DurableStream → Expected → NewEvent V → CommandMeta → Action W EventLogError (Unit {0})
  pub parse_instant : String → Option ℕ
  pub of_prepared : PreparedEffect → Option V
  pub to_prepared : V → Option PreparedEffect
  pub of_claim : EffectClaim → Option V
  pub to_claim : V → Option EffectClaim
  pub of_outcome : EffectOutcome → Option V
  pub to_outcome : V → Option EffectOutcome
