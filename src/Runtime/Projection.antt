-- ===== src/Runtime/Projection.antt =====
-- crates/service-runtime/src/projection.rs: projection delivery.
use service_sdk.Base.{List}
use service_sdk.Base.Action.{Action, pure, ◌>>=◌, ◌>>◌}
use service_sdk.Runtime.Auth.{VerifiedAuthContext}
use service_sdk.Runtime.Stream.{StreamId, StreamVersion}
use service_sdk.Runtime.History.{EventEnvelope}

pub data ProjectionDelivery : Type 0 where
  read_your_writes eventual : ProjectionDelivery

pub record ProjectionTarget : Type 0 where
  pub stream : StreamId
  pub through : StreamVersion

pub data ProjectionVisibility : Type 0 where
  scheduled visible : ProjectionVisibility

pub record ProjectionOutcome : Type 0 where
  pub target : ProjectionTarget
  pub visibility : ProjectionVisibility

-- The port `ProjectionSink<S, E>`: `P` is the sink's own state and `Y` its error.
pub record ProjectionSink (P Y S E : Type 0) : Type 0 where
  pub project :
      VerifiedAuthContext → ProjectionTarget → S → List (EventEnvelope E) → Action P Y (Unit {0})
  pub wait_until_visible : ProjectionTarget → Action P Y (Unit {0})

module _ {P Y S E : Type 0} (sink : ProjectionSink P Y S E) where
  pub establish : ProjectionDelivery → ProjectionTarget → Action P Y ProjectionVisibility
  establish read_your_writes target = do sink.wait_until_visible target; pure visible
  establish eventual target = pure scheduled

  unfoldable pub deliver :
      VerifiedAuthContext
      → ProjectionDelivery
      → ProjectionTarget
      → S
      → List (EventEnvelope E)
      → Action P Y ProjectionOutcome
  unfolding establish
  deliver context delivery target state events = do
    sink.project context target state events
    visibility ← establish delivery target
    pure (record { target = target; visibility = visibility })
