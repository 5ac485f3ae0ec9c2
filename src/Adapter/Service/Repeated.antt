-- ===== src/Adapter/Service/Repeated.antt =====
-- The repetition of an intent on the event log: crates/service-eventlog/src/lib.rs,
-- `EventlogService::intent`.
use service_sdk.Base.{ℕ, ◌≤◌, ◌<◌, Bool, none, List}
use service_sdk.Base.Bytes.{Bytes}
use service_sdk.Base.Result.{Result}
use service_sdk.Base.Action.{Action}
use service_sdk.Codec.{DurableStream}
use service_sdk.Effect.Journal.Load.{page}
use service_sdk.Engine.{Json}
use service_sdk.Engine.Ports.{ServiceResources}
use service_sdk.Engine.Plans.{ServicePlan}
use service_sdk.Adapter.{AuthorityFacts, RecordedEvent}
use service_sdk.Adapter.Store.{DurableEventStore, Serde}
use service_sdk.Adapter.Reads.{IsReadable}
use service_sdk.Adapter.Events.Retry.{KeepsClaims}
use service_sdk.Adapter.Projections.{Session}
use service_sdk.Adapter.Service.{System, resources}
use service_sdk.Adapter.Events.Given.{AppendsGiven}

module _ {W V : Type 0} (json : Json V) (serde : Serde V) (json_equal : V → V → Bool)
    (sha256 : Bytes → Bytes) (max_events max_read fuel : ℕ) (system : System W)
    (store : DurableEventStore W V) (service : ServicePlan)
    (content : W → DurableStream → List (RecordedEvent V))
    (readable : IsReadable store max_read content) (large : page ≤ max_read)
    (enough : max_events < fuel) (keeps : KeepsClaims store content)
    (appends : AppendsGiven json serde store) (facts : AuthorityFacts) where
  abbrev pub ports : ServiceResources (Session W) V
  ports =
      resources json serde json_equal sha256 max_events max_read fuel system store service facts
        none
