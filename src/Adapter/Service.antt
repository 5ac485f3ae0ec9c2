-- ===== src/Adapter/Service.antt =====
-- crates/service-eventlog/src/lib.rs: `EventlogService`, the resources of the engine on one event
-- log and the operations of a service over them.
pub mod Repeated
use service_sdk.Base.{
  ℕ, String, Bool, false, Option, none, some, List, map, ◌==◌, ◌&&◌, option_eq, bind_option, head?,
  all, is_some, if◌then◌else◌,
}
use service_sdk.Base.Bytes.{Bytes}
use service_sdk.Base.Maps.{Map}
use service_sdk.Base.Result.{ok, map_err}
use service_sdk.Base.Action.{Action, pure, lift, ◌>>=◌}
use service_sdk.Runtime.Auth.{VerifiedAuthContext}
use service_sdk.Effect.Journal.Store.{EventLogError}
use service_sdk.Engine.{Json, ExecutionError, resource_error}
use service_sdk.Engine.Ports.{
  ResourceError, ServiceStream, ServiceResources, RequestMetadata, IntentResult,
}
use service_sdk.Engine.Plans.{ServicePlan}
use service_sdk.Engine.Claim.{IntentCodec}
use service_sdk.Engine.Graph.Materialize.{Snapshots}
use service_sdk.Engine.Intent.{intent}
use service_sdk.Engine.Query.{AuthorizedProjectionRow, query_rows, query}
use service_sdk.Adapter.{AuthorityFacts, verified_allows}
use service_sdk.Adapter.Store.{DurableEventStore, Serde, durable_stream}
use service_sdk.Adapter.Layout.{ProjectionLayout, for_service}
use service_sdk.Adapter.Events.{find_recorded, authorization_state, load, append}
use service_sdk.Adapter.Pages.{PageRequest}
use service_sdk.Adapter.Projections.{Session, on_store, query_projection, project}
use service_sdk.Adapter.Content.{stage, settle_content}

-- `SystemClock` and `UuidV7`: the time of the process and the third-party generator.
pub record System (W : Type 0) : Type 0 where
  pub now : Action W ResourceError String
  pub uuid_v7 : Action W ResourceError String

-- `source_stream.as_ref() == Some(first)`
abbrev pub same_stream : ServiceStream → ServiceStream → Bool
same_stream a b =
    a.service == b.service
    && (a.tenant == b.tenant
        && (option_eq a.realm b.realm && (a.category == b.category && a.key == b.key)))

abbrev pub from_stream : {V : Type 0} → ServiceStream → AuthorizedProjectionRow V → Bool
from_stream first row = elim row.source_stream [
  | none ↦ false
  | some stream ↦ same_stream stream first
]

unfoldable pub single_authorized_stream :
    {V : Type 0} → List (AuthorizedProjectionRow V) → Option ServiceStream
single_authorized_stream rows = bind_option (head? rows) (λ row.
    bind_option row.source_stream
      (λ first. if all (λ other. from_stream first other) rows then some first else none))

pub record QueryPage (V : Type 0) : Type 0 where
  pub items : List (Map V)
  pub through_version : Option ℕ
  pub next_cursor : Option String
  pub partial : Bool

-- `fuel` bounds the rounds of the loops over pages.
module _ {W V : Type 0} (json : Json V) (serde : Serde V) (json_equal : V → V → Bool)
    (sha256 : Bytes → Bytes) (max_events max_read fuel : ℕ) (system : System W)
    (store : DurableEventStore W V) (service : ServicePlan) where
  -- A bounded read of a stream that no service has.
  unfoldable pub readiness : Action W EventLogError (Unit {0})
  readiness = do
    tenant ← lift (store.new_tenant "sdk-host-probe")
    probe ← lift (store.new_stream tenant "sdk-host-probe" "readiness")
    version ← store.stream_version probe
    pure tt

  -- The projector is registered under its name before the service takes requests.
  unfoldable pub initialize : Action W EventLogError ProjectionLayout
  initialize =
      let layout = for_service sha256 service.service in
      store.register_inline layout.projector_name >>= λ registered. pure layout

  -- The six ports, with the page of a paged query, or none.
  unfoldable pub resources : AuthorityFacts → Option PageRequest → ServiceResources (Session W) V
  resources facts request =
      let layout = for_service sha256 service.service in
      record {
        recorded_intent =
            λ claim. on_store (find_recorded json serde store max_events max_read fuel claim);
        authorization_state = λ stream.
            on_store (authorization_state json serde store max_events max_read layout.state stream);
        load = λ stream. on_store (load json serde store max_events max_read fuel stream);
        append = λ request. on_store (append json serde store max_events max_read request);
        project = project serde json_equal sha256 service.service layout.rows store;
        query =
            query_projection serde json_equal sha256 service.service layout.rows store fuel request;
        stage =
            λ context policy key payload. on_store (stage sha256 store context policy key payload);
        accept = settle_content;
        abandon = settle_content;
        allowed = λ context check. pure (verified_allows json facts context check);
        now = on_store system.now;
        uuid_v7 = on_store system.uuid_v7;
      }

  unfoldable pub service_intent :
      Snapshots V
      → (String → Option ℕ)
      → IntentCodec V
      → VerifiedAuthContext
      → AuthorityFacts
      → RequestMetadata
      → String
      → Bytes
      → Action (Session W) ExecutionError (IntentResult V)
  service_intent snapshots instant codec context facts metadata operation body =
      intent json (resources facts none) service context snapshots instant codec metadata operation
        body

  unfoldable pub service_query :
      (Bytes → Option V)
      → VerifiedAuthContext
      → AuthorityFacts
      → String
      → Bytes
      → Action (Session W) ExecutionError (List (Map V))
  service_query from_slice context facts operation body =
      query json json_equal (resources facts none) context service from_slice operation body

  -- The version that the page stands at.
  abbrev pub version_of : Option ServiceStream → Action (Session W) ExecutionError (Option ℕ)
  version_of none = pure none
  version_of (some source) =
      lift (map_err (λ e. resource_error) (durable_stream store source)) >>= λ stream.
      on_store
        (λ w. let (r, w') = store.stream_version stream w in (map_err (λ e. resource_error) r, w'))

  abbrev pub take_cursor : Action (Session W) ExecutionError (Option String)
  take_cursor session = (ok session.next_cursor, record session { next_cursor = none })

  unfoldable pub query_page :
      (Bytes → Option V)
      → VerifiedAuthContext
      → AuthorityFacts
      → String
      → Bytes
      → PageRequest
      → Action (Session W) ExecutionError (QueryPage V)
  query_page from_slice context facts operation body request = do
    rows ←
        query_rows json json_equal (resources facts (some request)) context service from_slice
          operation body
    next_cursor ← take_cursor
    through_version ← version_of (single_authorized_stream rows)
    pure (record {
      items = map (λ row. row.value) rows;
      through_version = through_version;
      next_cursor = next_cursor;
      partial = is_some next_cursor;
    })
