-- ===== src/Adapter/Pages.antt =====
-- crates/service-eventlog/src/lib.rs: the pages that a caller asks for (`PageRequest`) and the feed of
-- one stream's events (`events_page`).
pub mod Feed
use service_sdk.Base.{
  ℕ, String, Bool, true, false, Option, none, some, List, [], ◌∷◌, not, ◌||◌, ◌==◌, eqb, ltb,
  if◌then◌else◌,
}
use service_sdk.Base.Bytes.{Bytes}
use service_sdk.Base.Result
use service_sdk.Base.Result.{Result, ok, err, map_err}
use service_sdk.Base.Action.{Action, pure, fail, lift, ◌>>=◌, ◌>>◌}
use service_sdk.Runtime.Auth.{VerifiedAuthContext}
use service_sdk.Codec.{feed_identity, encode_event_cursor, decode_event_cursor}
use service_sdk.Effect.Journal.Store.{EventLogError, invalid}
use service_sdk.Engine.Ports.{ServiceStream}
use service_sdk.Adapter.{RecordedEvent}
use service_sdk.Adapter.Store.{DurableEventStore, durable_stream}
use service_sdk.Adapter.Events.{last_after}

unfoldable pub max_page_rows : ℕ
max_page_rows = 1000

pub record PageRequest : Type 0 where
  pub cursor : Option String
  pub limit : ℕ

pub data PageRequestError : Type 0 where
  limit_error cursor_error : PageRequestError

-- `cursor.as_ref().is_some_and(String::is_empty)`
abbrev pub is_empty_cursor : Option String → Bool
is_empty_cursor none = false
is_empty_cursor (some cursor) = cursor == ""

-- `PageRequest::new`
unfoldable pub page_request : Option String → ℕ → Result PageRequestError PageRequest
page_request cursor limit =
    if eqb limit 0 || ltb max_page_rows limit
    then err limit_error
    else if is_empty_cursor cursor
    then err cursor_error
    else ok (record { cursor = cursor; limit = limit })

pub record ServiceEvent (V : Type 0) : Type 0 where
  pub version : ℕ
  pub event_id : String
  pub name : String
  pub occurred_at : String
  pub subject : String
  pub actor : String
  pub redacted : Bool
  pub body : V

pub record EventPage (V : Type 0) : Type 0 where
  pub events : List (ServiceEvent V)
  pub cursor : String
  pub has_more : Bool

pub data EventPageError : Type 0 where
  page_refused stale_page : EventPageError
  store_error : EventLogError → EventPageError

-- `?` on an error of the event log.
abbrev pub logged : {W A : Type 0} → Action W EventLogError A → Action W EventPageError A
logged m w = let (r, w') = m w in (map_err (λ e. store_error e) r, w')

-- `EventFeedAuthorizer`: code of the deployment.
abbrev pub EventFeedAuthorizer : Type 0 → Type 0
EventFeedAuthorizer W = VerifiedAuthContext → String → String → Action W EventLogError Bool

-- `.map(|cursor| decode_event_cursor(cursor, &identity)).transpose()?.unwrap_or(0)`
abbrev pub position_of : String → Option String → Result EventPageError ℕ
position_of identity none = ok 0
position_of identity (some cursor) = map_err (λ e. stale_page) (decode_event_cursor cursor identity)

abbrev pub feed_stream : String → VerifiedAuthContext → String → String → ServiceStream
feed_stream service context category key = record {
  service = service;
  tenant = context.tenant;
  realm = context.realm;
  category = category;
  key = key;
}

module _ {W V : Type 0} (store : DurableEventStore W V) (sha256 : Bytes → Bytes) where
  unfoldable pub service_event : RecordedEvent V → Result EventLogError (ServiceEvent V)
  service_event event =
      Result.◌>>=◌ (map_err (λ text. invalid text) (store.format_instant event.occurred_at))
        (λ occurred_at. ok (record {
          version = event.version;
          event_id = event.event_id;
          name = event.name;
          occurred_at = occurred_at;
          subject = event.subject;
          actor = event.actor;
          redacted = event.is_redacted;
          body = event.body;
        }))

  unfoldable pub service_events :
      List (RecordedEvent V) → Result EventLogError (List (ServiceEvent V))
  service_events [] = ok []
  service_events (event ∷ events) =
      Result.◌>>=◌ (service_event event)
        (λ first. Result.◌>>=◌ (service_events events) (λ rest. ok (first ∷ rest)))

  unfoldable pub events_page :
      String
      → VerifiedAuthContext
      → EventFeedAuthorizer W
      → String
      → String
      → Option String
      → ℕ
      → Action W EventPageError (EventPage V)
  events_page service context authorizer category key cursor limit = do
    page ← lift (map_err (λ e. stale_page) (page_request cursor limit))
    allowed ← logged (authorizer context category key)
    if not allowed then fail page_refused else pure tt
    stream ← lift (
        map_err (λ e. store_error e)
          (durable_stream store (feed_stream service context category key)))
    tenant ← lift (map_err (λ e. store_error e) (store.new_tenant context.tenant))
    store_identity ← logged (store.stream_identity tenant)
    let identity = feed_identity sha256 store_identity stream
    after ← lift (position_of identity page.cursor)
    slice ← logged (store.read_stream stream after page.limit)
    events ← lift (map_err (λ e. store_error e) (service_events slice.events))
    pure (record {
      events = events;
      cursor = encode_event_cursor identity (last_after after slice.events);
      has_more = not slice.end_of_stream;
    })
