-- ===== src/Adapter/Pages/Feed.antt =====
-- A client that follows the cursors sees the whole stream: crates/service-eventlog/src/lib.rs,
-- `events_page`.
use Prim.Native.String.{◌++◌ as append_text, ◌∷◌ as cons_text, len}
use native.Mathlib.Nat.{zero-mul, suc-mul}
use mathlib.Core.List.{map-append}
use text.Mathlib.TextPositions.{len-append}
use service_sdk.Base.{
  ℕ, zero, suc, ◌+◌, ◌*◌, ◌≤◌, ◌<◌, ◌≡◌, refl, sym, ap, ◌∙◌, true, false, Option, none, some, List,
  [], ◌∷◌, ◌++◌, map, String, not, ◌==◌, leb, length, take, drop, take-take-drop, drop-drop,
  drop-length-take, length-take-within, length-drop, eq_iff, eq_refl, Bool-cases, inl, inr, arith,
}
use service_sdk.Base.Bytes.{Bytes}
use service_sdk.Base.Bytes.Hex.{IsBytes}
use service_sdk.Base.Decimal.{u64_limit, decimal}
use service_sdk.Base.Result.{ok}
use service_sdk.Base.Action
use service_sdk.Base.Action.{Action, pure}
use service_sdk.Runtime.Auth.{VerifiedAuthContext}
use service_sdk.Codec.{DurableStream, feed_identity, encode_event_cursor}
use service_sdk.Codec.Cursor.{decode-encode_event_cursor, feed_identity-Free}
use service_sdk.Adapter.{RecordedEvent}
use service_sdk.Adapter.Store.{DurableEventStore, durable_stream}
use service_sdk.Adapter.Reads.{IsReadable, Numbered-drop, Numbered-take}
use service_sdk.Adapter.Events.{last_after}
use service_sdk.Adapter.Events.Loading.{last_after-Numbered}
use service_sdk.Adapter.Pages.{
  max_page_rows, page_request, is_empty_cursor, ServiceEvent, EventPage, EventPageError,
  EventFeedAuthorizer, service_event, service_events, position_of, feed_stream, events_page,
}

-- A page of the feed that the client may read: the deployment allows it, the log has one identity,
-- and instants have a text.
pub record IsServed {W V : Type 0} (store : DurableEventStore W V)
    (authorizer : EventFeedAuthorizer W) (context : VerifiedAuthContext) (category key : String)
    (tenant store_identity : String) (text_of : ℕ → String) : Type 0 where
  pub allowed : (w : W) → authorizer context category key w ≡ (ok true, w)
  pub new_tenant : store.new_tenant context.tenant ≡ ok tenant
  pub identified : (w : W) → store.stream_identity tenant w ≡ (ok store_identity, w)
  pub formatted : (instant : ℕ) → store.format_instant instant ≡ ok (text_of instant)

nonempty_cursor :
    (identity : String) (position : ℕ) → (encode_event_cursor identity position == "") ≡ false
unfolding encode_event_cursor
nonempty_cursor identity position =
    elim (Bool-cases (encode_event_cursor identity position == "")) [
      | inr no_text ↦ no_text
      | inl same ↦ absurd (
          omega (
            arith,
            ap len ((eq_iff (encode_event_cursor identity position) "").0 same),
            len-append "service-event-cursor/1:"
                (append_text identity (cons_text ":" (decimal position))),
            long,
            short,
          ))
    ]
  where
    long : len "service-event-cursor/1:" ≡ 23
    long = refl

    short : len "" ≡ 0
    short = refl

module _ {W V : Type 0} (store : DurableEventStore W V) (sha256 : Bytes → Bytes) (service : String)
    (context : VerifiedAuthContext) (authorizer : EventFeedAuthorizer W) (category key : String)
    (limit : ℕ) where
  -- The pages that a client reads one behind the other, each with the cursor of the one before.
  unfoldable pub follow : ℕ → Option String → Action W EventPageError (List (ServiceEvent V))
  follow zero cursor = pure []
  follow (suc n) cursor =
      Action.◌>>=◌ (events_page store sha256 service context authorizer category key cursor limit)
        (λ page. Action.◌>>=◌ (follow n (some page.cursor)) (λ rest. pure (page.events ++ rest)))

module _ {V : Type 0} (text_of : ℕ → String) where
  -- A recorded event as the feed shows it.
  abbrev pub shown : RecordedEvent V → ServiceEvent V
  shown event = record {
    version = event.version;
    event_id = event.event_id;
    name = event.name;
    occurred_at = text_of event.occurred_at;
    subject = event.subject;
    actor = event.actor;
    redacted = event.is_redacted;
    body = event.body;
  }

module _ {W V : Type 0} (store : DurableEventStore W V) (sha256 : Bytes → Bytes)
    (octets : (b : Bytes) → IsBytes (sha256 b)) (service : String) (context : VerifiedAuthContext)
    (authorizer : EventFeedAuthorizer W) (category key : String) (tenant store_identity : String)
    (text_of : ℕ → String)
    (served : IsServed store authorizer context category key tenant store_identity text_of)
    (s : DurableStream)
    (named : durable_stream store (feed_stream service context category key) ≡ ok s) (max_read : ℕ)
    (content : W → DurableStream → List (RecordedEvent V))
    (readable : IsReadable store max_read content) (limit : ℕ) (some_limit : 0 < limit)
    (few : limit ≤ max_page_rows) (read : limit ≤ max_read) where
  service_events-shown :
      (events : List (RecordedEvent V))
      → service_events store sha256 events ≡ ok (map (λ e. shown text_of e) events)
  unfolding service_events service_event
  service_events-shown [] = refl
  service_events-shown (event ∷ events) =
      rw (served.formatted event.occurred_at, service_events-shown events) refl

  abbrev feed : String
  feed = feed_identity sha256 store_identity s

  abbrev page_at : W → ℕ → EventPage V
  page_at w after = record {
    events = map (λ e. shown text_of e) (take limit (drop after (content w s)));
    cursor = encode_event_cursor feed (last_after after (take limit (drop after (content w s))));
    has_more = not (leb (length (content w s)) (after + limit));
  }

  within_limits :
      (cursor : Option String)
      → is_empty_cursor cursor ≡ false
      → page_request cursor limit ≡ ok (record { cursor = cursor; limit = limit })
  unfolding page_request
  within_limits cursor given = ground (arith, few, some_limit)

  -- One page behind a position.
  events_page-page_at :
      (w : W) (cursor : Option String) (after : ℕ)
      → is_empty_cursor cursor ≡ false
      → position_of feed cursor ≡ ok after
      → events_page store sha256 service context authorizer category key cursor limit w
        ≡ (ok (page_at w after), w)
  unfolding events_page
  events_page-page_at w cursor after given at =
      rw
        (
          within_limits cursor given,
          served.allowed w,
          named,
          served.new_tenant,
          served.identified w,
          at,
          readable.reads w s after limit read,
          service_events-shown (take limit (drop after (content w s))),
        )
        refl

  after_page :
      (w : W) (after : ℕ)
      → after ≤ length (content w s)
      → last_after after (take limit (drop after (content w s)))
        ≡ after + length (take limit (drop after (content w s)))
  after_page w after le = last_after-Numbered after (take limit (drop after (content w s))) (
      Numbered-take limit after (drop after (content w s))
        (Numbered-drop after 0 after (content w s) (omega arith) le (readable.numbered w s)))

  joined :
      (w : W) (after n : ℕ)
      → take limit (drop after (content w s))
          ++ take
              (n * limit)
              (drop (after + length (take limit (drop after (content w s)))) (content w s))
        ≡ take (suc n * limit) (drop after (content w s))
  joined w after n =
      let rest = drop after (content w s) in
      ap (λ es. take limit rest ++ take (n * limit) es)
        (sym (drop-drop after (length (take limit rest)) (content w s))
          ∙ drop-length-take limit rest)
      ∙ take-take-drop limit (n * limit) (suc n * limit) rest (omega (arith, suc-mul n limit))

  follow_from :
      (w : W) (n : ℕ) (cursor : Option String) (after : ℕ)
      → length (content w s) < u64_limit
      → after ≤ length (content w s)
      → is_empty_cursor cursor ≡ false
      → position_of feed cursor ≡ ok after
      → follow store sha256 service context authorizer category key limit n cursor w
        ≡ (ok (map (λ e. shown text_of e) (take (n * limit) (drop after (content w s)))), w)
  unfolding follow
  follow_from w zero cursor after small le given at =
      ap (λ k. (ok (map (λ e. shown text_of e) (take k (drop after (content w s)))), w))
        (sym (zero-mul limit))
  follow_from w (suc n) cursor after small le given at =
      let rest = drop after (content w s) in
      let taken = take limit rest in
      let there = after_page w after le in
      let inside = length-take-within limit rest in
      let total = length-drop after (content w s) in
      let next = after + length taken in
      let le' : next ≤ length (content w s) = omega (arith, inside, total) in
      let again =
        decode-encode_event_cursor feed feed next
          (feed_identity-Free sha256 octets store_identity s) (omega (arith, le', small)) in
      let at' : position_of feed (some (encode_event_cursor feed next)) ≡ ok next =
        rw again (ground (arith, eq_refl feed)) in
      let onward =
        follow_from w n (some (encode_event_cursor feed next)) next small le'
          (nonempty_cursor feed next) at' in
      rw (events_page-page_at w cursor after given at, there, onward)
        (ap (λ es. (ok es, w))
          (sym
              (map-append (λ e. shown text_of e) taken (take (n * limit) (drop next (content w s))))
            ∙ ap (λ es. map (λ e. shown text_of e) es) (joined w after n)))

  -- A client that starts without a cursor and reads pages one behind the other, each with the cursor
  -- of the page before: over a log that reads as documented, an authorizer that allows the stream, a
  -- page size between 1 and 1000 and a stream whose length is a u64, `n` pages show the first events
  -- of the stream, `n` times the page size of them or all there are, each once and in order, and the
  -- log is not changed.
  pub follow-take :
      (w : W) (n : ℕ)
      → length (content w s) < u64_limit
      → follow store sha256 service context authorizer category key limit n none w
        ≡ (ok (map (λ e. shown text_of e) (take (n * limit) (content w s))), w)
  follow-take w n small = follow_from w n none 0 small (omega arith) refl refl
