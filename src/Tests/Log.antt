-- ===== src/Tests/Log.antt =====
-- A log that keeps one batch, and the adapters of crates/service-eventlog/src/lib.rs over it.
use service_sdk.Base.{
  String, Bool, true, false, Option, none, some, List, [], ◌∷◌, ◌++◌, ◌≡◌, refl, ◌==◌, length, take,
  arith, if◌then◌else◌,
}
use service_sdk.Base.Decimal.{decimal, parse_u64}
use service_sdk.Base.Bytes.{Bytes}
use service_sdk.Base.Result.{ok}
use service_sdk.Codec.{
  DurableStream, encode_stream_id, encode_realm, decode_stream_id, decode_framed,
}
use service_sdk.Engine.{LoadedStream, reduce_all, fold}
use service_sdk.Engine.Ports.{
  ServiceStream, AppendRequest, AppendReceipt, committed, ProjectionRow, no_stream,
}
use service_sdk.Adapter.{
  RecordedEvent, recorded_intent, stream_type_of, misplaced, foreign, domain_events, counted,
}
use service_sdk.Base.Text.{split_once}
use service_sdk.Adapter.Store.{
  AppendResult, RecordedClaim, DurableEventStore, Serde, durable_stream,
}
use service_sdk.Adapter.Reads.{slice_of, Numbered, IsReadable}
use service_sdk.Effect.Journal.Load.{page}
use service_sdk.Adapter.Events.{
  load, append, new_events, command_meta, durable_claim, find_recorded,
}
use service_sdk.Adapter.Events.Loading.{history_from, load-fold}
use service_sdk.Adapter.Events.Retry.{KeepsClaims, append-find_recorded}
use service_sdk.Adapter.Pages.{max_page_rows}
use service_sdk.Adapter.Pages.Feed.{IsServed, follow, shown, follow-take}
use service_sdk.Adapter.Projections.{list_from, selected_rows, is_selected, max_query_rows}
use service_sdk.Adapter.Projections.Listing.{IsListed, list_from-limited}
use service_sdk.Base.Action.{pure-eq-ok}
use service_sdk.Tests.Service.{Value, text, null_value, json, service, context}
use service_sdk.Tests.Adapter.{claim, stored}

abbrev first_stored : RecordedEvent Value
first_stored = record stored { version = 1 }

abbrev content : Option DurableStream → DurableStream → List (RecordedEvent Value)
content none s = []
content (some stream) s = first_stored ∷ []

abbrev result : AppendResult Value
result = record {
  events = first_stored ∷ [];
  first_version = 1;
  last_version = 1;
  deduplicated = false;
}

abbrev claimed : DurableStream → RecordedClaim
claimed s = record { stream = s; first_version = 1; last_version = 1 }

abbrev found_claim : Option DurableStream → Option RecordedClaim
found_claim none = none
found_claim (some s) = some (claimed s)

abbrev pub behind : Option DurableStream → String → List (String × Value)
behind w after = if after == "p" then ("p1", null_value) ∷ [] else []

-- The state is the stream of the one batch, if it was appended.
abbrev pub log : DurableEventStore (Option DurableStream) Value
log = record {
  new_tenant = λ tenant. ok tenant;
  new_stream =
      λ tenant type id. ok (record { tenant = tenant; stream_type = type; stream_id = id });
  new_event =
      λ name version body. ok (record { name = name; schema_version = version; body = body });
  new_claim = λ scope key digest. ok (record { scope = scope; key = key; digest = digest });
  request_hash = λ value. ok "h";
  parse_instant = λ text. some 5;
  format_instant = λ instant. ok "5";
  recorded_claim = λ tenant claim w. (ok (found_claim w), w);
  read_stream = λ s after limit w. (ok (slice_of (content w s) after limit), w);
  append = λ s guard events meta w. (ok result, some s);
  stream_version = λ s w. (ok none, w);
  stream_identity = λ tenant w. (ok "l1", w);
  projection_get = λ name tenant key w. (ok none, w);
  projection_list = λ name tenant after limit w. (ok (take limit (behind w after)), w);
  projection_page =
      λ name tenant prefix after limit w. (ok (record { rows = []; next_cursor = none }), w);
  register_inline = λ name w. (ok tt, w);
  put_blob = λ tenant name bytes w. (ok tt, w);
}

abbrev pub task_row : ProjectionRow Value
task_row = record {
  view = "tasks";
  tenant = "acme";
  realm = some "eu";
  source_stream = none;
  value = ("state", text "Active") ∷ [];
}

abbrev pub serde : Serde Value
serde = record {
  object = λ m. null_value;
  of_events = λ events. some null_value;
  of_state = λ state. none;
  to_state = λ value. none;
  of_row = λ row. some null_value;
  to_row = λ value. some task_row;
}

pub readable : IsReadable log 1000 content
readable = record { reads = λ w s after limit small. refl; numbered = λ w s. count w s }
  where
    count : (w : Option DurableStream) (s : DurableStream) → Numbered 0 (content w s)
    count none s = tt
    count (some stream) s = (omega arith, tt)

abbrev task_stream : ServiceStream
task_stream = record {
  service = "tasks";
  tenant = "acme";
  realm = some "eu";
  category = "aggregate";
  key = "t1";
}

abbrev durable : DurableStream
durable = record {
  tenant = "acme";
  stream_type = "generated-service:tasks";
  stream_id = "1:2:eu|9:aggregate|2:t1";
}

named : durable_stream log task_stream ≡ ok durable
unfolding durable_stream stream_type_of encode_stream_id encode_realm decimal
named = refl

load-fold_example :
    (load json serde log 10 1000 2 task_stream (some durable)
      ≡ (history_from json 0 (first_stored ∷ []), some durable))
    × ((history : LoadedStream Value)
        → history_from json 0 (first_stored ∷ []) ≡ ok history
        → (history.version ≡ 1)
          × (length history.events ≡ 1)
          × (fold json service.reducers history
              ≡ reduce_all json service.reducers (record { entities = [] }) history.events))
unfolding page
load-fold_example =
    load-fold json serde log 10 1000 content readable (omega arith) (some durable) durable 2
      task_stream service.reducers named (omega arith)

keeps : KeepsClaims log content
keeps = record {
  own_tenant = λ tenant type id s h. ground arith;
  kept = λ w w' s guard events meta claim result' h c d.
      let (same, there) = pure-eq-ok result result' (some s) w' h in
      rw (← same, ← there) (refl, omega arith, refl);
}

abbrev closing_request : AppendRequest Value
closing_request = record {
  stream = task_stream;
  expected = no_stream;
  idempotency_key = "r1";
  claim = claim;
  events = record { name = "closed"; fields = ("task_id", text "t1") ∷ [] } ∷ [];
  metadata = record {
    subject = "alice";
    actor = "alice";
    request_id = "r1";
    trace_id = "";
    occurred_at = "5";
  };
}

abbrev receipt : AppendReceipt Value
receipt = record {
  disposition = committed;
  through_version = 1;
  stream = task_stream;
  events = record { name = "closed"; fields = ("task_id", text "t1") ∷ [] } ∷ [];
}

appended : append json serde log 10 1000 closing_request none ≡ (ok receipt, some durable)
unfolding append durable_stream stream_type_of encode_stream_id encode_realm decimal new_events
    command_meta durable_claim recorded_intent misplaced foreign domain_events counted
    decode_stream_id decode_framed split_once parse_u64
appended = refl

append-find_recorded_example : find_recorded json serde log 10 1000 11 claim (some durable) ≡ (
  ok (some (record { stream = receipt.stream; events = receipt.events; through_version = 1 })),
  some durable,
)
append-find_recorded_example =
    append-find_recorded json serde log 10 1000 content readable (omega arith) keeps 11
      closing_request none (some durable) receipt (omega arith) refl appended refl

abbrev no_hash : Bytes → Bytes
no_hash bytes = []

served :
    IsServed log
      (λ context category key w. (ok true, w))
      context
      "aggregate"
      "t1"
      "acme"
      "l1"
      (λ instant. "5")
served = record {
  allowed = λ w. refl;
  new_tenant = refl;
  identified = λ w. refl;
  formatted = λ instant. refl;
}

follow-take_example :
    follow log no_hash "tasks" context
      (λ context category key w. (ok true, w))
      "aggregate"
      "t1"
      5
      2
      none
      (some durable)
    ≡ (ok (shown (λ instant. "5") first_stored ∷ []), some durable)
unfolding max_page_rows
follow-take_example =
    follow-take log no_hash (λ b. tt) "tasks" context (λ context category key w. (ok true, w))
      "aggregate" "t1" "acme" "l1" (λ instant. "5") served durable named 1000 content readable 5
      (omega arith) (omega arith) (omega arith) (some durable) 2 (omega arith)

only_entry :
    (b : Bool) (key : String) (body : Value) (entries later : List (String × Value))
    → (if b then ("p1", null_value) ∷ [] else []) ≡ entries ++ ((key, body) ∷ later)
    → (key ≡ "p1") × (later ≡ [])
only_entry false key body [] later h = cc
only_entry false key body (e ∷ entries) later h = cc
only_entry true key body [] later h = (cc, cc)
only_entry true key body (e ∷ []) later h = cc
only_entry true key body (e ∷ f ∷ entries) later h = cc

listed : IsListed log "rows" "acme" behind
unfolding page
listed = record {
  lists = λ w after. refl;
  ordered = λ w after key body entries later h.
      let (same, none_left) = only_entry (after == "p") key body entries later h in
      rw (same, none_left) refl;
}

-- The value of every row is taken to be selected.
list_from-limited_example :
    list_from serde (λ a b. true) no_hash "tasks" "rows" log 2 "acme" "p" [] 0 "p" none
    ≡ (ok (task_row ∷ []), none)
unfolding selected_rows is_selected max_query_rows
list_from-limited_example =
    list_from-limited serde (λ a b. true) no_hash "tasks" "rows" log "p" [] "acme" behind listed
      none 2 (omega arith)
