-- ===== src/Tests/Batch.antt =====
-- A log that keeps its last batch, under the adapters of crates/service-eventlog/src/lib.rs.
use Prim.Native.Nat.{ℕ, suc}
use service_sdk.Base.{
  ◌+◌, String, false, Option, none, some, List, [], ◌∷◌, ◌≡◌, refl, ap, length, take-all, arith,
}
use service_sdk.Base.Maps.{Map}
use service_sdk.Base.Result.{ok}
use service_sdk.Base.Action.{pure-eq-ok}
use service_sdk.Codec.{DurableStream}
use service_sdk.Effect.Journal.Store.{NewEvent}
use service_sdk.Engine.{DomainEvent, ProjectionState, Json}
use service_sdk.Engine.JsonNumber.{Value, Members, null, number, text, object, end, member}
use service_sdk.Adapter.{RecordedEvent}
use service_sdk.Adapter.Store.{AppendResult, RecordedClaim, DurableEventStore, Serde}
use service_sdk.Adapter.Reads.{slice_of, Numbered, IsReadable}
use service_sdk.Adapter.Events.Retry.{KeepsClaims}
use service_sdk.Adapter.Events.Given.{Given, AppendsGiven}

abbrev pub JsonValue : Type 0
JsonValue = Value ℕ

abbrev pub to_map : Members ℕ → Map JsonValue
to_map end = []
to_map (member k v ms) = (k, v) ∷ to_map ms

abbrev pub of_map : Map JsonValue → Members ℕ
of_map [] = end
of_map ((k, v) ∷ m) = member k v (of_map m)

to-of_map : (m : Map JsonValue) → to_map (of_map m) ≡ m
to-of_map [] = refl
to-of_map ((k, v) ∷ m) = ap (λ t. (k, v) ∷ t) (to-of_map m)

abbrev pub value_as_str : JsonValue → Option String
value_as_str (text s) = some s
value_as_str _ = none

abbrev pub value_as_object : JsonValue → Option (Map JsonValue)
value_as_object (object ms) = some (to_map ms)
value_as_object _ = none

abbrev pub tree : Json JsonValue
tree = record {
  as_str = value_as_str;
  as_u64 = λ v. none;
  as_object = value_as_object;
  is_null = λ v. false;
  null = null;
  string = λ s. text s;
  number = λ n. number n;
  array = λ vs. null;
}

abbrev pub opened : DomainEvent JsonValue
opened = record { name = "opened"; fields = ("task_id", text "t1") ∷ [] }

abbrev pub opened_state : ProjectionState JsonValue
opened_state = record {
  entities =
      ("Task", ("t1", record { state = "Active"; fields = ("task_id", text "t1") ∷ [] }) ∷ []) ∷ [];
}

abbrev pub serde : Serde JsonValue
serde = record {
  object = λ m. object (of_map m);
  of_events = λ events. some null;
  of_state = λ state. none;
  to_state = λ value. some opened_state;
  of_row = λ row. none;
  to_row = λ value. none;
}

-- The events of a batch from the version `n` on.
abbrev pub stored_from :
    DurableStream → ℕ → List (NewEvent JsonValue) → List (RecordedEvent JsonValue)
stored_from s n [] = []
stored_from s n (event ∷ events) =
    record {
      tenant = s.tenant;
      stream_type = s.stream_type;
      stream_id = s.stream_id;
      version = n + 1;
      schema_version = 1;
      is_redacted = false;
      name = event.name;
      body = event.body;
      event_id = "e";
      occurred_at = 5;
      subject = "alice";
      actor = "alice";
    }
    ∷ stored_from s (n + 1) events

-- The log has at most one batch, the last.
abbrev pub Batch : Type 0
Batch = Option (DurableStream × List (NewEvent JsonValue))

abbrev pub content : Batch → DurableStream → List (RecordedEvent JsonValue)
content none s = []
content (some (stream, events)) s = stored_from stream 0 events

abbrev pub claimed : Batch → Option RecordedClaim
claimed none = none
claimed (some (stream, events)) =
    some (record { stream = stream; first_version = 1; last_version = length events })

abbrev pub appended : DurableStream → List (NewEvent JsonValue) → AppendResult JsonValue
appended s events = record {
  events = stored_from s 0 events;
  first_version = 1;
  last_version = length events;
  deduplicated = false;
}

abbrev pub log : DurableEventStore Batch JsonValue
log = record {
  new_tenant = λ tenant. ok tenant;
  new_stream =
      λ tenant type id. ok (record { tenant = tenant; stream_type = type; stream_id = id });
  new_event =
      λ name version body. ok (record { name = name; schema_version = version; body = body });
  new_claim = λ scope key digest. ok (record { scope = scope; key = key; digest = digest });
  request_hash = λ value. ok "h";
  parse_instant = λ instant. some 5;
  format_instant = λ instant. ok "5";
  recorded_claim = λ tenant claim w. (ok (claimed w), w);
  read_stream = λ s after limit w. (ok (slice_of (content w s) after limit), w);
  append = λ s guard events meta w. (ok (appended s events), some (s, events));
  stream_version = λ s w. (ok none, w);
  stream_identity = λ tenant w. (ok "l1", w);
  projection_get = λ name tenant key w. (ok (some null), w);
  projection_list = λ name tenant after limit w. (ok [], w);
  projection_page =
      λ name tenant prefix after limit w. (ok (record { rows = []; next_cursor = none }), w);
  register_inline = λ name w. (ok tt, w);
  put_blob = λ tenant name bytes w. (ok tt, w);
}

stored_from-Numbered :
    (s : DurableStream) (n : ℕ) (events : List (NewEvent JsonValue))
    → Numbered n (stored_from s n events)
stored_from-Numbered s n [] = tt
stored_from-Numbered s n (event ∷ events) = (refl, stored_from-Numbered s (n + 1) events)

length-stored_from :
    (s : DurableStream) (n : ℕ) (events : List (NewEvent JsonValue))
    → length (stored_from s n events) ≡ length events
length-stored_from s n [] = refl
length-stored_from s n (event ∷ events) = ap suc (length-stored_from s (n + 1) events)

stored_from-Given :
    (s : DurableStream) (n : ℕ) (events : List (NewEvent JsonValue))
    → Given events (stored_from s n events)
stored_from-Given s n [] = tt
stored_from-Given s n (event ∷ events) = (refl, refl, stored_from-Given s (n + 1) events)

pub readable : IsReadable log 1000 content
readable = record { reads = λ w s after limit small. refl; numbered = count }
  where
    count : (w : Batch) (s : DurableStream) → Numbered 0 (content w s)
    count none s = tt
    count (some (stream, events)) s = stored_from-Numbered stream 0 events

pub keeps : KeepsClaims log content
keeps = record {
  own_tenant = λ tenant type id s h. ground arith;
  kept = λ w w' s guard events meta claim result h c d.
      let (same, there) = pure-eq-ok (appended s events) result (some (s, events)) w' h in
      rw (← same, ← there)
        (
          refl,
          omega (arith, length-stored_from s 0 events),
          take-all (length (stored_from s 0 events)) (stored_from s 0 events) (omega arith),
        );
}

pub appends : AppendsGiven tree serde log
appends = record {
  named = λ name version body event h. ground arith;
  fields = λ m. ap (λ t. some t) (to-of_map m);
  given = λ w w' s guard events meta result h d.
      let (same, there) = pure-eq-ok (appended s events) result (some (s, events)) w' h in
      rw (← same) (stored_from-Given s 0 events);
}
