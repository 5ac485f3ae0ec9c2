-- ===== src/Adapter/Events.antt =====
-- crates/service-eventlog/src/lib.rs: `EventlogEvents`, the event port of the engine.
pub mod Loading
pub mod Batch
pub mod Retry
pub mod Given
use Prim.Native.String.{◌++◌ as append_text}
use service_sdk.Base.{
  ℕ, zero, suc, ◌+◌, ◌-◌, String, Bool, true, false, Option, none, some, List, [], ◌∷◌, ◌++◌, not,
  ◌&&◌, ◌||◌, eqb, ltb, leb, length, if◌then◌else◌,
}
use service_sdk.Base.Maps.{Map}
use service_sdk.Base.Result
use service_sdk.Base.Result.{Result, ok, err, ok_or, map_err}
use service_sdk.Base.Action.{Action, pure, fail, lift, ◌>>=◌, ◌>>◌}
use service_sdk.Codec.{DurableStream}
use service_sdk.Effect.Journal.Store.{Expected, NewEvent}
use service_sdk.Effect.Journal.Load.{page}
use service_sdk.Engine.{DomainEvent, StoredEvent, LoadedStream, ProjectionState, Json}
use service_sdk.Engine.Ports.{
  ResourceError, refused, ServiceStream, AppendExpectation, IntentClaimRequest, AppendRequest,
  AppendReceipt, committed, replayed, RecordedIntent,
}
use service_sdk.Adapter.{RecordedEvent, counted, recorded_intent}
use service_sdk.Adapter.Store.{
  Claim, CommandMeta, DurableEventStore, Serde, resource, durable_stream,
}

-- The loop over the events of a page: `after` is the version of the last one.
abbrev pub last_after : {V : Type 0} → ℕ → List (RecordedEvent V) → ℕ
last_after after [] = after
last_after after (event ∷ events) = last_after event.version events

-- `if event.version != after + 1 { return Err(ResourceError); }`
unfoldable pub consecutive : {V : Type 0} → ℕ → List (RecordedEvent V) → Bool
consecutive after [] = true
consecutive after (event ∷ events) =
    eqb event.version (after + 1) && consecutive event.version events

-- The page is used if it is full and its versions follow each other.
unfoldable pub checked_page :
    {V : Type 0} → ℕ → ℕ → List (RecordedEvent V) → Result ResourceError (List (RecordedEvent V))
checked_page count after events =
    if not (eqb (length events) count) || not (consecutive after events)
    then err refused
    else ok events

abbrev pub min : ℕ → ℕ → ℕ
min a b = if ltb a b then a else b

abbrev pub expected : AppendExpectation → Expected
expected AppendExpectation.no_stream = Expected.no_stream
expected (AppendExpectation.exact version) = Expected.exact version

-- `.filter(|count| *count <= MAX_EVENTS_PER_APPEND)`
abbrev pub at_most : ℕ → Option ℕ → Option ℕ
at_most bound none = none
at_most bound (some count) = if leb count bound then some count else none

module _ {V : Type 0} (json : Json V) where
  -- The events of a page with their bodies' fields.
  unfoldable pub stored_events :
      List (RecordedEvent V) → Result ResourceError (List (StoredEvent V))
  stored_events [] = ok []
  stored_events (event ∷ events) =
      Result.◌>>=◌ (ok_or (json.as_object event.body) refused) (λ fields.
        Result.◌>>=◌ (stored_events events) (λ rest. ok (
          record { version = event.version; event = record { name = event.name; fields = fields } }
          ∷ rest)))

-- `max_events` and `max_read` stand for `eventlog_core::MAX_EVENTS_PER_APPEND` and
-- `eventlog_core::MAX_READ_LIMIT`.
module _ {W V : Type 0} (json : Json V) (serde : Serde V) (store : DurableEventStore W V)
    (max_events max_read : ℕ) where
  -- One round of the loop for each page.
  unfoldable pub load_pages : ℕ → DurableStream → ℕ → Action W ResourceError (LoadedStream V)
  load_pages zero stream after = fail refused
  load_pages (suc fuel) stream after = do
    slice ← resource (store.read_stream stream after page)
    events ← lift (stored_events json slice.events)
    elim slice.end_of_stream [
      | true ↦ pure (record { version = last_after after slice.events; events = events })
      | false ↦ load_pages fuel stream (slice.next_version - 1) >>= λ rest.
          pure (record rest { events = events ++ rest.events })
    ]

  unfoldable pub load : ℕ → ServiceStream → Action W ResourceError (LoadedStream V)
  unfolding load_pages
  load fuel stream = do
    durable ← lift (map_err (λ _. refused) (durable_stream store stream))
    load_pages fuel durable 0

  unfoldable pub authorization_state :
      String → ServiceStream → Action W ResourceError (ProjectionState V)
  authorization_state state_name stream = do
    durable ← lift (map_err (λ _. refused) (durable_stream store stream))
    found ← resource (store.projection_get state_name durable.tenant durable.stream_id)
    state ← lift (ok_or found refused)
    lift (ok_or (serde.to_state state) refused)

  -- `match &claim.stream_key`
  abbrev pub selector : Option String → V
  selector (some key) =
      serde.object (("key", json.string key) ∷ ("kind", json.string "command_field") ∷ [])
  selector none = serde.object (("kind", json.string "generated_uuid_v7") ∷ [])

  abbrev pub optional_string : Option String → V
  optional_string none = json.null
  optional_string (some s) = json.string s

  -- What the scope of a claim is the hash of; an object's fields are in the order of their names.
  abbrev pub claim_scope : IntentClaimRequest → V
  claim_scope claim = serde.object (
      ("category", json.string claim.category)
      ∷ ("protocol", json.string "service-intent-claim/1")
      ∷ ("realm", optional_string claim.realm)
      ∷ ("selector", selector claim.stream_key)
      ∷ ("service", json.string claim.service)
      ∷ [])

  -- `intent_claim`
  unfoldable pub durable_claim : IntentClaimRequest → Result ResourceError Claim
  durable_claim claim =
      Result.◌>>=◌ (map_err (λ _. refused) (store.request_hash (claim_scope claim))) (λ scope.
        map_err (λ _. refused)
          (store.new_claim (append_text "service-intent-claim/1:" scope) claim.key claim.digest))

  -- The loop over the pages of a recorded batch, behind the version `after`.
  unfoldable pub read_batch :
      ℕ → DurableStream → ℕ → ℕ → Action W ResourceError (List (RecordedEvent V))
  read_batch zero stream last after = if ltb after last then fail refused else pure []
  read_batch (suc fuel) stream last after = elim (ltb after last) [
    | false ↦ pure []
    | true ↦
        let count = min (last - after) max_read in
        resource (store.read_stream stream after count) >>= λ slice.
        lift (checked_page count after slice.events) >>= λ events.
        read_batch fuel stream last (last_after after events) >>= λ rest. pure (events ++ rest)
  ]

  -- `recorded_intent` of the port, for a claim that the store has.
  unfoldable pub recorded_batch :
      ℕ → IntentClaimRequest → DurableStream → ℕ → ℕ → Action W ResourceError (RecordedIntent V)
  recorded_batch fuel claim stream first last = do
    count ← lift (ok_or (at_most max_events (counted first last)) refused)
    if eqb first 0 then fail refused else pure tt
    events ← read_batch fuel stream last (first - 1)
    lift (recorded_intent json max_events claim events first last)

  unfoldable pub find_recorded :
      ℕ → IntentClaimRequest → Action W ResourceError (Option (RecordedIntent V))
  find_recorded fuel claim = do
    tenant ← lift (map_err (λ _. refused) (store.new_tenant claim.tenant))
    durable ← lift (durable_claim claim)
    found ← resource (store.recorded_claim tenant durable)
    elim found [
      | none ↦ pure none
      | some recorded ↦
          recorded_batch fuel claim recorded.stream recorded.first_version recorded.last_version
          >>= λ intent. pure (some intent)
    ]

  unfoldable pub new_events : List (DomainEvent V) → Result ResourceError (List (NewEvent V))
  new_events [] = ok []
  new_events (event ∷ events) =
      Result.◌>>=◌
        (map_err (λ _. refused) (store.new_event event.name 1 (serde.object event.fields)))
        (λ new. Result.◌>>=◌ (new_events events) (λ rest. ok (new ∷ rest)))

  unfoldable pub command_meta : AppendRequest V → Result ResourceError CommandMeta
  command_meta request = Result.◌>>=◌ (ok_or (serde.of_events request.events) refused) (λ body.
      Result.◌>>=◌ (map_err (λ _. refused) (store.request_hash body)) (λ hash.
        Result.◌>>=◌ (ok_or (store.parse_instant request.metadata.occurred_at) refused) (λ instant.
          Result.◌>>=◌ (durable_claim request.claim) (λ claim. ok (record {
            idempotency_key = request.idempotency_key;
            request_hash = hash;
            subject = request.metadata.subject;
            actor = request.metadata.actor;
            request_id = request.metadata.request_id;
            trace_id = request.metadata.trace_id;
            occurred_at = instant;
            claim = some claim;
          })))))

  unfoldable pub append : AppendRequest V → Action W ResourceError (AppendReceipt V)
  append request = do
    stream ← lift (map_err (λ _. refused) (durable_stream store request.stream))
    events ← lift (new_events request.events)
    meta ← lift (command_meta request)
    result ← resource (store.append stream (expected request.expected) events meta)
    recorded ← lift (
        recorded_intent json max_events request.claim result.events result.first_version
          result.last_version)
    pure (record {
      disposition = if result.deduplicated then replayed else committed;
      through_version = result.last_version;
      stream = recorded.stream;
      events = recorded.events;
    })
