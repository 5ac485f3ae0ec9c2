-- ===== src/Adapter/Events/Retry.antt =====
-- A retried intent finds what it appended: crates/service-eventlog/src/lib.rs,
-- `EventlogEvents::append` and `recorded_intent`.
use service_sdk.Base.{
  ℕ, ◌-◌, ◌≤◌, ◌<◌, ◌≡◌, sym, ap, ◌∙◌, false, some, List, length, take, drop, arith, String,
  if◌then◌else◌,
}
use service_sdk.Base.Result.{ok, map_err, ok_or, >>=-eq-ok, map_err-eq-ok}
use service_sdk.Base.Action.{lift-eq-ok, step-eq-ok, pure-eq-ok}
use service_sdk.Codec.{DurableStream}
use service_sdk.Engine.{Json}
use service_sdk.Engine.Ports.{
  refused, AppendRequest, AppendReceipt, committed, replayed, RecordedIntent,
}
use service_sdk.Effect.Journal.Store.{Expected, NewEvent}
use service_sdk.Adapter.{RecordedEvent, recorded_intent}
use service_sdk.Adapter.Recorded.{recorded_intent-Answers}
use service_sdk.Adapter.Store.{
  DurableEventStore, Serde, Claim, CommandMeta, AppendResult, resource, resource-eq-ok,
  durable_stream,
}
use service_sdk.Adapter.Reads.{IsReadable}
use service_sdk.Adapter.Events.{
  durable_claim, find_recorded, expected, new_events, command_meta, append,
}
use service_sdk.Adapter.Events.Batch.{recorded_batch-kept}

-- What the store documents of an append that carries a claim and is not a repetition: it keeps the
-- claim with the stream and the versions of the batch, and the batch stands in the stream. A
-- stream's identity has the tenant that it is made for.
pub record KeepsClaims {W V : Type 0} (store : DurableEventStore W V)
    (content : W → DurableStream → List (RecordedEvent V)) : Type 0 where
  pub own_tenant :
      (tenant type id : String) (s : DurableStream)
      → store.new_stream tenant type id ≡ ok s
      → s.tenant ≡ tenant
  pub kept :
      (w w' : W) (s : DurableStream) (guard : Expected) (events : List (NewEvent V))
      (meta : CommandMeta) (claim : Claim) (result : AppendResult V)
      → store.append s guard events meta w ≡ (ok result, w')
      → meta.claim ≡ some claim
      → result.deduplicated ≡ false
      → (store.recorded_claim s.tenant claim w' ≡ (
        ok (
            some (record {
              stream = s;
              first_version = result.first_version;
              last_version = result.last_version;
            })),
        w',
      ))
        × (result.last_version ≤ length (content w' s))
        × (take (length result.events) (drop (result.first_version - 1) (content w' s))
            ≡ result.events)

module _ {W V : Type 0} (json : Json V) (serde : Serde V) (store : DurableEventStore W V)
    (max_events max_read : ℕ) (content : W → DurableStream → List (RecordedEvent V))
    (readable : IsReadable store max_read content) (some_read : 0 < max_read)
    (keeps : KeepsClaims store content) where
  -- What an append that succeeds has done.
  pub record Appended (request : AppendRequest V) (w w' : W) (receipt : AppendReceipt V)
      : Type 0 where
    pub stream : DurableStream
    pub own_stream : durable_stream store request.stream ≡ ok stream
    pub events : List (NewEvent V)
    pub own_new : new_events json serde store max_events max_read request.events ≡ ok events
    pub meta : CommandMeta
    pub own_meta : command_meta json serde store max_events max_read request ≡ ok meta
    pub result : AppendResult V
    pub done : store.append stream (expected request.expected) events meta w ≡ (ok result, w')
    pub recorded : RecordedIntent V
    pub decoded :
        recorded_intent json max_events request.claim result.events result.first_version
          result.last_version
        ≡ ok recorded
    pub answered : receipt ≡ record {
      disposition = if result.deduplicated then replayed else committed;
      through_version = result.last_version;
      stream = recorded.stream;
      events = recorded.events;
    }

  pub append-Appended :
      (request : AppendRequest V) (w w' : W) (receipt : AppendReceipt V)
      → append json serde store max_events max_read request w ≡ (ok receipt, w')
      → Appended request w w' receipt
  unfolding append
  append-Appended request w w' receipt h =
      let (stream, h1, k1) =
        lift-eq-ok (map_err (λ _. refused) (durable_stream store request.stream)) _ w h in
      let (events, h2, k2) =
        lift-eq-ok (new_events json serde store max_events max_read request.events) _ w k1 in
      let (meta, h3, k3) =
        lift-eq-ok (command_meta json serde store max_events max_read request) _ w k2 in
      let (result, v, h4, k4) =
        step-eq-ok (resource (store.append stream (expected request.expected) events meta)) _ w
          k3 in
      let (recorded, h5, k5) =
        lift-eq-ok
          (recorded_intent json max_events request.claim result.events result.first_version
            result.last_version)
          _ v k4 in
      let (same, there) = pure-eq-ok _ receipt v w' k5 in
      record {
        stream = stream;
        own_stream = map_err-eq-ok (λ _. refused) (durable_stream store request.stream) h1;
        events = events;
        own_new = h2;
        meta = meta;
        own_meta = h3;
        result = result;
        done =
            resource-eq-ok (store.append stream (expected request.expected) events meta) w v result
              h4
            ∙ ap (λ x. (ok result, x)) there;
        recorded = recorded;
        decoded = h5;
        answered = sym same;
      }

  claim_of :
      (request : AppendRequest V) (meta : CommandMeta)
      → command_meta json serde store max_events max_read request ≡ ok meta
      → (claim : Claim) × (durable_claim json serde store max_events max_read request.claim
          ≡ ok claim)
        × (meta.claim ≡ some claim)
  unfolding command_meta
  claim_of request meta h =
      let (body, h1, k1) = >>=-eq-ok (ok_or (serde.of_events request.events) refused) _ h in
      let (hash, h2, k2) = >>=-eq-ok (map_err (λ _. refused) (store.request_hash body)) _ k1 in
      let (instant, h3, k3) =
        >>=-eq-ok (ok_or (store.parse_instant request.metadata.occurred_at) refused) _ k2 in
      let (claim, h4, k4) =
        >>=-eq-ok (durable_claim json serde store max_events max_read request.claim) _ k3 in
      (claim, h4, ground arith)

  tenant_of :
      (request : AppendRequest V) (s : DurableStream)
      → durable_stream store request.stream ≡ ok s
      → (tenant : String) × (store.new_tenant request.stream.tenant ≡ ok tenant)
        × (s.tenant ≡ tenant)
  unfolding durable_stream
  tenant_of request s h =
      let (tenant, h1, k1) = >>=-eq-ok (store.new_tenant request.stream.tenant) _ h in
      (tenant, h1, keeps.own_tenant tenant _ _ s k1)

  -- A retry with enough rounds for the largest append: when an append of a claim was answered as
  -- committed, the same claim is found recorded right after it, and the stream, the events and the
  -- version found are those of the receipt.
  pub append-find_recorded :
      (fuel : ℕ) (request : AppendRequest V) (w w' : W) (receipt : AppendReceipt V)
      → max_events < fuel
      → request.claim.tenant ≡ request.stream.tenant
      → append json serde store max_events max_read request w ≡ (ok receipt, w')
      → receipt.disposition ≡ committed
      → find_recorded json serde store max_events max_read fuel request.claim w' ≡ (
        ok (
            some (record {
              stream = receipt.stream;
              events = receipt.events;
              through_version = receipt.through_version;
            })),
        w',
      )
  unfolding find_recorded
  append-find_recorded fuel request w w' receipt enough same_tenant h fresh =
      let a = append-Appended request w w' receipt h in
      let (claim, own_claim, kept_claim) = claim_of request a.meta a.own_meta in
      let (tenant, new_tenant, own_tenant) = tenant_of request a.stream a.own_stream in
      let new : a.result.deduplicated ≡ false = ground (arith, a.answered, fresh) in
      let (claimed, within, stands) =
        keeps.kept w w' a.stream (expected request.expected) a.events a.meta claim a.result a.done
          kept_claim new in
      let tenants : store.new_tenant request.claim.tenant ≡ ok tenant =
        ap (λ t. store.new_tenant t) same_tenant ∙ new_tenant in
      let indexed = rw own_tenant at claimed in
      let again =
        recorded_batch-kept json serde store max_events max_read content readable some_read fuel w'
          request.claim a.stream a.result.first_version a.result.last_version a.result.events
          a.recorded a.decoded within stands enough in
      let version =
        (recorded_intent-Answers json max_events request.claim a.result.events
          a.result.first_version a.result.last_version a.recorded a.decoded).own_version in
      let same : a.recorded ≡ record {
        stream = receipt.stream;
        events = receipt.events;
        through_version = receipt.through_version;
      } =
        λ i. record {
          stream = (ap (λ r. r.stream) (sym a.answered)) i;
          events = (ap (λ r. r.events) (sym a.answered)) i;
          through_version = (version ∙ ap (λ r. r.through_version) (sym a.answered)) i;
        } in
      rw (tenants, own_claim, indexed, again) (ap (λ r. (ok (some r), w')) same)
