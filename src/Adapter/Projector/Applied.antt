-- ===== src/Adapter/Projector/Applied.antt =====
-- The projections of a stream stay those of its folded state: crates/service-eventlog/src/lib.rs,
-- `ServiceProjector::apply`.
use service_sdk.Base.{
  String, true, false, Option, none, some, List, ◌≡◌, ◌≢◌, inl, inr, sym, ◌∙◌, ap, ◌==◌, Bool-cases,
  arith, eq_iff, eq_refl,
}
use service_sdk.Base.Bytes.{Bytes}
use service_sdk.Base.Maps.{Map}
use service_sdk.Base.Result.{Result, ok, ok_or, map_err, map_err-eq-ok}
use service_sdk.Base.Action.{step-eq-ok, lift-eq-ok, lift-ok_or-eq-ok}
use service_sdk.Codec.{decode_stream_id}
use service_sdk.Effect.Journal.Store.{EventLogError, invalid}
use service_sdk.Engine.{DomainEvent, ProjectionState, Json, ExecutionError, reduce}
use service_sdk.Engine.Plans.{ServicePlan}
use service_sdk.Engine.Rows.{KeyedProjectionRow}
use service_sdk.Adapter.{RecordedEvent, stream_type_of}
use service_sdk.Adapter.Store.{Serde}
use service_sdk.Adapter.Layout.{for_service, for_service-apart}
use service_sdk.Adapter.Projector.{
  DurableProjectionStore, invalid_state, previous_state, delete_rows, state_rows, source_of,
  store_next, apply_own, apply,
}
use service_sdk.Adapter.Projector.Cells.{
  IsTable, after_deletes, after_upserts, look-delete_rows, look-upsert_rows,
  after_deletes-after_upserts,
}

module _ {W V : Type 0} (json : Json V) (serde : Serde V) (sha256 : Bytes → Bytes)
    (to_string : ExecutionError → String) (service : ServicePlan)
    (store : DurableProjectionStore W V) (look : W → String → String → String → Option V)
    (table : IsTable store look)
    (states : (s : ProjectionState V) (v : V)
      → serde.of_state s ≡ some v
      → serde.to_state v ≡ some s)
    (event : RecordedEvent V) (identity : Option String × String × String) where
  abbrev state_name : String
  state_name = (for_service sha256 service.service).state

  abbrev row_name : String
  row_name = (for_service sha256 service.service).rows

  abbrev rows : ProjectionState V → List (KeyedProjectionRow V)
  rows state = state_rows json serde sha256 to_string service store event.tenant identity.0 state

  -- The value that the rows of a state have under a key.
  abbrev pub row_at : ProjectionState V → String → Option V
  row_at state key =
      after_upserts json serde sha256 to_string service store look table event.tenant identity.0
        event.stream_id (source_of json serde sha256 to_string service store event.tenant identity)
        key (rows state) none

  -- The store has the state for the stream, and under the key the state's row, or none if the state
  -- has no such row.
  pub record InSync (w : W) (state : ProjectionState V) (key : String) : Type 0 where
    pub stored :
        previous_state json serde sha256 to_string service store
          (look w state_name event.tenant event.stream_id)
        ≡ ok state
    pub row : look w row_name event.tenant key ≡ row_at state key

  names_apart : (row_name == state_name) ≡ false
  names_apart = elim (Bool-cases (row_name == state_name)) [
    | inl same ↦
        absurd
          (for_service-apart sha256 service.service (sym ((eq_iff row_name state_name).0 same)))
    | inr apart ↦ apart
  ]

  names_apart' : (state_name == row_name) ≡ false
  names_apart' = elim (Bool-cases (state_name == row_name)) [
    | inl same ↦
        absurd (for_service-apart sha256 service.service ((eq_iff state_name row_name).0 same))
    | inr apart ↦ apart
  ]

  same_state :
      (s t : ProjectionState V)
      → ◌≡◌ {A = Result EventLogError (ProjectionState V)} (ok s) (ok t)
      → s ≡ t
  same_state s t h = ground arith

  abbrev own_event : Map V → DomainEvent V
  own_event fields = record { name = event.name; fields = fields }

  -- The next state, and the store behind the event.
  pub record Applied (w w' : W) (state : ProjectionState V) (key : String) : Type 0 where
    pub fields : Map V
    pub body : json.as_object event.body ≡ some fields
    pub next : ProjectionState V
    pub reduced : reduce json service.reducers state (own_event fields) ≡ ok next
    pub in_sync : InSync w' next key
    pub others :
        (projection tenant key' : String)
        → event.tenant ≢ tenant
        → look w' projection tenant key' ≡ look w projection tenant key'

  store_next-Applied :
      (w w' : W) (previous : ProjectionState V) (key : String)
      → look w row_name event.tenant key ≡ none
      → store_next json serde sha256 to_string service store event identity previous w ≡ (ok tt, w')
      → Applied w w' previous key
  unfolding store_next previous_state
  store_next-Applied w w' previous key gone h =
      let tenant = event.tenant in
      let (fields, h1, k1) = lift-ok_or-eq-ok (json.as_object event.body) _ _ w h in
      let (next, h2, k2) =
        lift-eq-ok
          (map_err (λ e. invalid (to_string e))
            (reduce json service.reducers previous (own_event fields)))
          _ w k1 in
      let (value, h3, k3) = lift-ok_or-eq-ok (serde.of_state next) invalid_state _ w k2 in
      let (done, v, h4, k4) =
        step-eq-ok (store.upsert state_name tenant event.stream_id value) _ w k3 in
      let one = table.upsert-look w v state_name tenant event.stream_id value h4 in
      let rest =
        look-upsert_rows json serde sha256 to_string service store look table tenant identity.0
          event.stream_id (source_of json serde sha256 to_string service store tenant identity)
          (rows next) v w' k4 in
      let kept_state : look w' state_name tenant event.stream_id ≡ some value = ground (
        arith,
        rest state_name tenant event.stream_id,
        one state_name tenant event.stream_id,
        names_apart,
        eq_refl state_name,
        eq_refl tenant,
        eq_refl event.stream_id,
      ) in
      let before : look v row_name tenant key ≡ none =
        ground (arith, one row_name tenant key, names_apart', gone) in
      let own_row : look w' row_name tenant key ≡ row_at next key =
        ground (arith, rest row_name tenant key, before, eq_refl row_name, eq_refl tenant) in
      record {
        fields = fields;
        body = h1;
        next = next;
        reduced = map_err-eq-ok _ (reduce json service.reducers previous (own_event fields)) h2;
        in_sync = record {
          stored =
              ap (λ o. previous_state json serde sha256 to_string service store o) kept_state
              ∙ ap (λ o. ok_or o invalid_state) (states next value h3);
          row = own_row;
        };
        others = λ projection tenant' key' differs. ground (
          arith,
          rest projection tenant' key',
          one projection tenant' key',
          eq_iff tenant tenant',
          differs,
        );
      }

  apply_own-Applied :
      (w w' : W) (state : ProjectionState V) (key : String)
      → decode_stream_id event.stream_id ≡ ok identity
      → InSync w state key
      → apply_own json serde sha256 to_string service store event w ≡ (ok tt, w')
      → Applied w w' state key
  unfolding apply_own
  apply_own-Applied w w' state key decoded sync h =
      let tenant = event.tenant in
      let (found, v, h1, k1) =
        step-eq-ok (store.get state_name tenant event.stream_id) _ w (rw decoded at h) in
      let (is_found, same) = table.get-look w v state_name tenant event.stream_id found h1 in
      let (previous, h2, k2) =
        lift-eq-ok (previous_state json serde sha256 to_string service store found) _ v k1 in
      let known : previous ≡ state = same_state previous state (
        sym h2
        ∙ ap (λ o. previous_state json serde sha256 to_string service store o) is_found
        ∙ sync.stored) in
      let k3 = rw (known, same) at k2 in
      let (done, u, h4, k4) =
        step-eq-ok
          (delete_rows json serde sha256 to_string service store tenant identity.0 event.stream_id
            (rows state))
          _ w k3 in
      let cleared =
        look-delete_rows json serde sha256 to_string service store look table tenant identity.0
          event.stream_id (source_of json serde sha256 to_string service store tenant identity)
          (rows state) w u h4 in
      let source = source_of json serde sha256 to_string service store tenant identity in
      let there : look u row_name tenant key
          ≡ after_deletes json serde sha256 to_string service store look table tenant identity.0
              event.stream_id source key (rows state) (look w row_name tenant key) =
        ground (arith, cleared row_name tenant key, eq_refl row_name, eq_refl tenant) in
      let gone : look u row_name tenant key ≡ none =
        there
        ∙ ap
            (λ o.
              after_deletes json serde sha256 to_string service store look table tenant identity.0
                event.stream_id source key (rows state) o)
            sync.row
        ∙ after_deletes-after_upserts json serde sha256 to_string service store look table tenant
            identity.0 event.stream_id source key (rows state) in
      let after = store_next-Applied u w' state key gone k4 in
      record {
        fields = after.fields;
        body = after.body;
        next = after.next;
        reduced = after.reduced;
        in_sync = after.in_sync;
        others = λ projection tenant' key' differs.
            after.others projection tenant' key' differs
            ∙ ground (arith, cleared projection tenant' key', eq_iff tenant tenant', differs);
      }

  -- Over a store of cells and a serde that reads back the states it writes: when the projector
  -- applies an event of its service and the projections of the stream are in step with a state, the
  -- event's body is an object, the reducers take the event, the projections are in step with the
  -- reduced state, under every key, and no cell of another tenant changes.
  pub apply-Applied :
      (w w' : W) (state : ProjectionState V) (key : String)
      → event.stream_type ≡ stream_type_of service.service
      → decode_stream_id event.stream_id ≡ ok identity
      → InSync w state key
      → apply json serde sha256 to_string service store event w ≡ (ok tt, w')
      → (event.is_redacted ≡ false) × Applied w w' state key
  unfolding apply apply_own store_next
  apply-Applied w w' state key own decoded sync h =
      let tenant = event.tenant in
      let typed : (event.stream_type == stream_type_of service.service) ≡ true =
        (eq_iff event.stream_type (stream_type_of service.service)).1 own in
      elim (Bool-cases event.is_redacted) [
        | inl redacted ↦ cc (rw (typed, redacted) at h)
        | inr live ↦ (live, apply_own-Applied w w' state key decoded sync (rw (typed, live) at h))
      ]
