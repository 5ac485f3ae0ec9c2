-- ===== src/Adapter/Projector.antt =====
-- crates/service-eventlog/src/lib.rs: `ServiceProjector`, which keeps the projections of a service
-- inside the append transaction.
pub mod Cells
pub mod Applied
use service_sdk.Base.{
  ℕ, String, Bool, true, false, Option, none, some, List, [], ◌∷◌, not, ◌==◌, if◌then◌else◌,
}
use service_sdk.Base.Bytes.{Bytes}
use service_sdk.Base.Result.{Result, ok, err, ok_or, map_err}
use service_sdk.Base.Action.{Action, pure, fail, lift, ◌>>=◌, ◌>>◌}
use service_sdk.Codec.{DecodeError, invalid_identity, invalid_realm, decode_stream_id}
use service_sdk.Effect.Journal.Store.{EventLogError, invalid}
use service_sdk.Engine.{ProjectionState, Json, ExecutionError, reduce}
use service_sdk.Engine.Ports.{ServiceStream, ProjectionRow}
use service_sdk.Engine.Plans.{ServicePlan}
use service_sdk.Engine.Rows.{KeyedProjectionRow, projection_rows_for_partition}
use service_sdk.Adapter.{RecordedEvent, stream_type_of}
use service_sdk.Adapter.Store.{Serde}
use service_sdk.Adapter.Layout.{for_service, row_key}

-- `DurableProjectionStore`, third-party code: the values of a projection under a tenant and a key.
pub record DurableProjectionStore (W V : Type 0) : Type 0 where
  pub get : String → String → String → Action W EventLogError (Option V)
  pub delete : String → String → String → Action W EventLogError (Unit {0})
  pub upsert : String → String → String → V → Action W EventLogError (Unit {0})

-- The messages of the decoder.
abbrev pub decode_message : DecodeError → EventLogError
decode_message invalid_identity = invalid "generated stream identity is invalid"
decode_message invalid_realm = invalid "generated realm identity is invalid"

abbrev pub invalid_state : EventLogError
invalid_state = invalid "generated projection state is invalid"

abbrev pub invalid_row : EventLogError
invalid_row = invalid "generated projection row is invalid"

-- `to_string` stands for the texts of `ExecutionError`.
module _ {W V : Type 0} (json : Json V) (serde : Serde V) (sha256 : Bytes → Bytes)
    (to_string : ExecutionError → String) (service : ServicePlan)
    (store : DurableProjectionStore W V) where
  -- `.transpose()..unwrap_or_default()`
  unfoldable pub previous_state : Option V → Result EventLogError (ProjectionState V)
  previous_state none = ok (record { entities = [] })
  previous_state (some value) = ok_or (serde.to_state value) invalid_state

  abbrev pub key_of_row : Option String → String → KeyedProjectionRow V → String
  key_of_row realm stream_id row =
      row_key sha256 service.service realm row.row.view stream_id row.entity_key

  -- `row.row.source_stream = Some(source_stream)`
  abbrev pub sourced : ServiceStream → KeyedProjectionRow V → ProjectionRow V
  sourced source row = record row.row { source_stream = some source }

  unfoldable pub delete_rows :
      String
      → Option String
      → String
      → List (KeyedProjectionRow V)
      → Action W EventLogError (Unit {0})
  delete_rows tenant realm stream_id [] = pure tt
  delete_rows tenant realm stream_id (row ∷ rows) =
      store.delete (for_service sha256 service.service).rows tenant (key_of_row realm stream_id row)
      >>= λ deleted. delete_rows tenant realm stream_id rows

  unfoldable pub upsert_rows :
      String
      → Option String
      → String
      → ServiceStream
      → List (KeyedProjectionRow V)
      → Action W EventLogError (Unit {0})
  upsert_rows tenant realm stream_id source [] = pure tt
  upsert_rows tenant realm stream_id source (row ∷ rows) =
      lift (ok_or (serde.of_row (sourced source row)) invalid_row) >>= λ value.
      store.upsert (for_service sha256 service.service).rows tenant (key_of_row realm stream_id row)
        value
      >>= λ stored. upsert_rows tenant realm stream_id source rows

  abbrev pub state_rows : String → Option String → ProjectionState V → List (KeyedProjectionRow V)
  state_rows tenant realm state =
      projection_rows_for_partition json state tenant realm service.views

  abbrev pub source_of : String → Option String × String × String → ServiceStream
  source_of tenant (realm, category, key) = record {
    service = service.service;
    tenant = tenant;
    realm = realm;
    category = category;
    key = key;
  }

  -- The state and the rows behind the event, over the rows of the state before it.
  unfoldable pub store_next :
      RecordedEvent V
      → Option String × String × String
      → ProjectionState V
      → Action W EventLogError (Unit {0})
  store_next event identity previous =
      lift (ok_or (json.as_object event.body) (invalid "generated event body is not an object"))
      >>= λ fields.
          lift (
            map_err (λ e. invalid (to_string e))
              (reduce json service.reducers previous
                (record { name = event.name; fields = fields })))
          >>= λ next. lift (ok_or (serde.of_state next) invalid_state) >>= λ value.
              store.upsert (for_service sha256 service.service).state event.tenant event.stream_id
                value
              >>= λ stored.
                  upsert_rows event.tenant identity.0 event.stream_id
                    (source_of event.tenant identity) (state_rows event.tenant identity.0 next)

  unfoldable pub apply_own : RecordedEvent V → Action W EventLogError (Unit {0})
  apply_own event = lift (map_err decode_message (decode_stream_id event.stream_id)) >>= λ identity.
      store.get (for_service sha256 service.service).state event.tenant event.stream_id >>= λ found.
      lift (previous_state found) >>= λ previous.
      delete_rows event.tenant identity.0 event.stream_id
        (state_rows event.tenant identity.0 previous)
      >>= λ deleted. store_next event identity previous

  unfoldable pub apply : RecordedEvent V → Action W EventLogError (Unit {0})
  apply event =
      if not (event.stream_type == stream_type_of service.service)
      then pure tt
      else if event.is_redacted
      then fail (invalid "a redacted generated-service event cannot drive a projection")
      else apply_own event
