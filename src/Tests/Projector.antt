-- ===== src/Tests/Projector.antt =====
-- One event through the projector of crates/service-eventlog/src/lib.rs.
use service_sdk.Base.{
  String, false, Option, none, some, [], ◌∷◌, ◌≡◌, refl, sym, ap, ◌∙◌, if◌then◌else◌,
}
use service_sdk.Base.Bytes.{Bytes}
use service_sdk.Base.Maps.{Map, get, insert}
use service_sdk.Base.Result.{ok}
use service_sdk.Base.Action.{pure-eq-ok}
use service_sdk.Engine.{
  EntityValue, ProjectionState, ExecutionError, reduce, reduce_entity, inherited, created_fields,
  event_fields,
}
use service_sdk.Engine.Rows.{projection_rows_for_partition, view_rows, instance_rows, row_value}
use service_sdk.Base.Text.{split_once}
use service_sdk.Base.Decimal.{parse_u64}
use service_sdk.Codec.{decode_stream_id, decode_framed}
use service_sdk.Adapter.{RecordedEvent, stream_type_of}
use service_sdk.Adapter.Store.{Serde}
use service_sdk.Adapter.Layout.{row_key}
use service_sdk.Adapter.Projector.{
  DurableProjectionStore, apply, apply_own, previous_state, delete_rows, upsert_rows, store_next,
}
use service_sdk.Adapter.Projector.Cells.{same_cell, IsTable}
use service_sdk.Adapter.Projector.Applied.{InSync, Applied, apply-Applied}
use service_sdk.Tests.Service.{Value, text, object_of, null_value, json, service}
use service_sdk.Tests.Adapter.{stored}

-- The cells as a function.
abbrev Cells : Type 0
Cells = String → String → String → Option Value

abbrev put : String → String → String → Option Value → Cells → Cells
put projection tenant key value cells projection' tenant' key' =
    if same_cell projection tenant key projection' tenant' key'
    then value
    else cells projection' tenant' key'

abbrev cell_store : DurableProjectionStore Cells Value
cell_store = record {
  get = λ projection tenant key cells. (ok (cells projection tenant key), cells);
  delete = λ projection tenant key cells. (ok tt, put projection tenant key none cells);
  upsert =
      λ projection tenant key value cells. (ok tt, put projection tenant key (some value) cells);
}

table : IsTable cell_store (λ cells. cells)
table = record {
  get-look = λ w w' projection tenant key found h.
      let (same, there) = pure-eq-ok (w projection tenant key) found w w' h in
      (sym same, sym there);
  delete-look = λ w w' projection tenant key h projection' tenant' key'.
      let (same, there) = pure-eq-ok tt tt (put projection tenant key none w) w' h in
      ap (λ (cells : Cells). cells projection' tenant' key') (sym there);
  upsert-look = λ w w' projection tenant key value h projection' tenant' key'.
      let (same, there) = pure-eq-ok tt tt (put projection tenant key (some value) w) w' h in
      ap (λ (cells : Cells). cells projection' tenant' key') (sym there);
}

-- A state of one entity with one text is written as an object.
abbrev write_entity : String → String → String → Map Value → Option Value
write_entity entity key state ((field, text value) ∷ []) = some (
    object_of (
      ("entity", entity)
      ∷ ("field", field)
      ∷ ("key", key)
      ∷ ("state", state)
      ∷ ("value", value)
      ∷ []))
write_entity entity key state _ = none

abbrev write_entities : Map (Map (EntityValue Value)) → Option Value
write_entities ((entity, (key, e) ∷ []) ∷ []) = write_entity entity key e.state e.fields
write_entities _ = none

abbrev state_of : String → String → String → String → String → ProjectionState Value
state_of entity field key state value = record {
  entities = (entity, (key, record { state = state; fields = (field, text value) ∷ [] }) ∷ []) ∷ [];
}

abbrev read_state : Value → Option (ProjectionState Value)
read_state (object_of ((a, entity) ∷ (b, field) ∷ (c, key) ∷ (d, state) ∷ (e, value) ∷ [])) =
    some (state_of entity field key state value)
read_state _ = none

abbrev serde : Serde Value
serde = record {
  object = λ m. null_value;
  of_events = λ events. some null_value;
  of_state = λ s. write_entities s.entities;
  to_state = read_state;
  of_row = λ row. some (text row.view);
  to_row = λ value. none;
}

read-write_entity :
    (entity key : String) (e : EntityValue Value) (v : Value) (fields : Map Value)
    → e.fields ≡ fields
    → write_entity entity key e.state fields ≡ some v
    → read_state v ≡ some (record { entities = (entity, (key, e) ∷ []) ∷ [] })
read-write_entity entity key e v [] p h = cc
read-write_entity entity key e v ((field, object_of m) ∷ []) p h = cc
read-write_entity entity key e v ((field, null_value) ∷ []) p h = cc
read-write_entity entity key e v ((field, text value) ∷ g ∷ fields) p h = cc
read-write_entity entity key e v ((field, object_of m) ∷ g ∷ fields) p h = cc
read-write_entity entity key e v ((field, null_value) ∷ g ∷ fields) p h = cc
read-write_entity entity key e v ((field, text value) ∷ []) p h =
    let written : Value = object_of (
      ("entity", entity)
      ∷ ("field", field)
      ∷ ("key", key)
      ∷ ("state", e.state)
      ∷ ("value", value)
      ∷ []) in
    let same : written ≡ v = cc in
    ap read_state (sym same)
    ∙ ap
        (λ fields. some (record {
          entities = (entity, (key, record { state = e.state; fields = fields }) ∷ []) ∷ [];
        }))
        (sym p)

read-write :
    (m : Map (Map (EntityValue Value))) (v : Value)
    → write_entities m ≡ some v
    → read_state v ≡ some (record { entities = m })
read-write [] v h = cc
read-write ((entity, []) ∷ m) v h = cc
read-write ((entity, (key, e) ∷ f ∷ es) ∷ m) v h = cc
read-write ((entity, (key, e) ∷ []) ∷ f ∷ m) v h = cc
read-write ((entity, (key, e) ∷ []) ∷ []) v h = read-write_entity entity key e v e.fields refl h

abbrev opened_event : RecordedEvent Value
opened_event = record stored { version = 1; name = "opened" }

abbrev same_bytes : Bytes → Bytes
same_bytes bytes = bytes

abbrev no_cells : Cells
no_cells projection tenant key = none

abbrev no_text : ExecutionError → String
no_text e = ""

abbrev after : Cells
after = (apply json serde same_bytes no_text service cell_store opened_event no_cells).1

applied :
    apply json serde same_bytes no_text service cell_store opened_event no_cells ≡ (ok tt, after)
unfolding apply apply_own stream_type_of decode_stream_id decode_framed split_once parse_u64
    previous_state delete_rows store_next upsert_rows reduce reduce_entity
    projection_rows_for_partition view_rows instance_rows row_value get inherited insert
    created_fields event_fields
applied = refl

abbrev identity : Option String × String × String
identity = (some "eu", "aggregate", "t1")

abbrev states :
    (s : ProjectionState Value) (v : Value) → serde.of_state s ≡ some v → serde.to_state v ≡ some s
states s v h = read-write s.entities v h

abbrev empty : ProjectionState Value
empty = record { entities = [] }

abbrev task_key : String
task_key = row_key same_bytes "tasks" (some "eu") "tasks" opened_event.stream_id "t1"

decoded : decode_stream_id opened_event.stream_id ≡ ok identity
unfolding decode_stream_id decode_framed split_once parse_u64
decoded = refl

in_sync :
    InSync json serde same_bytes no_text service cell_store
      (λ cells. cells)
      table
      states
      opened_event
      identity
      no_cells
      empty
      task_key
unfolding previous_state projection_rows_for_partition view_rows instance_rows get
in_sync = record { stored = refl; row = refl }

own_type : opened_event.stream_type ≡ stream_type_of service.service
unfolding stream_type_of
own_type = refl

apply-Applied_example :
    (opened_event.is_redacted ≡ false)
    × Applied json serde same_bytes no_text service cell_store
        (λ cells. cells)
        table
        states
        opened_event
        identity
        no_cells
        after
        empty
        task_key
apply-Applied_example =
    apply-Applied json serde same_bytes no_text service cell_store (λ cells. cells) table states
      opened_event identity no_cells after empty task_key own_type decoded in_sync applied
