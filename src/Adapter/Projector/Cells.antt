-- ===== src/Adapter/Projector/Cells.antt =====
-- What the loops of `ServiceProjector::apply` leave in each cell of the projections:
-- crates/service-eventlog/src/lib.rs.
use service_sdk.Base.{
  String, Bool, Option, none, some, List, [], ◌∷◌, ◌≡◌, ◌⊎◌, inl, inr, refl, ◌∙◌, ◌==◌, ◌&&◌,
  if◌then◌else◌, Bool-cases, arith,
}
use service_sdk.Base.Bytes.{Bytes}
use service_sdk.Base.Result.{ok}
use service_sdk.Base.Action.{step-eq-ok, lift-ok_or-eq-ok, pure-eq-ok}
use service_sdk.Engine.{Json, ExecutionError}
use service_sdk.Engine.Ports.{ServiceStream}
use service_sdk.Engine.Plans.{ServicePlan}
use service_sdk.Engine.Rows.{KeyedProjectionRow}
use service_sdk.Adapter.Store.{Serde}
use service_sdk.Adapter.Layout.{for_service}
use service_sdk.Adapter.Projector.{
  DurableProjectionStore, invalid_row, key_of_row, sourced, delete_rows, upsert_rows,
}

abbrev pub same_cell : String → String → String → String → String → String → Bool
same_cell projection tenant key projection' tenant' key' =
    projection == projection' && (tenant == tenant' && key == key')

-- What the store documents of its operations that succeed: a read returns the cell, a deletion and a
-- write change one cell. `look` is what the cells hold.
pub record IsTable {W V : Type 0} (store : DurableProjectionStore W V)
    (look : W → String → String → String → Option V) : Type 0 where
  pub get-look :
      (w w' : W) (projection tenant key : String) (found : Option V)
      → store.get projection tenant key w ≡ (ok found, w')
      → (found ≡ look w projection tenant key) × (w' ≡ w)
  pub delete-look :
      (w w' : W) (projection tenant key : String)
      → store.delete projection tenant key w ≡ (ok tt, w')
      → (projection' tenant' key' : String)
      → look w' projection' tenant' key' ≡ (
          if same_cell projection tenant key projection' tenant' key'
          then none
          else look w projection' tenant' key')
  pub upsert-look :
      (w w' : W) (projection tenant key : String) (value : V)
      → store.upsert projection tenant key value w ≡ (ok tt, w')
      → (projection' tenant' key' : String)
      → look w' projection' tenant' key' ≡ (
          if same_cell projection tenant key projection' tenant' key'
          then some value
          else look w projection' tenant' key')

module _ {W V : Type 0} (json : Json V) (serde : Serde V) (sha256 : Bytes → Bytes)
    (to_string : ExecutionError → String) (service : ServicePlan)
    (store : DurableProjectionStore W V) (look : W → String → String → String → Option V)
    (table : IsTable store look) (tenant : String) (realm : Option String) (stream_id : String)
    (source : ServiceStream) where
  abbrev row_name : String
  row_name = (for_service sha256 service.service).rows

  abbrev own_key : KeyedProjectionRow V → String
  own_key row = key_of_row json serde sha256 to_string service store realm stream_id row

  -- A cell of the rows' projection behind the deletions and behind the writes.
  abbrev pub after_deletes : String → List (KeyedProjectionRow V) → Option V → Option V
  after_deletes key [] old = old
  after_deletes key (row ∷ rows) old =
      after_deletes key rows (if own_key row == key then none else old)

  abbrev pub after_upserts : String → List (KeyedProjectionRow V) → Option V → Option V
  after_upserts key [] old = old
  after_upserts key (row ∷ rows) old = after_upserts key rows (
      if own_key row == key
      then serde.of_row (sourced json serde sha256 to_string service store source row)
      else old)

  pub look-delete_rows :
      (rows : List (KeyedProjectionRow V)) (w w' : W)
      → delete_rows json serde sha256 to_string service store tenant realm stream_id rows w
        ≡ (ok tt, w')
      → (projection tenant' key : String)
      → look w' projection tenant' key ≡ (
          if row_name == projection && tenant == tenant'
          then after_deletes key rows (look w projection tenant' key)
          else look w projection tenant' key)
  unfolding delete_rows
  look-delete_rows [] w w' h projection tenant' key =
      let (same, there) = pure-eq-ok tt tt w w' h in rw there (ground arith)
  look-delete_rows (row ∷ rows) w w' h projection tenant' key =
      let (done, v, h1, k1) = step-eq-ok (store.delete row_name tenant (own_key row)) _ w h in
      let one = table.delete-look w v row_name tenant (own_key row) h1 projection tenant' key in
      let rest = look-delete_rows rows v w' k1 projection tenant' key in ground (arith, one, rest)

  pub look-upsert_rows :
      (rows : List (KeyedProjectionRow V)) (w w' : W)
      → upsert_rows json serde sha256 to_string service store tenant realm stream_id source rows w
        ≡ (ok tt, w')
      → (projection tenant' key : String)
      → look w' projection tenant' key ≡ (
          if row_name == projection && tenant == tenant'
          then after_upserts key rows (look w projection tenant' key)
          else look w projection tenant' key)
  unfolding upsert_rows
  look-upsert_rows [] w w' h projection tenant' key =
      let (same, there) = pure-eq-ok tt tt w w' h in rw there (ground arith)
  look-upsert_rows (row ∷ rows) w w' h projection tenant' key =
      let (value, h1, k1) =
        lift-ok_or-eq-ok
          (serde.of_row (sourced json serde sha256 to_string service store source row)) invalid_row
          _ w h in
      let (done, v, h2, k2) =
        step-eq-ok (store.upsert row_name tenant (own_key row) value) _ w k1 in
      let one =
        table.upsert-look w v row_name tenant (own_key row) value h2 projection tenant' key in
      let rest = look-upsert_rows rows v w' k2 projection tenant' key in
      ground (arith, one, rest, h1)

  -- Whether a key is one of the rows'.
  fate :
      (key : String) (rows : List (KeyedProjectionRow V)) (old : Option V)
      → (after_deletes key rows old ≡ none)
        ⊎ ((after_deletes key rows old ≡ old) × ((o : Option V) → after_upserts key rows o ≡ o))
  fate key [] old = inr (refl, λ o. refl)
  fate key (row ∷ rows) old = elim (Bool-cases (own_key row == key)) [
    | inl own ↦ elim (fate key rows none) [
      | inl gone ↦ inl (rw own gone)
      | inr (kept, others) ↦ inl (rw own kept)
    ]
    | inr other ↦ elim (fate key rows old) [
      | inl gone ↦ inl (rw other gone)
      | inr (kept, others) ↦ inr (rw other kept, λ o. rw other (others o))
    ]
  ]

  -- Deleting the rows of a state takes away all that writing them had put there.
  pub after_deletes-after_upserts :
      (key : String) (rows : List (KeyedProjectionRow V))
      → after_deletes key rows (after_upserts key rows none) ≡ none
  after_deletes-after_upserts key rows = elim (fate key rows (after_upserts key rows none)) [
    | inl gone ↦ gone
    | inr (kept, others) ↦ kept ∙ others none
  ]
