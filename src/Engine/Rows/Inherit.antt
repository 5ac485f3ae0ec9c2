-- ===== src/Engine/Rows/Inherit.antt =====
-- The authority that a child's row shows: crates/service-engine/src/lib.rs,
-- `projection_rows_for_partition`.
use service_sdk.Base.{
  ◌≡◌, refl, sym, ap, ◌∙◌, Option, none, some, [], ◌==◌, arith, bind_option, if◌then◌else◌, eq_refl,
}
use service_sdk.Base.Maps.{Map, get, insert}
use service_sdk.Base.Maps.Laws.{get-insert}
use service_sdk.Engine.{EntityValue, ProjectionState, Json}
use service_sdk.Engine.Plans.{ViewPlan}
use service_sdk.Engine.Obligations.{ObligationUse}
use service_sdk.Engine.Rows.{
  Inherited, row_fields, inherited_authority, inherits, with_authority, row_value,
}

module _ {V : Type 0} (json : Json V) (state : ProjectionState V) where
  -- A row whose view inherits the authority of a parent shows the owner and the scopes that the
  -- parent has in that same state; the scopes stand where both have one field.
  pub row_value-live :
      (view : ViewPlan) (entity : EntityValue V) (obligation : ObligationUse) (value : Map V)
      → inherits json state view ≡ some obligation
      → row_value json state view entity ≡ some value
      → (i : Inherited V) × (inherited_authority json state obligation ≡ some i)
        × (get i.child_scopes value ≡ some i.scopes)
        × (get i.child_owner value
            ≡ some (if i.child_scopes == i.child_owner then i.scopes else i.owner))
  unfolding row_value
  row_value-live view entity obligation value p h =
      go (inherited_authority json state obligation) refl (rw (row_value, p) at h)
    where
      go :
          (o : Option (Inherited V))
          → inherited_authority json state obligation ≡ o
          → bind_option o (λ i.
            some (with_authority json state (row_fields json state view entity view.fields []) i))
            ≡ some value
          → (i : Inherited V) × (inherited_authority json state obligation ≡ some i)
            × (get i.child_scopes value ≡ some i.scopes)
            × (get i.child_owner value
                ≡ some (if i.child_scopes == i.child_owner then i.scopes else i.owner))
      go none q k = absurd (ground arith)
      go (some i) q k =
          let base = row_fields json state view entity view.fields [] in
          let same : with_authority json state base i ≡ value = ground arith in
          let outer =
            get-insert i.child_scopes i.child_scopes i.scopes (insert i.child_owner i.owner base) in
          let outer' =
            get-insert i.child_scopes i.child_owner i.scopes (insert i.child_owner i.owner base) in
          let inner = get-insert i.child_owner i.child_owner i.owner base in
          (
            i,
            q,
            ap (λ m. get i.child_scopes m) (sym same)
                ∙ ground (arith, outer, eq_refl i.child_scopes),
            ap (λ m. get i.child_owner m) (sym same)
                ∙ ground (arith, outer', inner, eq_refl i.child_owner),
          )
