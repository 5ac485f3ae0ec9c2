-- ===== src/Engine/Rows.antt =====
-- crates/service-engine/src/lib.rs: the projection rows of a state
-- (`projection_rows_for_partition`).
pub mod Inherit
use service_sdk.Base.{
  String, Bool, true, false, Option, none, some, List, [], ◌∷◌, ◌++◌, ◌&&◌, ◌==◌, any, find?,
  bind_option, if◌then◌else◌,
}
use service_sdk.Base.Maps.{Map, get, insert, values, contains}
use service_sdk.Engine.{EntityValue, ProjectionState, Json, first_instance, or_default}
use service_sdk.Engine.Ports.{ProjectionRow}
use service_sdk.Engine.Plans.{ViewPlan}
use service_sdk.Engine.Obligations.{ObligationUse, binding_or, binding_field, allows}

pub record KeyedProjectionRow (V : Type 0) : Type 0 where
  pub entity_key : String
  pub row : ProjectionRow V

-- What a child row takes from its parent.
pub record Inherited (V : Type 0) : Type 0 where
  pub child_owner : String
  pub owner : V
  pub child_scopes : String
  pub scopes : V

-- `obligation.bindings.get("parent").and_then(|parent| state.entities.get(parent))`
abbrev pub parents : {V : Type 0} → ProjectionState V → ObligationUse → Option (Map (EntityValue V))
parents state obligation =
    bind_option (get "parent" obligation.bindings) (λ parent. get parent state.entities)

module _ {V : Type 0} (json : Json V) (state : ProjectionState V) where
  -- The obligation hides the view, since an instance of the parent is in a terminal state.
  unfoldable pub hides : ObligationUse → Bool
  hides obligation =
      obligation.provider == "sdk.projection.hide-terminal-parent/v1"
      && any
          (λ entity.
            allows (binding_or obligation "terminal_states" "Archived,Expired") entity.state)
          (values (or_default (parents state obligation)))

  -- The row's value for a field of the entity.
  unfoldable pub copied : ViewPlan → String → EntityValue V → Map V → Map V
  copied view field entity out = elim (get field entity.fields) [
    | none ↦ out
    | some value ↦
        if contains field view.optional_fields && json.is_null value
        then out
        else insert field value out
  ]

  -- The loop over the fields of the view.
  unfoldable pub row_fields : ViewPlan → EntityValue V → List String → Map V → Map V
  row_fields view entity [] out = out
  row_fields view entity (field ∷ fields) out = row_fields view entity fields (
      if field == "state"
      then insert field (json.string entity.state) out
      else copied view field entity out)

  unfoldable pub inherited_authority : ObligationUse → Option (Inherited V)
  inherited_authority obligation =
      bind_option (first_instance (parents state obligation)) (λ parent.
        bind_option (binding_field obligation "parent_owner") (λ parent_owner.
          bind_option (binding_field obligation "parent_scopes") (λ parent_scopes.
            bind_option (binding_field obligation "child_owner") (λ child_owner.
              bind_option (binding_field obligation "child_scopes") (λ child_scopes.
                bind_option (get parent_owner parent.fields) (λ owner.
                  bind_option (get parent_scopes parent.fields) (λ scopes. some (record {
                    child_owner = child_owner;
                    owner = owner;
                    child_scopes = child_scopes;
                    scopes = scopes;
                  }))))))))

  abbrev pub inherits : ViewPlan → Option ObligationUse
  inherits view =
      find? (λ obligation. obligation.provider == "sdk.derive.inherit-parent-authority/v2")
        view.obligations

  abbrev pub with_authority : Map V → Inherited V → Map V
  with_authority value inherited =
      insert inherited.child_scopes inherited.scopes
        (insert inherited.child_owner inherited.owner value)

  -- The value of an entity's row; none where the parent's authority is not there.
  unfoldable pub row_value : ViewPlan → EntityValue V → Option (Map V)
  row_value view entity =
      let value = row_fields view entity view.fields [] in
      elim (inherits view) [
        | none ↦ some value
        | some obligation ↦
            bind_option (inherited_authority obligation) (λ i. some (with_authority value i))
      ]

  module _ (tenant : String) (realm : Option String) where
    -- The loop over the instances of the view's source.
    unfoldable pub instance_rows :
        String → ViewPlan → Map (EntityValue V) → List (KeyedProjectionRow V)
    instance_rows view_name view [] = []
    instance_rows view_name view ((key, entity) ∷ instances) =
        let rest = instance_rows view_name view instances in
        elim (row_value view entity) [
          | none ↦ rest
          | some value ↦
              record {
                entity_key = key;
                row = record {
                  view = view_name;
                  tenant = tenant;
                  realm = realm;
                  source_stream = none;
                  value = value;
                };
              }
              ∷ rest
        ]

    unfoldable pub view_rows : String → ViewPlan → List (KeyedProjectionRow V)
    view_rows view_name view =
        if any hides view.obligations
        then []
        else instance_rows view_name view (or_default (get view.source state.entities))

    unfoldable pub projection_rows_for_partition : Map ViewPlan → List (KeyedProjectionRow V)
    projection_rows_for_partition [] = []
    projection_rows_for_partition ((view_name, view) ∷ views) =
        view_rows view_name view ++ projection_rows_for_partition views
