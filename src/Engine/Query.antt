-- ===== src/Engine/Query.antt =====
-- crates/service-engine/src/lib.rs: `query` and `query_rows` of `ServiceEngine`.
pub mod Visible
use service_sdk.Base.{
  ℕ, String, Bool, true, false, Option, none, some, List, [], ◌∷◌, not, ◌&&◌, ◌||◌, ◌==◌, all, map,
  option_eq, bind_option, if◌then◌else◌,
}
use service_sdk.Base.Bytes.{Bytes}
use service_sdk.Base.Maps.{Map, get, insert, keys, values, contains, contains_key}
use service_sdk.Base.Result
use service_sdk.Base.Result.{Result, ok, err, ok_or, map_err}
use service_sdk.Base.Action.{Action, pure, fail, lift, ◌>>=◌, ◌>>◌}
use service_sdk.Runtime.Auth.{VerifiedAuthContext, enforce}
use service_sdk.Engine.{
  ReducerPlan, Json, ExecutionError, context_violation, unknown_operation, unknown_provider,
  invalid_plan, invalid_projection,
}
use service_sdk.Engine.Graph.{Pairs, insert_pair}
use service_sdk.Engine.Ports.{
  AuthorityCheck, owner_and_scopes, requested_scopes, ServiceStream, ProjectionRow,
  ServiceResources, port,
}
use service_sdk.Engine.Plans.{
  runtime, InputSource, selector_input, InputPlan, StreamPlan, command_field, generated_uuid_v7,
  ProducedEventPlan, IntentPlan, QueryPlan, ViewPlan, ServicePlan,
}
use service_sdk.Engine.Inputs.{decode_inputs}
use service_sdk.Engine.Claim.{category}
use service_sdk.Engine.Obligations.{ObligationUse, binding}

pub record AuthorizedProjectionRow (V : Type 0) : Type 0 where
  pub value : Map V
  pub source_stream : Option ServiceStream

-- The view field that an input selects by.
abbrev pub view_field : InputSource → Option String
view_field (selector_input field) = some field
view_field _ = none

-- `row.get("parent_state").and_then(Value::as_str).is_some_and(..)`
abbrev pub is_terminal : Option String → Bool
is_terminal none = false
is_terminal (some state) = state == "Archived" || state == "Expired"

-- The reducer of one produced event, if it makes entities of the view's source.
abbrev pub reduces : ViewPlan → Option ReducerPlan → Option ReducerPlan
reduces view none = none
reduces view (some reducer) = if reducer.entity == view.source then some reducer else none

abbrev pub stream_field : StreamPlan → ReducerPlan → String
stream_field (command_field field) reducer = field
stream_field generated_uuid_v7 reducer = reducer.identity_field

-- The one candidate, if there is one alone.
abbrev pub only : Pairs → Option (String × String)
only (candidate ∷ []) = some candidate
only _ = none

unfoldable pub selectors_into : {V : Type 0} → List InputPlan → Map V → Map V → Map V
selectors_into [] decoded out = out
selectors_into (input ∷ inputs) decoded out =
    let rest = selectors_into inputs decoded in
    elim (view_field input.source) [
      | none ↦ rest out
      | some field ↦ elim (get input.name decoded) [
        | none ↦ rest out
        | some value ↦ rest (insert field value out)
      ]
    ]

-- `json_equal` stands for the equality of JSON values that does not depend on how numbers are
-- written.
module _ {W V : Type 0} (json : Json V) (json_equal : V → V → Bool)
    (resources : ServiceResources W V) (context : VerifiedAuthContext) where
  unfoldable pub exact_partition : QueryPlan → ProjectionRow V → Bool
  exact_partition query row =
      row.view == query.view && row.tenant == context.tenant && option_eq row.realm context.realm

  -- The row's value of the field is JSON `null`.
  abbrev pub holds_null : Option V → Bool
  holds_null none = false
  holds_null (some value) = json.is_null value

  unfoldable pub exact_shape : ViewPlan → Map V → Bool
  exact_shape view value =
      all (λ field. contains field view.fields) (keys value)
      && all (λ field. contains field view.optional_fields || contains_key field value) view.fields
      && all (λ field. not (holds_null (get field value))) view.optional_fields

  -- The row has a value for the field, equal to the expected one.
  abbrev pub selects : Option V → V → Bool
  selects none expected = false
  selects (some value) expected = json_equal value expected

  unfoldable pub exact_selection : Map V → Map V → Bool
  exact_selection selectors value =
      all (λ selector. selects (get selector.0 value) selector.1) selectors

  unfoldable pub validate_projection_row :
      QueryPlan → ViewPlan → Map V → ProjectionRow V → Result ExecutionError (Unit {0})
  validate_projection_row query view selectors row =
      if exact_partition query row
        && exact_shape view row.value
        && exact_selection selectors row.value
      then ok tt
      else err invalid_projection

  -- The question that an obligation puts about a row.
  owner_question : ObligationUse → Map V → Result ExecutionError (AuthorityCheck V)
  owner_question obligation row = Result.◌>>=◌ (binding obligation "owner") (λ owner_field.
      Result.◌>>=◌ (ok_or (get owner_field row) (invalid_plan "projection owner")) (λ owner.
        Result.◌>>=◌ (binding obligation "scopes") (λ scopes_field.
          Result.◌>>=◌ (ok_or (get scopes_field row) (invalid_plan "projection scopes"))
            (λ scopes. ok (owner_and_scopes owner scopes)))))

  scopes_question : ObligationUse → Map V → Result ExecutionError (AuthorityCheck V)
  scopes_question obligation row = Result.◌>>=◌ (binding obligation "scopes") (λ scopes_field.
      Result.◌>>=◌ (ok_or (get scopes_field row) (invalid_plan "projection scopes"))
        (λ scopes. ok (requested_scopes scopes)))

  -- The arms of the match on the provider: whether the obligation lets the row be seen.
  unfoldable pub row_visible : Map V → ObligationUse → Action W ExecutionError Bool
  unfolding owner_question scopes_question
  row_visible row obligation =
      if obligation.provider == "sdk.projection.auth-partitioned-visibility/v1"
        || obligation.provider == "sdk.auth.owner-and-conjunctive-scopes/v1"
      then (lift (owner_question obligation row) >>= λ check.
          port (resources.allowed context check))
      else if obligation.provider == "sdk.projection.conjunctive-scopes-visibility/v1"
      then (lift (scopes_question obligation row) >>= λ check.
          port (resources.allowed context check))
      else if obligation.provider == "sdk.projection.hide-terminal-parent/v1"
      then pure (not (is_terminal (bind_option (get "parent_state" row) (λ v. json.as_str v))))
      else fail (unknown_provider obligation.provider)

  unfoldable pub query_visible : List ObligationUse → Map V → Action W ExecutionError Bool
  query_visible [] row = pure true
  query_visible (obligation ∷ obligations) row = do
    visible ← row_visible row obligation
    if visible then query_visible obligations row else pure false

  module _ (service : ServicePlan) where
    -- The candidates that the events of one intent give.
    unfoldable pub event_sources :
        IntentPlan → ViewPlan → Map V → List ProducedEventPlan → Pairs → Pairs
    event_sources intent view value [] candidates = candidates
    event_sources intent view value (produced ∷ events) candidates =
        let key = bind_option (reduces view (get produced.event service.reducers)) (λ reducer.
          bind_option (get (stream_field intent.stream reducer) value) (λ v. json.as_str v)) in
        event_sources intent view value events (elim key [
          | none ↦ candidates
          | some key ↦ insert_pair (category intent.obligations, key) candidates
        ])

    unfoldable pub source_candidates : List IntentPlan → ViewPlan → Map V → Pairs → Pairs
    source_candidates [] view value candidates = candidates
    source_candidates (intent ∷ intents) view value candidates =
        source_candidates intents view value
          (event_sources intent view value intent.outcome.events candidates)

    unfoldable pub projection_source_from_value : ViewPlan → Map V → Option ServiceStream
    projection_source_from_value view value =
        bind_option (only (source_candidates (values service.intents) view value [])) (λ candidate.
          some (record {
            service = service.service;
            tenant = context.tenant;
            realm = context.realm;
            category = candidate.0;
            key = candidate.1;
          }))

    abbrev pub row_source : Option ServiceStream → ViewPlan → Map V → Option ServiceStream
    row_source (some stream) view value = some stream
    row_source none view value = projection_source_from_value view value

    -- The loop over the rows of the projection.
    unfoldable pub visible_rows :
        QueryPlan
        → ViewPlan
        → Map V
        → List (ProjectionRow V)
        → Action W ExecutionError (List (AuthorizedProjectionRow V))
    visible_rows query view selectors [] = pure []
    visible_rows query view selectors (row ∷ rows) = do
      lift (validate_projection_row query view selectors row)
      visible ← query_visible query.obligations row.value
      rest ← visible_rows query view selectors rows
      pure (
          if visible
          then record {
            value = row.value;
            source_stream = row_source row.source_stream view row.value;
          }
            ∷ rest
          else rest)

    unfoldable pub query_rows :
        (Bytes → Option V)
        → String
        → Bytes
        → Action W ExecutionError (List (AuthorizedProjectionRow V))
    query_rows from_slice operation body = do
      lift (map_err context_violation (enforce (runtime service.realm) context))
      plan ← lift (ok_or (get operation service.queries) (unknown_operation operation))
      decoded ← lift (decode_inputs json from_slice plan.inputs body)
      let selectors = selectors_into plan.inputs decoded []
      rows ← port (
          resources.query (record {
            view = plan.view;
            tenant = context.tenant;
            realm = context.realm;
            selectors = selectors;
          }))
      view ← lift (ok_or (get plan.view service.views) (invalid_plan plan.view))
      visible_rows plan view selectors rows

    unfoldable pub query :
        (Bytes → Option V) → String → Bytes → Action W ExecutionError (List (Map V))
    query from_slice operation body = do
      rows ← query_rows from_slice operation body
      pure (map (λ row. row.value) rows)
