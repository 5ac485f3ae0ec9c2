-- ===== src/Tests/Intents.antt =====
-- An intent and a query at concrete values: crates/service-engine/src/lib.rs.
use service_sdk.Base.{
  ℕ, ◌<◌, String, Bool, false, Option, none, some, List, [], ◌∷◌, map, length, All, ◌≡◌, ◌↔◌, refl,
  ◌==◌,
}
use service_sdk.Base.Text.{is_blank, rsplit_once}
use service_sdk.Engine.Graph.{insert_pair}
use service_sdk.Base.Bytes.Hex.{hex}
use service_sdk.Base.Maps.{Map, get, insert, contains}
use service_sdk.Base.Result.{Result, ok, err}
use service_sdk.Runtime.Auth.{enforce}
use service_sdk.Engine.{
  DomainEvent, ProjectionState, EntityValue, missing_input, event_fields, inherited, created_fields,
  reduce_entity, reduce, reduce_all, misnumbered, fold,
}
use service_sdk.Engine.Ports.{
  ResourceError, IntentClaimRequest, ProjectionRow, IntentResult, RequestMetadata,
}
use service_sdk.Engine.Plans.{runtime, IntentPlan, QueryPlan, ViewPlan}
use service_sdk.Engine.Inputs.{
  require_inputs, command_inputs_into, decode_inputs, expected_version, idempotency_value,
  idempotency,
}
use service_sdk.Engine.Events.{preview, field_value, event_values, planned_events, produce_events}
use service_sdk.Engine.Events.Produced.{extend, produce_events-foldable}
use service_sdk.Engine.Obligations.{ObligationUse, binding, binding_field}
use service_sdk.Engine.Obligations.Authorization.{
  authority_check, require_authority, run_intent_authorization,
}
use service_sdk.Engine.Obligations.Authorization.Allowed.{Allowed, run_intent_authorization-Allowed}
use service_sdk.Engine.Obligations.Run.{enforce_obligation, enforce_all, run_intent_obligations}
use service_sdk.Engine.Rows.{copied, row_fields, inherited_authority, row_value}
use service_sdk.Engine.Claim.{category, command_key, claimed_key, decided_key, intent_claim}
use service_sdk.Engine.Stage.{or_abandon, stage_input, stage_all, accept_all}
use service_sdk.Engine.Intent.{
  publish, finish, commit_decision, decide_intent, or_recorded, decide_once, intent,
}
use service_sdk.Engine.Intent.Authorized.{Authorized, intent-Authorized}
use service_sdk.Engine.Intent.Decided.{decide_intent-Decided}
use service_sdk.Engine.Intent.Course.{Decided}
use service_sdk.Engine.Query.{
  AuthorizedProjectionRow, selectors_into, exact_partition, exact_shape, exact_selection,
  validate_projection_row, row_visible, query_visible, event_sources, source_candidates,
  projection_source_from_value, visible_rows, query_rows,
}
use service_sdk.Engine.Query.Visible.{Shown, query_rows-Shown}
use service_sdk.Tests.Service.{
  Value, text, object_of, json, snapshots, history, task_state, context, scheduled, close_plan,
  task_view, service, codec, resources,
}

abbrev instant : String → Option ℕ
instant t = none

abbrev decoded : Map Value
decoded = ("task_id", text "t1") ∷ []

abbrev closed : DomainEvent Value
closed = record { name = "closed"; fields = ("task_id", text "t1") ∷ [] }

abbrev metadata : RequestMetadata
metadata = record { request_id = some "r1" }

decodes : decode_inputs json codec.from_slice close_plan.inputs [] ≡ ok decoded
unfolding decode_inputs require_inputs contains get
decodes = refl

missing :
    decode_inputs json (λ body. some (object_of [])) close_plan.inputs []
    ≡ err (missing_input "task_id")
unfolding decode_inputs require_inputs contains get
missing = refl

run_intent_authorization-Allowed_example :
    (run_intent_authorization json resources context task_state decoded (scheduled ∷ []) 4
      ≡ (ok tt, 5))
    ↔ Allowed json resources context task_state decoded (scheduled ∷ []) 4 5
run_intent_authorization-Allowed_example =
    run_intent_authorization-Allowed json resources context task_state decoded (scheduled ∷ []) 4 5

folds : fold json service.reducers history ≡ ok task_state
unfolding fold reduce_all reduce reduce_entity inherited created_fields event_fields misnumbered get
    insert
folds = refl

produces :
    produce_events json snapshots resources context "t1" decoded task_state service.reducers
      close_plan.outcome.events 7
    ≡ (ok (closed ∷ []), 7)
unfolding produce_events planned_events event_values field_value preview reduce reduce_entity
    inherited created_fields event_fields get insert contains
produces = refl

produce_events-foldable_example :
    (0 < length (closed ∷ []))
    × (map (λ e. e.name) (closed ∷ []) ≡ map (λ p. p.event) close_plan.outcome.events)
    × (final : ProjectionState Value) × (fold json service.reducers (extend history (closed ∷ []))
        ≡ ok final)
produce_events-foldable_example =
    produce_events-foldable json snapshots resources context "t1" decoded task_state
      service.reducers close_plan.outcome.events (closed ∷ []) 7 7 history folds produces

abbrev claim : IntentClaimRequest
claim = record {
  tenant = "acme";
  service = "tasks";
  realm = some "eu";
  category = "aggregate";
  stream_key = some "t1";
  key = "r1";
  digest = "02";
}

abbrev result : IntentResult Value
result = record {
  outcome = "closed";
  events = closed ∷ [];
  through_version = 2;
  was_replayed = false;
}

decides :
    decide_intent json resources service context snapshots instant metadata close_plan decoded claim
      1
    ≡ (ok result, 7)
unfolding decide_intent commit_decision finish publish decided_key command_key or_abandon stage_all
    stage_input accept_all category idempotency idempotency_value expected_version is_blank
    command_inputs_into run_intent_obligations run_intent_authorization authority_check binding
    require_authority enforce_all enforce_obligation produce_events planned_events event_values
    field_value preview fold reduce_all reduce reduce_entity inherited created_fields event_fields
    misnumbered get insert contains
decides = refl

decide_intent-Decided_example :
    Decided json snapshots instant codec resources service context metadata close_plan decoded claim
      1 7 result
decide_intent-Decided_example =
    decide_intent-Decided json snapshots instant codec resources service context metadata close_plan
      decoded claim 1 7 result decides

answers :
    intent json resources service context snapshots instant codec metadata "close" [] 0
    ≡ (ok result, 7)
unfolding intent intent_claim claimed_key decode_inputs require_inputs enforce hex decide_once
    or_recorded decide_intent commit_decision finish publish decided_key command_key or_abandon
    stage_all stage_input accept_all category idempotency idempotency_value expected_version
    is_blank command_inputs_into run_intent_obligations run_intent_authorization authority_check
    binding require_authority enforce_all enforce_obligation produce_events planned_events
    event_values field_value preview fold reduce_all reduce reduce_entity inherited created_fields
    event_fields misnumbered get insert contains
answers = refl

intent-Authorized_example :
    (enforce (runtime service.realm) context ≡ ok tt)
    × (plan : IntentPlan) × (get "close" service.intents ≡ some plan)
    × (d : Map Value) × (decode_inputs json codec.from_slice plan.inputs [] ≡ ok d)
    × Authorized json snapshots instant codec resources service context metadata plan "close" d
        result
intent-Authorized_example =
    intent-Authorized json snapshots instant codec resources service context metadata "close" [] 0 7
      result answers

abbrev same_text : Value → Value → Bool
same_text (text s) (text t) = s == t
same_text _ _ = false

abbrev shown : Map Value
shown = ("state", text "Active") ∷ ("task_id", text "t1") ∷ []

abbrev listed : List (AuthorizedProjectionRow Value)
listed =
    record {
      value = shown;
      source_stream = some (record {
        service = "tasks";
        tenant = "acme";
        realm = some "eu";
        category = "aggregate";
        key = "t1";
      });
    }
    ∷ []

lists :
    query_rows json same_text resources context service codec.from_slice "list" [] 0
    ≡ (ok listed, 1)
unfolding query_rows visible_rows selectors_into validate_projection_row exact_partition exact_shape
    exact_selection query_visible row_visible projection_source_from_value source_candidates
    event_sources category decode_inputs require_inputs enforce get insert contains insert_pair
lists = refl

query_rows-Shown_example :
    (enforce (runtime service.realm) context ≡ ok tt)
    × (plan : QueryPlan) × (get "list" service.queries ≡ some plan)
    × (view : ViewPlan) × (get plan.view service.views ≡ some view)
    × (d : Map Value) × (decode_inputs json codec.from_slice plan.inputs [] ≡ ok d)
    × (rows : List (ProjectionRow Value)) × (v : ℕ) × ◌≡◌
        {A = Result ResourceError (List (ProjectionRow Value)) × ℕ}
        (resources.query
          (record {
            view = plan.view;
            tenant = context.tenant;
            realm = context.realm;
            selectors = selectors_into plan.inputs d [];
          })
          0)
        (ok rows, v)
    × All
        (Shown json same_text resources context rows plan view (selectors_into plan.inputs d []))
        listed
query_rows-Shown_example =
    query_rows-Shown json same_text resources context service codec.from_slice "list" [] 0 1 listed
      lists

abbrev live : ObligationUse
live = record {
  provider = "sdk.derive.inherit-parent-authority/v2";
  bindings =
      ("child_owner", "Line.owner")
      ∷ ("child_scopes", "Line.scopes")
      ∷ ("parent", "Order")
      ∷ ("parent_owner", "Order.owner")
      ∷ ("parent_scopes", "Order.scopes")
      ∷ [];
}

abbrev line_view : ViewPlan
line_view = record task_view { source = "Line"; fields = "owner" ∷ []; obligations = live ∷ [] }

abbrev line : EntityValue Value
line = record { state = "Open"; fields = ("owner", text "old") ∷ [] }

abbrev order_state : ProjectionState Value
order_state = record {
  entities =
      (
        "Order",
        (
          "o1",
          record {
            state = "Open";
            fields = ("owner", text "alice") ∷ ("scopes", text "read") ∷ [];
          },
        )
            ∷ [],
      )
      ∷ [];
}

lives :
    row_value json order_state line_view line
    ≡ some (("owner", text "alice") ∷ ("scopes", text "read") ∷ [])
unfolding row_value row_fields copied inherited_authority binding_field get insert contains
    rsplit_once
lives = refl
