-- ===== src/Engine/Plans.antt =====
-- crates/service-engine/src/lib.rs: the generated plan of a service.
use service_sdk.Base.{ℕ, String, Bool, List}
use service_sdk.Base.Maps.{Map}
use service_sdk.Runtime.Auth.{RealmPolicy, required, optional, forbidden}
use service_sdk.Engine.{ReducerPlan}
use service_sdk.Engine.Obligations.{ObligationUse}

pub record ContentPolicyPlan : Type 0 where
  pub media_types : List String
  pub max_bytes : ℕ

pub data InputSource : Type 0 where
  command_input expected_version_input idempotency_input : InputSource
  content_input : String → String → InputSource
  selector_input : String → InputSource

pub record InputPlan : Type 0 where
  pub name : String
  pub type_ref : String
  pub is_optional : Bool
  pub source : InputSource

pub data StreamPlan : Type 0 where
  command_field : String → StreamPlan
  generated_uuid_v7 : StreamPlan

pub data ExpectedVersionPlan : Type 0 where
  new_stream_only : ExpectedVersionPlan
  version_field : String → ExpectedVersionPlan

pub data IdempotencyPlan : Type 0 where
  key_field : String → IdempotencyPlan
  request_id_key : IdempotencyPlan

pub data GraphSnapshotOutput : Type 0 where
  nodes_output edges_output digest_output node_count edge_count : GraphSnapshotOutput

pub data ContextSource : Type 0 where
  tenant_id realm_id_optional user_id current_authority executor_optional : ContextSource

pub record GraphSnapshotBinding : Type 0 where
  pub nodes : String
  pub edges : String
  pub partition : String
  pub node_partition : String
  pub edge_partition : String
  pub node_identity : String
  pub edge_identity : String
  pub edge_source : String
  pub edge_target : String
  pub active_state : String

pub data ValueSource : Type 0 where
  from_input : String → ValueSource
  from_stream_id from_uuid_v7 : ValueSource
  from_context : ContextSource → ValueSource
  from_literal : String → ValueSource
  from_obligation : String → String → String → ValueSource
  from_graph_snapshot : GraphSnapshotBinding → GraphSnapshotOutput → ValueSource

pub record EventFieldPlan : Type 0 where
  pub name : String
  pub source : ValueSource

pub record ProducedEventPlan : Type 0 where
  pub event : String
  pub fields : List EventFieldPlan

pub record OutcomePlan : Type 0 where
  pub name : String
  pub events : List ProducedEventPlan

pub record IntentPlan : Type 0 where
  pub command : String
  pub scope : String
  pub inputs : List InputPlan
  pub stream : StreamPlan
  pub expected_version : ExpectedVersionPlan
  pub idempotency : IdempotencyPlan
  pub obligations : List ObligationUse
  pub outcome : OutcomePlan
  pub projections : List String

pub record QueryPlan : Type 0 where
  pub view : String
  pub scope : String
  pub inputs : List InputPlan
  pub obligations : List ObligationUse

pub record ViewPlan : Type 0 where
  pub source : String
  pub fields : List String
  pub field_types : Map String
  pub optional_fields : List String
  pub obligations : List ObligationUse

pub data PlanRealmPolicy : Type 0 where
  realm_required realm_optional realm_forbidden : PlanRealmPolicy

abbrev pub runtime : PlanRealmPolicy → RealmPolicy
runtime realm_required = required
runtime realm_optional = optional
runtime realm_forbidden = forbidden

pub data PlanDelivery : Type 0 where
  identity_http : String → PlanDelivery
  composed_connector : PlanDelivery

pub record ServicePlan : Type 0 where
  pub format : String
  pub service : String
  pub delivery : PlanDelivery
  pub realm : PlanRealmPolicy
  pub ess_source_digest : String
  pub obligation_catalog_digest : String
  pub content : Map ContentPolicyPlan
  pub intents : Map IntentPlan
  pub queries : Map QueryPlan
  pub reducers : Map ReducerPlan
  pub views : Map ViewPlan
