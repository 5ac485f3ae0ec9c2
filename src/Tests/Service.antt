-- ===== src/Tests/Service.antt =====
-- A service of tasks and links: a plan and resources for the engine of
-- crates/service-engine/src/lib.rs.
use service_sdk.Base.{ℕ, ◌+◌, String, Bool, true, false, Option, none, some, [], ◌∷◌}
use service_sdk.Base.Maps.{Map}
use service_sdk.Base.Result.{ok}
use service_sdk.Runtime.Auth.{VerifiedAuthContext}
use service_sdk.Engine.{
  DomainEvent, LoadedStream, ReducerPlan, create, move, EntityValue, ProjectionState, Json,
}
use service_sdk.Engine.Ports.{ServiceResources, committed}
use service_sdk.Engine.Plans.{
  command_input, InputPlan, command_field, new_stream_only, request_id_key, from_input, IntentPlan,
  composed_connector, realm_optional, QueryPlan, ViewPlan, ServicePlan,
}
use service_sdk.Engine.Graph.Materialize.{Snapshots}
use service_sdk.Engine.Claim.{IntentCodec}
use service_sdk.Engine.Obligations.{ObligationUse}

-- Values are texts, objects of texts, and the null value.
pub data Value : Type 0 where
  text : String → Value
  object_of : Map String → Value
  null_value : Value

abbrev pub texts : Map String → Map Value
texts [] = []
texts ((key, value) ∷ m) = (key, text value) ∷ texts m

abbrev pub value_as_str : Value → Option String
value_as_str (text value) = some value
value_as_str _ = none

abbrev pub value_as_object : Value → Option (Map Value)
value_as_object (object_of m) = some (texts m)
value_as_object _ = none

abbrev pub value_is_null : Value → Bool
value_is_null null_value = true
value_is_null _ = false

abbrev pub json : Json Value
json = record {
  as_str = value_as_str;
  as_u64 = λ v. none;
  as_object = value_as_object;
  is_null = value_is_null;
  null = null_value;
  string = λ s. text s;
  number = λ n. null_value;
  array = λ vs. null_value;
}

abbrev pub snapshots : Snapshots Value
snapshots = record {
  object = λ m. null_value;
  to_vec = λ nodes edges. some [];
  from_slice = λ bytes. some ([], []);
  sha256 = λ bytes. bytes;
}

abbrev pub opening : ReducerPlan
opening = record {
  entity = "Task";
  identity_field = "task_id";
  effect = create "Active";
  fields = [];
  inherit = none;
}

abbrev pub closing : ReducerPlan
closing = record opening { effect = move ("Active" ∷ []) "Closed" }

abbrev pub opened : DomainEvent Value
opened = record { name = "opened"; fields = ("task_id", text "t1") ∷ [] }

abbrev pub history : LoadedStream Value
history = record { version = 1; events = record { version = 1; event = opened } ∷ [] }

abbrev pub task : String → EntityValue Value
task state = record { state = state; fields = ("task_id", text "t1") ∷ [] }

abbrev pub task_state : ProjectionState Value
task_state = record { entities = ("Task", ("t1", task "Active") ∷ []) ∷ [] }

abbrev pub context : VerifiedAuthContext
context = record {
  tenant = "acme";
  authority = "alice";
  user = "alice";
  executor = none;
  realm = some "eu";
  execution = none;
}

abbrev pub task_input : InputPlan
task_input = record {
  name = "task_id";
  type_ref = "String";
  is_optional = false;
  source = command_input;
}

abbrev pub scheduled : ObligationUse
scheduled = record {
  provider = "sdk.auth.trusted-scheduler/v1";
  bindings = ("capability", "tasks") ∷ [];
}

abbrev pub close_plan : IntentPlan
close_plan = record {
  command = "Close";
  scope = "tasks";
  inputs = task_input ∷ [];
  stream = command_field "task_id";
  expected_version = new_stream_only;
  idempotency = request_id_key;
  obligations = scheduled ∷ [];
  outcome = record {
    name = "closed";
    events =
        record {
          event = "closed";
          fields = record { name = "task_id"; source = from_input "task_id" } ∷ [];
        }
        ∷ [];
  };
  projections = [];
}

abbrev pub task_view : ViewPlan
task_view = record {
  source = "Task";
  fields = "state" ∷ "task_id" ∷ [];
  field_types = [];
  optional_fields = [];
  obligations = [];
}

abbrev pub list_plan : QueryPlan
list_plan = record {
  view = "tasks";
  scope = "tasks";
  inputs = record task_input { is_optional = true } ∷ [];
  obligations = record { provider = "sdk.projection.hide-terminal-parent/v1"; bindings = [] } ∷ [];
}

abbrev pub service : ServicePlan
service = record {
  format = "service-realization-plan/3";
  service = "tasks";
  delivery = composed_connector;
  realm = realm_optional;
  ess_source_digest = "";
  obligation_catalog_digest = "";
  content = [];
  intents = ("close", close_plan) ∷ [];
  queries = ("list", list_plan) ∷ [];
  reducers = ("closed", closing) ∷ ("opened", opening) ∷ [];
  views = ("tasks", task_view) ∷ [];
}

-- The body of every request is an object with the identity of the task.
abbrev pub codec : IntentCodec Value
codec = record {
  from_slice = λ body. some (object_of (("task_id", "t1") ∷ []));
  plan_bytes = λ plan. some (1 ∷ []);
  intent_bytes = λ digest operation decoded key caller. some (2 ∷ []);
}

-- Resources that grant every question and count the calls.
abbrev pub resources : ServiceResources ℕ Value
resources = record {
  recorded_intent = λ claim n. (ok none, n + 1);
  authorization_state = λ stream n. (ok task_state, n + 1);
  load = λ stream n. (ok history, n + 1);
  append = λ request n. (
    ok (record {
      disposition = committed;
      through_version = 2;
      stream = request.stream;
      events = request.events;
    }),
    n + 1,
  );
  project = λ write n. (ok tt, n + 1);
  query = λ read n. (
    ok (
        record {
          view = "tasks";
          tenant = "acme";
          realm = some "eu";
          source_stream = none;
          value = ("state", text "Active") ∷ ("task_id", text "t1") ∷ [];
        }
        ∷ []),
    n + 1,
  );
  stage = λ caller policy key payload n. (ok (record { reference = "r"; token = "t" }), n + 1);
  accept = λ caller token n. (ok tt, n + 1);
  abandon = λ caller token n. (ok tt, n + 1);
  allowed = λ caller check n. (ok true, n + 1);
  now = λ n. (ok "5", n + 1);
  uuid_v7 = λ n. (ok "id", n + 1);
}
