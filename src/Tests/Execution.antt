-- ===== src/Tests/Execution.antt =====
-- A counter service on a log in memory: the executor of crates/service-runtime/src/execution.rs at
-- concrete values.
use service_sdk.Base.{
  ℕ, ◌+◌, String, ◌≡◌, refl, ◌⊎◌, inl, inr, none, some, List, [], ◌∷◌, ◌++◌, length, eqb, arith,
  Bool-cases, if◌then◌else◌,
}
use service_sdk.Base.Result.{ok, err}
use service_sdk.Runtime.Auth.{VerifiedAuthContext, required, tenant_mismatch, enforce}
use service_sdk.Runtime.Stream.{exact, matches, stream_eq, checked_next}
use service_sdk.Runtime.History.{
  EventEnvelope, EventHistory, committed, version_conflict, validate, current_version,
  through_version,
}
use service_sdk.Runtime.Projection.{ProjectionSink, read_your_writes, visible, deliver}
use service_sdk.Runtime.Aggregate.{
  Aggregate, ExecutionRequest, check_scope, fold, decide_events, apply_all,
}
use service_sdk.Runtime.Execution.{EventLog, ExecutionResult, World, reduced, commit, execute}
use service_sdk.Runtime.Execution.Stages.{Accepted, execute-Accepted}
use service_sdk.Runtime.Execution.Refusal.{guarded, Decided, log-execute}
use service_sdk.Runtime.Execution.Reload.{IsLawful, execute-reload}
use service_sdk.Tests.Streams.{task, envelope}

-- The counter adds up; nothing above 100 is accepted.
abbrev counter : Aggregate ℕ ℕ ℕ ℕ String
counter = record {
  realm_policy = required;
  service_id = "tasks";
  initial_state = λ s. 0;
  apply = λ n e. n + e.event;
  authorize = λ c n i. ok tt;
  validate_intent = λ c n i. if eqb i 0 then err "zero" else ok tt;
  command = λ c n i. ok i;
  decide = λ c n i. ok (i ∷ []);
}

abbrev Log : Type 0
Log = List (EventEnvelope ℕ)

abbrev number_from : ℕ → List ℕ → Log
number_from n [] = []
number_from n (e ∷ events) = envelope n e ∷ number_from (n + 1) events

-- A log of one stream, guarded by the expected version.
abbrev memory : EventLog Log String ℕ
memory = record {
  load = λ s l. (ok (record { stream = s; events = l }), l);
  append_guarded = λ a l.
      if matches a.expected (length l)
      then (
        ok (record { disposition = committed; events = number_from (length l + 1) a.events }),
        l ++ number_from (length l + 1) a.events,
      )
      else (err (version_conflict a.expected (length l)), l);
}

-- A projection that only remembers how often it was called.
abbrev seen : ProjectionSink ℕ String ℕ ℕ
seen = record { project = λ c t s es p. (ok tt, p + 1); wait_until_visible = λ t p. (ok tt, p) }

memory-IsLawful : IsLawful memory
memory-IsLawful = record {
  load_keeps = λ l a. refl;
  committed_extends = λ l l' a r h appended d loaded.
      elim (Bool-cases (matches a.expected (length l))) [
        | inl e ↦ ground arith
        | inr e ↦ ground arith
      ];
  replayed_keeps = λ l l' a r appended d. elim (Bool-cases (matches a.expected (length l))) [
    | inl e ↦ ground arith
    | inr e ↦ ground arith
  ];
}

abbrev pub alice : VerifiedAuthContext
alice = record {
  tenant = "acme";
  authority = "alice";
  user = "alice";
  executor = none;
  realm = some "emea";
  execution = none;
}

abbrev request : ExecutionRequest ℕ
request = record {
  context = alice;
  stream = task;
  idempotency_key = "k";
  expected_version = exact 1;
  intent = 5;
  projection_delivery = read_your_writes;
}

abbrev before : World Log ℕ
before = record { log = envelope 1 10 ∷ []; sink = 0 }

abbrev after : World Log ℕ
after = record { log = envelope 1 10 ∷ envelope 2 5 ∷ []; sink = 1 }

abbrev result : ExecutionResult ℕ ℕ
result = record {
  state = 15;
  append = record { disposition = committed; events = envelope 2 5 ∷ [] };
  projection = record { target = record { stream = task; through = 2 }; visibility = visible };
}

runs : execute counter memory seen request before ≡ (ok result, after)
unfolding execute commit reduced check_scope fold decide_events enforce validate stream_eq
    checked_next matches through_version deliver current_version
runs = refl

execute-reload_example :
    (h : EventHistory ℕ) × ((memory.load task after.log).0 ≡ ok h)
    × (15 ≡ apply_all counter 0 h.events)
execute-reload_example =
    execute-reload counter memory seen memory-IsLawful request before after result runs

execute-Accepted_example : Accepted counter memory seen request before result after
execute-Accepted_example = execute-Accepted counter memory seen request before after result runs

log-execute_example :
    ((execute counter memory seen request before).1.log ≡ before.log)
    ⊎ ((execute counter memory seen request before).1.log ≡ (memory.load task before.log).1)
    ⊎ ((events : List ℕ) × Decided counter memory seen request before events
        × ((execute counter memory seen request before).1.log
            ≡ (memory.append_guarded
                (guarded counter memory seen request events)
                (memory.load task before.log).1).1))
log-execute_example = log-execute counter memory seen request before

-- The same caller names a stream of another tenant.
abbrev foreign : ExecutionRequest ℕ
foreign = record request { stream = record task { tenant = "other" } }

outside : check_scope counter foreign ≡ err (tenant_mismatch "other" "acme")
unfolding check_scope enforce
outside = refl
