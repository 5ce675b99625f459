-- ===== src/Tests/Events.antt =====
-- Events on their way through the outbox, the queue and the worker.
use res_q_server.Common.{
  some, none, refl, ◌≡◌, if◌then◌else◌, All, Any, Bool-cases, Error, List, [], arith, inl, inr,
  nat_eq, text_eq, ℕ, ◌==◌, ◌∷◌,
}
use res_q_server.Db.Tables.{
  assignment_row, incident_row, outbox_row, resource_row, set_row, user_row, hospital_row,
}
use res_q_server.Assignment.Defs.{set_resource_status}
use res_q_server.Events.Delivery.{IsSent, publish_pending-IsSent}
use res_q_server.Db.Rows.{
  Db, OutboxEvent, OutboxStatus, Payload, Resource, ResourceStatus, Trigger, assignment_status_eq,
  incident_status_eq, resource_status_eq, role_eq, hospital_status_eq, level_eq, user_status_eq,
}
use res_q_server.Events.Worker.{Environment, WorkerState, process_job}
use res_q_server.Tests.Fixtures.{
  broken, calm, deployed, distance, event_of, later, no_wait, town_speed, truck,
}
use res_q_server.Events.Outbox.{Faults, mark_published, publish_pending_outbox_events}
use res_q_server.Events.Processing.{Meanwhile, process_job_once}
use res_q_server.Resource.{UpdateResourceInput}
use res_q_server.Reliability.Retry.{Settled}

-- A queue that keeps the ids of its jobs, and rejects the event 51 for good.
abbrev enqueue : OutboxEvent → ℕ → List ℕ → Settled (Unit {0}) × List ℕ
enqueue e k jobs =
    if e.event_id == 51
    then (Settled.rejected Error.fatal, jobs)
    else (Settled.resolved tt, e.event_id ∷ jobs)

abbrev no_faults : Faults
no_faults = record { published_update = λ i. none; attempts_update = λ i. none }

abbrev first : OutboxEvent
first = event_of 50 (Payload.incident_created 10)

-- An event with one attempt left.
abbrev last_try : OutboxEvent
last_try = record (event_of 51 (Payload.incident_created 11)) { attempts = 4 }

abbrev waiting : List OutboxEvent
waiting = first ∷ last_try ∷ []

polls : publish_pending_outbox_events no_faults 3 no_wait enqueue waiting [] ≡ (
  none,
  record {
    outbox =
        mark_published first ∷ record last_try { attempts = 5; status = OutboxStatus.failed } ∷ [];
    queue = 50 ∷ [];
    published = 1;
  },
)
unfolding publish_pending_outbox_events set_row
polls = refl

abbrev Holds : ℕ → List ℕ → Type 0
Holds i jobs = Any (λ j. j ≡ i) jobs

stores :
    (e : OutboxEvent) (k : ℕ) (jobs : List ℕ)
    → (enqueue e k jobs).0 ≡ Settled.resolved tt
    → Holds e.event_id (enqueue e k jobs).1
stores e k jobs h = elim (Bool-cases (e.event_id == 51)) [
  | inl refused ↦ absurd (ground arith)
  | inr taken ↦ rw taken (inl refl)
]

keeps : (e : OutboxEvent) (k i : ℕ) (jobs : List ℕ) → Holds i jobs → Holds i (enqueue e k jobs).1
keeps e k i jobs h = elim (Bool-cases (e.event_id == 51)) [
  | inl refused ↦ rw refused h
  | inr taken ↦ rw taken (inr h)
]

publish_pending-IsSent_example :
    let final = (publish_pending_outbox_events no_faults 3 no_wait enqueue waiting []).1 in
    All
      (IsSent no_faults 3 no_wait enqueue (omega arith) Holds stores keeps final.queue)
      final.outbox
publish_pending-IsSent_example =
    publish_pending-IsSent no_faults 3 no_wait enqueue (omega arith) Holds stores keeps waiting []
      ((λ e. absurd cc), ((λ e. absurd cc), tt))

abbrev env : Environment
env = record {
  haversine_distance = distance;
  average_speed = town_speed;
  max_attempts = 3;
  backoff = no_wait;
  around = calm;
  supply = later;
  mark_fault = none;
}

abbrev idle : WorkerState
idle = record { db = broken; processed = [] }

abbrev requested : WorkerState
requested = record {
  db = record broken {
    outbox =
        event_of 40 (Payload.assignment_created 30 10 20)
        ∷ event_of 41 (Payload.reoptimization_requested 10 30 Trigger.resource_failure)
        ∷ [];
  };
  processed = 60 ∷ [];
}

abbrev truck_failed : Payload
truck_failed = Payload.resource_status_changed 20 ResourceStatus.busy ResourceStatus.failed

asks_again : process_job env 60 truck_failed idle ≡ (Settled.resolved tt, requested)
unfolding process_job
asks_again = refl

-- After a job of another event, and a change of the database.
abbrev quiet : WorkerState
quiet = record (process_job env 50 first.payload requested).1 { db = deployed }

process_job_once_example : process_job env 60 truck_failed quiet ≡ (Settled.resolved tt, quiet)
process_job_once_example =
    process_job_once env env 60 truck_failed truck_failed idle requested quiet asks_again
      (Meanwhile.elsewhere deployed (Meanwhile.job env 50 first.payload Meanwhile.nothing))

abbrev fails : UpdateResourceInput
fails = record {
  name = none;
  type = none;
  latitude = none;
  longitude = none;
  capacity = none;
  status = some ResourceStatus.failed;
  operator_id = none;
}

abbrev busy_truck : Resource
busy_truck = set_resource_status ResourceStatus.busy truck

-- After one poll the first event is PUBLISHED and the last try has FAILED; four more change nothing.
abbrev settled_rows : List OutboxEvent
settled_rows =
    record first { status = OutboxStatus.published }
    ∷ record last_try { status = OutboxStatus.failed; attempts = 5 }
    ∷ []
