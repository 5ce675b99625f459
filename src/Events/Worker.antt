-- ===== src/Events/Worker.antt =====
-- src/workers/event.worker.ts and src/events/handlers: what a job of the queue does. The handlers
-- that only write to the log, which are those of the assignment events and of PRIORITY_CALCULATED,
-- do nothing here. An envelope without its fields is the payload `unsupported`.
use res_q_server.Common.{
  ℕ, List, Option, none, some, if◌then◌else◌, ◌∷◌, find, includes, fatal, err, nat_eq, ok, text_eq,
  Error,
}
use res_q_server.Db.Rows.{
  Assignment, Db, Payload, Place, ResourceStatus, Trigger, assignment_status_eq, incident_status_eq,
  resource_status_eq, role_eq, hospital_status_eq, level_eq, user_status_eq,
}
use res_q_server.Assignment.Defs.{Supply, Surroundings, is_active_on, write_outbox_event}
use res_q_server.Decision.Allocation.{Speed}
use res_q_server.Reoptimization.Service.{ReoptimizationResult, reoptimize_assignment}
use res_q_server.Reoptimization.Engine.{AccessCondition}
use res_q_server.Reliability.Retry.{Settled}
use res_q_server.Incident.Defs.{calculate_and_save_priority}
use res_q_server.Db.Tables.{
  assignment_row, incident_row, outbox_row, resource_row, user_row, hospital_row,
}

-- What the calls of one job draw from the surroundings.
pub record Environment : Type 0 where
  pub haversine_distance : Place → Place → ℕ
  pub average_speed : Speed
  pub max_attempts : ℕ
  pub backoff : ℕ → ℕ
  pub around : Surroundings
  pub supply : Supply
  pub mark_fault : Option Error  -- what markProcessed throws

pub record WorkerState : Type 0 where
  pub db : Db
  pub processed : List ℕ

-- handleIncidentCreated
unfoldable pub handle_incident_created : Environment → ℕ → Db → Settled (Unit {0}) × Db
unfolding calculate_and_save_priority write_outbox_event
handle_incident_created env incident_id db = elim (calculate_and_save_priority incident_id db) [
  | err e ↦ (Settled.rejected e, db)
  | ok (score, db') ↦ (
    Settled.resolved tt,
    record db' {
      outbox =
          write_outbox_event env.supply.event_id (Payload.priority_calculated incident_id score)
            db'.outbox;
    },
  )
]

-- STATUS_TO_TRIGGER, for the statuses in FAILURE_STATUSES
unfoldable pub status_to_trigger : ResourceStatus → Option Trigger
status_to_trigger ResourceStatus.failed = some Trigger.resource_failure
status_to_trigger ResourceStatus.maintenance = some Trigger.resource_maintenance
status_to_trigger ResourceStatus.unavailable = some Trigger.resource_unavailable
status_to_trigger _ = none

unfoldable pub request_reoptimization : Environment → Trigger → Option Assignment → Db → Db
unfolding write_outbox_event
request_reoptimization env trigger none db = db
request_reoptimization env trigger (some a) db = record db {
  outbox =
      write_outbox_event env.supply.event_id
        (Payload.reoptimization_requested a.incident_id a.id trigger) db.outbox;
}

-- handleResourceStatusChanged; `new_status` is undefined in the payload of a failure report.
unfoldable pub handle_resource_status_changed :
    Environment → ℕ → (new_status : Option ResourceStatus) → Db → Db
unfolding status_to_trigger request_reoptimization
handle_resource_status_changed env resource_id none db = db
handle_resource_status_changed env resource_id (some status) db = elim (status_to_trigger status) [
  | none ↦ db
  | some trigger ↦
      request_reoptimization env trigger (find (is_active_on resource_id) db.assignments) db
]

unfoldable pub complete_reoptimization :
    Environment → ℕ → ℕ → Settled ReoptimizationResult × Db → Settled (Unit {0}) × Db
unfolding write_outbox_event
complete_reoptimization env incident_id assignment_id (Settled.resolved r, db) = (
  Settled.resolved tt,
  record db {
    outbox =
        write_outbox_event env.supply.event_id
          (Payload.reoptimization_completed incident_id assignment_id r.reoptimized) db.outbox;
  },
)
complete_reoptimization env incident_id assignment_id (Settled.rejected e, db) =
    (Settled.rejected e, db)
complete_reoptimization env incident_id assignment_id (Settled.rejected_undefined, db) =
    (Settled.rejected_undefined, db)

-- handleReoptimizationRequested; no event that the program writes carries an access condition.
unfoldable pub handle_reoptimization_requested :
    Environment → ℕ → ℕ → Trigger → Db → Settled (Unit {0}) × Db
unfolding reoptimize_assignment complete_reoptimization
handle_reoptimization_requested env incident_id assignment_id trigger db =
    complete_reoptimization env incident_id assignment_id (
      reoptimize_assignment env.haversine_distance env.average_speed env.max_attempts env.backoff
        env.around env.supply
        (record {
          assignment_id = assignment_id;
          trigger = trigger;
          access_condition = AccessCondition.normal;
          competing_incident_priority = none;
        })
        db)

-- The `switch` of processJob.
unfoldable pub handle_event : Environment → Payload → Db → Settled (Unit {0}) × Db
unfolding handle_incident_created handle_resource_status_changed handle_reoptimization_requested
handle_event env (Payload.incident_created incident_id) db =
    handle_incident_created env incident_id db
handle_event env (Payload.priority_calculated incident_id score) db = (Settled.resolved tt, db)
handle_event env (Payload.resource_status_changed resource_id previous new) db =
    (Settled.resolved tt, handle_resource_status_changed env resource_id (some new) db)
handle_event env (Payload.resource_failure_detected resource_id assignment_id) db =
    (Settled.resolved tt, handle_resource_status_changed env resource_id none db)
handle_event env (Payload.assignment_created assignment_id incident_id resource_id) db =
    (Settled.resolved tt, db)
handle_event env (Payload.assignment_completed assignment_id incident_id resource_id) db =
    (Settled.resolved tt, db)
handle_event env (Payload.assignment_cancelled assignment_id incident_id resource_id) db =
    (Settled.resolved tt, db)
handle_event env (Payload.reoptimization_requested incident_id assignment_id trigger) db =
    handle_reoptimization_requested env incident_id assignment_id trigger db
handle_event env (Payload.incident_updated incident_id) db = (Settled.resolved tt, db)
handle_event env (Payload.reoptimization_completed incident_id assignment_id reoptimized) db =
    (Settled.resolved tt, db)
handle_event env Payload.unsupported db = (Settled.rejected fatal, db)

-- markProcessed, an upsert
abbrev pub mark_processed : ℕ → List ℕ → List ℕ
mark_processed event_id processed =
    if includes processed event_id then processed else event_id ∷ processed

-- The end of processJob: an event is marked after its handler has succeeded, and then only. A
-- fault of markProcessed makes the job fail, though its handler has written.
unfoldable pub finish_job :
    (mark_fault : Option Error)
    → ℕ
    → List ℕ
    → Settled (Unit {0}) × Db
    → Settled (Unit {0}) × WorkerState
finish_job none event_id processed (Settled.resolved _, db) =
    (Settled.resolved tt, record { db = db; processed = mark_processed event_id processed })
finish_job (some e) event_id processed (Settled.resolved _, db) =
    (Settled.rejected e, record { db = db; processed = processed })
finish_job mark_fault event_id processed (Settled.rejected e, db) =
    (Settled.rejected e, record { db = db; processed = processed })
finish_job mark_fault event_id processed (Settled.rejected_undefined, db) =
    (Settled.rejected_undefined, record { db = db; processed = processed })

unfoldable pub process_job :
    Environment → (event_id : ℕ) → Payload → WorkerState → Settled (Unit {0}) × WorkerState
unfolding handle_event finish_job
process_job env event_id payload s =
    let handled = finish_job env.mark_fault event_id s.processed (handle_event env payload s.db) in
    if includes s.processed event_id then (Settled.resolved tt, s) else handled
