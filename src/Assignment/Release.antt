-- ===== src/Assignment/Release.antt =====
-- completeAssignment and cancelAssignment of assignment.service.ts.
use res_q_server.Assignment.Defs.{
  Supply, Surroundings, allowed_assignment_transitions, attempt_tx, set_incident_status,
  set_resource_status, should_retry_create, write_outbox_event,
}
use res_q_server.Db.Tables.{
  assignment_row, find_unique, hospital_row, incident_row, outbox_row, resource_row, set_row,
  update_row, user_row,
}
use res_q_server.Db.Rows.{
  Assignment, AssignmentStatus, Db, Incident, IncidentStatus, Payload, ResourceStatus,
  assignment_status_eq, hospital_status_eq, incident_status_eq, level_eq, resource_status_eq,
  role_eq, user_status_eq,
}
use res_q_server.Reliability.Retry.{Settled, with_retry}
use res_q_server.Common.{
  List, Result, app, bad_request, err, guard, if◌then◌else◌, includes, nat_eq, none, not_found, ok,
  or_throw, some, text_eq, ℕ, ◌==◌, ◌>>=◌, ◌>>◌,
}

abbrev pub release : AssignmentStatus → ℕ → Assignment → Assignment
release status now a = record a { status = status; released_at = some now }

-- The callback of completeAssignment: its check reads `seen`, and its writes meet `met`.
unfoldable pub complete_tx : (seen met : Db) → Supply → ℕ → Result Db
unfolding allowed_assignment_transitions update_row write_outbox_event
complete_tx seen met supply id = do
  assignment ← or_throw (find_unique id seen.assignments) (app not_found)
  guard (includes (allowed_assignment_transitions assignment.status) AssignmentStatus.completed)
      (app bad_request)
  assignments ← update_row id (release AssignmentStatus.completed supply.now) met.assignments
  resources ←
      update_row assignment.resource_id (set_resource_status ResourceStatus.available) met.resources
  incidents ←
      update_row assignment.incident_id (set_incident_status IncidentStatus.in_progress)
        met.incidents
  ok (record met {
    assignments = assignments;
    resources = resources;
    incidents = incidents;
    outbox =
        write_outbox_event supply.event_id
          (Payload.assignment_completed id assignment.incident_id assignment.resource_id)
          met.outbox;
  })

-- With no other transaction in between.
unfoldable pub complete_assignment : Supply → ℕ → Db → Result Db
unfolding complete_tx
complete_assignment supply id db = complete_tx db db supply id

-- Only an incident that is still ASSIGNED goes back to APPROVED.
unfoldable pub reapprove : ℕ → List Incident → List Incident
reapprove id incidents = elim (find_unique id incidents) [
  | none ↦ incidents
  | some i ↦
      if i.status == IncidentStatus.assigned
      then set_row id (set_incident_status IncidentStatus.approved) incidents
      else incidents
]

-- The callback of cancelAssignment, likewise; it reads the incident again, beside its writes.
unfoldable pub cancel_tx : (seen met : Db) → Supply → ℕ → Result Db
unfolding allowed_assignment_transitions update_row write_outbox_event reapprove
cancel_tx seen met supply id = do
  assignment ← or_throw (find_unique id seen.assignments) (app not_found)
  guard (includes (allowed_assignment_transitions assignment.status) AssignmentStatus.cancelled)
      (app bad_request)
  assignments ← update_row id (release AssignmentStatus.cancelled supply.now) met.assignments
  resources ←
      update_row assignment.resource_id (set_resource_status ResourceStatus.available) met.resources
  ok (record met {
    assignments = assignments;
    resources = resources;
    incidents = reapprove assignment.incident_id met.incidents;
    outbox =
        write_outbox_event supply.event_id
          (Payload.assignment_cancelled id assignment.incident_id assignment.resource_id)
          met.outbox;
  })

-- With no other transaction in between.
unfoldable pub cancel_assignment : Supply → ℕ → Db → Result Db
unfolding cancel_tx
cancel_assignment supply id db = cancel_tx db db supply id

-- What a transaction without a value of its own returns.
abbrev pub no_value : Result Db → Result (Unit {0} × Db)
no_value (err e) = err e
no_value (ok db) = ok (tt, db)

-- completeAssignment and cancelAssignment as they are called, with their retries
unfoldable pub complete_with_retry :
    (max_attempts : ℕ) (backoff : ℕ → ℕ) → Surroundings → Supply → ℕ → Db → Settled (Unit {0}) × Db
unfolding with_retry should_retry_create attempt_tx complete_tx
complete_with_retry max_attempts backoff around supply id db =
    let run =
      with_retry max_attempts should_retry_create backoff
        (attempt_tx around (λ seen met. no_value (complete_tx seen met supply id))) db in
    (run.outcome, run.state)

unfoldable pub cancel_with_retry :
    (max_attempts : ℕ) (backoff : ℕ → ℕ) → Surroundings → Supply → ℕ → Db → Settled (Unit {0}) × Db
unfolding with_retry should_retry_create attempt_tx cancel_tx
cancel_with_retry max_attempts backoff around supply id db =
    let run =
      with_retry max_attempts should_retry_create backoff
        (attempt_tx around (λ seen met. no_value (cancel_tx seen met supply id))) db in
    (run.outcome, run.state)
