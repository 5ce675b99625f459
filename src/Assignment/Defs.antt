-- ===== src/Assignment/Defs.antt =====
-- The transition map, the partial unique indexes, createAssignment and the retries.
use res_q_server.Common.{
  ℕ, Bool, not, ◌&&◌, Option, none, some, List, [], ◌∷◌, ◌++◌, ◌==◌, includes, any, ltb, Result, ok,
  err, Error, app, unique_violation, resource_index, incident_index, ◌>>=◌, ◌>>◌, guard, or_throw,
  not_found, conflict, nat_eq, text_eq,
}
use res_q_server.Db.Rows.{
  Db, Incident, Resource, Assignment, IncidentStatus, AssignmentStatus, ResourceStatus, OutboxEvent,
  OutboxStatus, Payload, DecisionType, assignment_status_eq, incident_status_eq, resource_status_eq,
  role_eq, hospital_status_eq, level_eq, user_status_eq,
}
use res_q_server.Db.Tables.{
  find_unique, update_row, assignment_row, incident_row, outbox_row, resource_row, user_row,
  hospital_row,
}
use res_q_server.Decision.Matching.{is_type_match}
use res_q_server.Reliability.Retry.{Settled, is_transient_error, with_retry}

-- ALLOWED_ASSIGNMENT_TRANSITIONS
unfoldable pub allowed_assignment_transitions : AssignmentStatus → List AssignmentStatus
allowed_assignment_transitions AssignmentStatus.pending =
    AssignmentStatus.active ∷ AssignmentStatus.cancelled ∷ []
allowed_assignment_transitions AssignmentStatus.active =
    AssignmentStatus.completed ∷ AssignmentStatus.cancelled ∷ []
allowed_assignment_transitions AssignmentStatus.completed = []
allowed_assignment_transitions AssignmentStatus.cancelled = []

-- ASSIGNABLE_INCIDENT_STATUSES
abbrev pub assignable_incident_statuses : List IncidentStatus
assignable_incident_statuses = IncidentStatus.approved ∷ []

-- where: { resourceId, status: 'ACTIVE' }
abbrev pub is_active_on : ℕ → Assignment → Bool
is_active_on r a = a.resource_id == r && a.status == AssignmentStatus.active

-- where: { incidentId, status: 'ACTIVE' }
abbrev pub is_active_for : ℕ → Assignment → Bool
is_active_for i a = a.incident_id == i && a.status == AssignmentStatus.active

-- The INSERT of an ACTIVE row under the two partial unique indexes.
unfoldable pub insert_active : Assignment → List Assignment → Result (List Assignment)
insert_active a rows = do
  guard (not (any (is_active_on a.resource_id) rows)) (unique_violation resource_index)
  guard (not (any (is_active_for a.incident_id) rows)) (unique_violation incident_index)
  ok (a ∷ rows)

-- tx.outboxEvent.create of writeOutboxEvent: a PENDING row at the end of the table
unfoldable pub write_outbox_event : ℕ → Payload → List OutboxEvent → List OutboxEvent
write_outbox_event event_id payload outbox =
    outbox
    ++ record {
      event_id = event_id;
      payload = payload;
      status = OutboxStatus.pending;
      attempts = 0;
    }
      ∷ []

-- What the database and the run-time supply: the new row's cuid, the event's uuid and the clock.
pub record Supply : Type 0 where
  pub assignment_id : ℕ
  pub event_id : ℕ
  pub now : ℕ

pub record CreateInput : Type 0 where
  pub incident_id : ℕ
  pub resource_id : ℕ

-- Steps 1 to 5 of the transaction: the application-level checks.
unfoldable pub check_create : Db → CreateInput → Result (Incident × Resource)
check_create db input = do
  incident ← or_throw (find_unique input.incident_id db.incidents) (app not_found)
  guard (includes assignable_incident_statuses incident.status) (app conflict)
  resource ← or_throw (find_unique input.resource_id db.resources) (app not_found)
  guard (resource.status == ResourceStatus.available) (app conflict)
  guard (is_type_match resource.type incident.resource_requirements) (app conflict)
  guard (not (ltb resource.capacity incident.affected_people)) (app conflict)
  guard (not (any (is_active_on input.resource_id) db.assignments)) (app conflict)
  guard (not (any (is_active_for input.incident_id) db.assignments)) (app conflict)
  ok (incident, resource)

abbrev pub new_assignment : Supply → CreateInput → Assignment
new_assignment supply input = record {
  id = supply.assignment_id;
  incident_id = input.incident_id;
  resource_id = input.resource_id;
  status = AssignmentStatus.active;
  released_at = none;
}

abbrev pub set_resource_status : ResourceStatus → Resource → Resource
set_resource_status status r = record r { status = status }

abbrev pub set_incident_status : IncidentStatus → Incident → Incident
set_incident_status status i = record i { status = status }

-- Steps 6 to 10: the writes, which meet the tables as they are when the writes are made.
unfoldable pub write_create : Db → Supply → CreateInput → Result (Assignment × Db)
unfolding insert_active update_row write_outbox_event
write_create db supply input = do
  assignments ← insert_active (new_assignment supply input) db.assignments
  resources ← update_row input.resource_id (set_resource_status ResourceStatus.busy) db.resources
  incidents ←
      update_row input.incident_id (set_incident_status IncidentStatus.assigned) db.incidents
  ok (
    new_assignment supply input,
    record db {
      assignments = assignments;
      resources = resources;
      incidents = incidents;
      decisions =
          record {
            incident_id = input.incident_id;
            selected_resource_id = some input.resource_id;
            decision_type = DecisionType.resource_assignment;
            priority_score = none;
          }
          ∷ db.decisions;
      outbox =
          write_outbox_event supply.event_id
            (Payload.assignment_created supply.assignment_id input.incident_id input.resource_id)
            db.outbox;
    },
  )

-- The callback of $transaction.
unfoldable pub create_tx : (seen met : Db) → Supply → CreateInput → Result (Assignment × Db)
unfolding check_create write_create
create_tx seen met supply input = do
  checked ← check_create seen input
  write_create met supply input

-- The `catch` of createAssignment: each P2002 becomes a 409, whichever index it names.
unfoldable pub translate_conflict : Error → Error
translate_conflict (unique_violation target) = app conflict
translate_conflict e = e

-- What goes on around a call: in attempt `k` the database may raise an error of its own, which
-- rolls the attempt back, and other transactions may commit between the checks and the writes.
pub record Surroundings : Type 0 where
  pub fault : ℕ → Option Error
  pub others : ℕ → Db → Db

unfoldable pub settle : {A : Type 0} → Result (A × Db) → Db → Settled A × Db
settle (ok (a, db)) before = (Settled.resolved a, db)
settle (err e) before = (Settled.rejected e, before)

-- shouldRetry: AppErrors and known database errors are final.
unfoldable pub should_retry_create : Error → ℕ → Bool
unfolding is_transient_error
should_retry_create e attempt = is_transient_error e

-- One attempt at a transaction, whose checks read `seen` and whose writes meet `met`.
unfoldable pub attempt_tx :
    {A : Type 0} → Surroundings → ((seen met : Db) → Result (A × Db)) → ℕ → Db → Settled A × Db
unfolding settle
attempt_tx around tx k db = elim (around.fault k) [
  | some e ↦ (Settled.rejected e, around.others k db)
  | none ↦ settle (tx db (around.others k db)) (around.others k db)
]

unfoldable pub translate_settled : Settled Assignment → Settled Assignment
unfolding translate_conflict
translate_settled (Settled.rejected e) = Settled.rejected (translate_conflict e)
translate_settled other = other

unfoldable pub create_assignment :
    (max_attempts : ℕ) (backoff : ℕ → ℕ)
    → Surroundings
    → Supply
    → CreateInput
    → Db
    → Settled Assignment × Db
unfolding with_retry should_retry_create attempt_tx create_tx translate_settled
create_assignment max_attempts backoff around supply input db =
    let run =
      with_retry max_attempts should_retry_create backoff
        (attempt_tx around (λ seen met. create_tx seen met supply input)) db in
    (translate_settled run.outcome, run.state)
