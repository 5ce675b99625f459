-- ===== src/Assignment/Races.antt =====
-- Two transactions on one assignment whose checks both read it as ACTIVE.
use res_q_server.Db.Tables.{
  Row, assignment_row, find_unique, find_unique-set_row, hospital_row, incident_row, outbox_row,
  resource_row, set_row, user_row, update_row_listed,
}
use res_q_server.Common.{
  List, app, bad_request, err, nat_beq_iff, nat_eq, ok, refl, some, text_eq, ℕ, ◌∙◌, ◌≡◌,
}
use res_q_server.Db.Rows.{
  Assignment, AssignmentStatus, Db, Incident, Resource, assignment_status_eq, hospital_status_eq,
  incident_status_eq, level_eq, resource_status_eq, role_eq, user_status_eq, IncidentStatus,
  Payload, ResourceStatus,
}
use res_q_server.Assignment.Defs.{
  Supply, allowed_assignment_transitions, set_incident_status, set_resource_status,
  write_outbox_event,
}
use res_q_server.Assignment.Release.{cancel_tx, complete_tx, release, reapprove}

-- The rows that an ACTIVE assignment is about.
pub record IsServed (db : Db) (a : Assignment) (r : Resource) (i : Incident) : Type 0 where
  pub assignment : find_unique a.id db.assignments ≡ some a
  pub resource : find_unique a.resource_id db.resources ≡ some r
  pub incident : find_unique a.incident_id db.incidents ≡ some i
  pub active : a.status ≡ AssignmentStatus.active

set_own :
    {A : Type 0} ⦃row : Row A⦄ (k : ℕ) (f : A → A) (a : A) (rows : List A)
    → ((x : A) → row.key (f x) ≡ row.key x)
    → find_unique k rows ≡ some a
    → find_unique k (set_row k f rows) ≡ some (f a)
set_own k f a rows keeps found =
    find_unique-set_row k k f rows keeps ∙ rw ((nat_beq_iff k k).1 refl, found) refl

-- The tables that the two transactions leave.
abbrev pub completed_db : Db → Supply → Assignment → Db
completed_db met supply a = record met {
  assignments = set_row a.id (release AssignmentStatus.completed supply.now) met.assignments;
  resources = set_row a.resource_id (set_resource_status ResourceStatus.available) met.resources;
  incidents = set_row a.incident_id (set_incident_status IncidentStatus.in_progress) met.incidents;
  outbox =
      write_outbox_event supply.event_id
        (Payload.assignment_completed a.id a.incident_id a.resource_id) met.outbox;
}

abbrev pub cancelled_db : Db → Supply → Assignment → Db
cancelled_db met supply a = record met {
  assignments = set_row a.id (release AssignmentStatus.cancelled supply.now) met.assignments;
  resources = set_row a.resource_id (set_resource_status ResourceStatus.available) met.resources;
  incidents = reapprove a.incident_id met.incidents;
  outbox =
      write_outbox_event supply.event_id
        (Payload.assignment_cancelled a.id a.incident_id a.resource_id) met.outbox;
}

completes :
    (db : Db) (a : Assignment) (r : Resource) (i : Incident) (supply : Supply)
    → IsServed db a r i
    → complete_tx db db supply a.id ≡ ok (completed_db db supply a)
unfolding complete_tx allowed_assignment_transitions
completes db a r i supply served =
    rw
      (
        served.assignment,
        served.active,
        update_row_listed a.id (release AssignmentStatus.completed supply.now) db.assignments a
            served.assignment,
        update_row_listed a.resource_id (set_resource_status ResourceStatus.available) db.resources
            r served.resource,
        update_row_listed a.incident_id (set_incident_status IncidentStatus.in_progress)
            db.incidents i served.incident,
      )
      refl

cancels :
    (seen met : Db) (a b : Assignment) (r : Resource) (supply : Supply)
    → find_unique a.id seen.assignments ≡ some a
    → a.status ≡ AssignmentStatus.active
    → find_unique a.id met.assignments ≡ some b
    → find_unique a.resource_id met.resources ≡ some r
    → cancel_tx seen met supply a.id ≡ ok (cancelled_db met supply a)
unfolding cancel_tx allowed_assignment_transitions
cancels seen met a b r supply found active there resource =
    rw
      (
        found,
        active,
        update_row_listed a.id (release AssignmentStatus.cancelled supply.now) met.assignments b
            there,
        update_row_listed a.resource_id (set_resource_status ResourceStatus.available) met.resources
            r resource,
      )
      refl

cancel_refused :
    (db : Db) (id : ℕ) (a : Assignment) (supply : Supply)
    → find_unique id db.assignments ≡ some a
    → a.status ≡ AssignmentStatus.completed
    → cancel_tx db db supply id ≡ err (app bad_request)
unfolding cancel_tx allowed_assignment_transitions
cancel_refused db id a supply found closed = rw (found, closed) refl

-- completeAssignment and cancelAssignment of one ACTIVE assignment, both of whose checks run before
-- either writes, both succeed. The completed assignment ends as CANCELLED, though the diagram has no
-- arrow from COMPLETED: after the first alone, cancelAssignment is refused with 400.
pub complete_tx-cancel_tx :
    (db : Db) (a : Assignment) (r : Resource) (i : Incident) (first second : Supply)
    → IsServed db a r i
    → (middle : Db) × (after : Db) × (complete_tx db db first a.id ≡ ok middle)
      × (cancel_tx db middle second a.id ≡ ok after)
      × (find_unique a.id after.assignments
          ≡ some (
              release AssignmentStatus.cancelled second.now
                (release AssignmentStatus.completed first.now a)))
      × (cancel_tx middle middle second a.id ≡ err (app bad_request))
complete_tx-cancel_tx db a r i first second served =
    let middle = completed_db db first a in
    let there =
      set_own a.id (release AssignmentStatus.completed first.now) a db.assignments (λ x. refl)
        served.assignment in
    let resource =
      set_own a.resource_id (set_resource_status ResourceStatus.available) r db.resources
        (λ x. refl) served.resource in
    (
      middle,
      cancelled_db middle second a,
      completes db a r i first served,
      cancels db middle a _ _ second served.assignment served.active there resource,
      set_own a.id (release AssignmentStatus.cancelled second.now) _ middle.assignments (λ x. refl)
          there,
      cancel_refused middle a.id _ second there refl,
    )
