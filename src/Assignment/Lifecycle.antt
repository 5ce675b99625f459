-- ===== src/Assignment/Lifecycle.antt =====
-- The life of an assignment after its creation: completion and cancellation.
use mathlib.Core.Option
use res_q_server.Common.{
  if◌then◌else◌, includes, nat_eq, refl, text_eq, true, ℕ, ◌==◌, ◌≡◌, List, arith, length, ok, some,
  Option-cases, inl, inr, length-append, ◌+◌, app, bad_request, err, ◌⊎◌,
}
use res_q_server.Assignment.Defs.{
  Supply, allowed_assignment_transitions, set_resource_status, set_incident_status,
  write_outbox_event,
}
use res_q_server.Assignment.Release.{release, complete_assignment, reapprove, cancel_assignment}
use res_q_server.Db.Tables.{
  assignment_row, find_unique, incident_row, outbox_row, resource_row, user_row, find_unique-key,
  find_unique-set_row, set_row,
}
use res_q_server.Db.Rows.{
  Assignment, AssignmentStatus, Db, ResourceStatus, assignment_status_eq, incident_status_eq,
  resource_status_eq, role_eq, Incident, IncidentStatus, Payload,
}

-- The diagram of assignment.interface.ts.
pub data Follows : AssignmentStatus → AssignmentStatus → Type 0 where
  deployed : Follows AssignmentStatus.pending AssignmentStatus.active
  voided : Follows AssignmentStatus.pending AssignmentStatus.cancelled
  accomplished : Follows AssignmentStatus.active AssignmentStatus.completed
  aborted : Follows AssignmentStatus.active AssignmentStatus.cancelled

abbrev pub reapproved : Incident → Incident
reapproved i =
    if i.status == IncidentStatus.assigned then set_incident_status IncidentStatus.approved i else i

ruleset diagram = (Follows.deployed, Follows.voided, Follows.accomplished, Follows.aborted)

Follows-of_allowed :
    (s t : AssignmentStatus) → includes (allowed_assignment_transitions s) t ≡ true → Follows s t
unfolding allowed_assignment_transitions
Follows-of_allowed s t e = grind (arith, diagram)

allowed-Follows :
    {s t : AssignmentStatus} → Follows s t → includes (allowed_assignment_transitions s) t ≡ true
unfolding allowed_assignment_transitions
allowed-Follows Follows.deployed = refl
allowed-Follows Follows.voided = refl
allowed-Follows Follows.accomplished = refl
allowed-Follows Follows.aborted = refl

-- What closing an assignment does to the tables.
pub record IsReleased (status : AssignmentStatus) (supply : Supply) (a : Assignment)
    (before after : Db) : Type 0 where
  pub closed :
      (id : ℕ)
      → find_unique id after.assignments ≡ (
          if a.id == id
          then Option.map (release status supply.now) (find_unique id before.assignments)
          else find_unique id before.assignments)
  pub freed :
      (id : ℕ)
      → find_unique id after.resources ≡ (
          if a.resource_id == id
          then Option.map
              (set_resource_status ResourceStatus.available)
              (find_unique id before.resources)
          else find_unique id before.resources)
  pub event :
      (length after.outbox ≡ length before.outbox + 1) × (after.decisions ≡ before.decisions)

-- The tables that both ways to close an assignment leave.
module _ (status : AssignmentStatus) (supply : Supply) (a : Assignment) (db db' : Db)
    (payload : Payload) where
  IsReleased-of_tables :
      db'.assignments ≡ set_row a.id (release status supply.now) db.assignments
      → db'.resources
        ≡ set_row a.resource_id (set_resource_status ResourceStatus.available) db.resources
      → db'.outbox ≡ write_outbox_event supply.event_id payload db.outbox
      → db'.decisions ≡ db.decisions
      → IsReleased status supply a db db'
  unfolding write_outbox_event
  IsReleased-of_tables e f g d = record {
    closed = λ id. rw e (find_unique-set_row a.id id _ db.assignments (λ x. refl));
    freed = λ id. rw f (find_unique-set_row a.resource_id id _ db.resources (λ x. refl));
    event = (rw g (length-append db.outbox _), d);
  }

pub complete_assignment-IsReleased :
    (supply : Supply) (id : ℕ) (db db' : Db)
    → complete_assignment supply id db ≡ ok db'
    → (a : Assignment) × (find_unique id db.assignments ≡ some a)
      × Follows a.status AssignmentStatus.completed
      × IsReleased AssignmentStatus.completed supply a db db'
      × ((i : ℕ)
          → find_unique i db'.incidents ≡ (
              if a.incident_id == i
              then Option.map
                  (set_incident_status IncidentStatus.in_progress)
                  (find_unique i db.incidents)
              else find_unique i db.incidents))
unfolding complete_assignment
complete_assignment-IsReleased supply id db db' e =
    elim (Option-cases (find_unique id db.assignments)) [
      | inl missing ↦ absurd (ground arith)
      | inr (a, found) ↦
          let key : a.id ≡ id = find_unique-key id db.assignments a found in
          let incidents : db'.incidents
              ≡ set_row a.incident_id (set_incident_status IncidentStatus.in_progress)
                  db.incidents =
            ground arith in
          (
            a,
            found,
            Follows-of_allowed a.status AssignmentStatus.completed (ground arith),
            IsReleased-of_tables AssignmentStatus.completed supply a db db'
                (Payload.assignment_completed id a.incident_id a.resource_id) (ground arith)
                (ground arith) (ground arith) (ground arith),
            λ i. rw incidents (find_unique-set_row a.incident_id i _ db.incidents (λ x. refl)),
          )
    ]

reapprove-view :
    (id i : ℕ) (incidents : List Incident)
    → find_unique i (reapprove id incidents) ≡ (
        if id == i
        then Option.map reapproved (find_unique i incidents)
        else find_unique i incidents)
unfolding reapprove
reapprove-view id i incidents = ground (
  arith,
  find_unique-set_row id i (set_incident_status IncidentStatus.approved) incidents (λ x. refl),
)

pub cancel_assignment-IsReleased :
    (supply : Supply) (id : ℕ) (db db' : Db)
    → cancel_assignment supply id db ≡ ok db'
    → (a : Assignment) × (find_unique id db.assignments ≡ some a)
      × Follows a.status AssignmentStatus.cancelled
      × IsReleased AssignmentStatus.cancelled supply a db db'
      × ((i : ℕ)
          → find_unique i db'.incidents ≡ (
              if a.incident_id == i
              then Option.map reapproved (find_unique i db.incidents)
              else find_unique i db.incidents))
unfolding cancel_assignment
cancel_assignment-IsReleased supply id db db' e =
    elim (Option-cases (find_unique id db.assignments)) [
      | inl missing ↦ absurd (ground arith)
      | inr (a, found) ↦
          let key : a.id ≡ id = find_unique-key id db.assignments a found in
          let incidents : db'.incidents ≡ reapprove a.incident_id db.incidents = ground arith in
          (
            a,
            found,
            Follows-of_allowed a.status AssignmentStatus.cancelled (ground arith),
            IsReleased-of_tables AssignmentStatus.cancelled supply a db db'
                (Payload.assignment_cancelled id a.incident_id a.resource_id) (ground arith)
                (ground arith) (ground arith) (ground arith),
            λ i. rw incidents (reapprove-view a.incident_id i db.incidents),
          )
    ]

-- COMPLETED and CANCELLED are terminal: closing such an assignment again is refused with 400.
pub close_terminal :
    (supply : Supply) (id : ℕ) (db : Db) (a : Assignment)
    → find_unique id db.assignments ≡ some a
    → (a.status ≡ AssignmentStatus.completed) ⊎ (a.status ≡ AssignmentStatus.cancelled)
    → (complete_assignment supply id db ≡ err (app bad_request))
      × (cancel_assignment supply id db ≡ err (app bad_request))
unfolding complete_assignment cancel_assignment
close_terminal supply id db a found terminal = ground arith
