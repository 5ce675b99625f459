-- ===== src/Assignment/Undo.antt =====
-- Cancelling a fresh assignment, and what closing an assignment does to rows that have moved on.
use res_q_server.Common.{
  arith, nat_eq, ok, text_eq, ℕ, ◌≡◌, >>=-ok, Error, List, Result-cases, err, inl, inr, refl, some,
  ◌∷◌, ◌≢◌,
}
use res_q_server.Db.Rows.{
  Assignment, Db, Incident, IncidentStatus, Resource, ResourceStatus, assignment_status_eq,
  incident_status_eq, resource_status_eq, role_eq, AssignmentStatus,
}
use res_q_server.Assignment.Defs.{
  CreateInput, Supply, create_tx, new_assignment, set_incident_status, set_resource_status,
  write_create, check_create,
}
use res_q_server.Assignment.Release.{cancel_assignment, complete_assignment}
use res_q_server.Assignment.Lifecycle.{
  reapproved, cancel_assignment-IsReleased, complete_assignment-IsReleased,
}
use res_q_server.Db.Tables.{
  assignment_row, find_unique, incident_row, outbox_row, resource_row, user_row,
}
use res_q_server.Assignment.Eligibility.{
  IsAssigned, IsEligible, create_tx-IsAssigned, create_tx-IsEligible,
}

resource_restored :
    (r : Resource)
    → r.status ≡ ResourceStatus.available
    → set_resource_status ResourceStatus.available (set_resource_status ResourceStatus.busy r) ≡ r
resource_restored r e = ground arith

incident_restored :
    (i : Incident)
    → i.status ≡ IncidentStatus.approved
    → reapproved (set_incident_status IncidentStatus.assigned i) ≡ i
incident_restored i e = ground arith

write_create-new :
    (db db' : Db) (supply : Supply) (input : CreateInput) (a : Assignment)
    → write_create db supply input ≡ ok (a, db')
    → a ≡ new_assignment supply input
unfolding write_create
write_create-new db db' supply input a e = ground arith

pub create_tx-new :
    (seen met db' : Db) (supply : Supply) (input : CreateInput) (a : Assignment)
    → create_tx seen met supply input ≡ ok (a, db')
    → a ≡ new_assignment supply input
unfolding create_tx
create_tx-new seen met db' supply input a e =
    let (_, _, w) = >>=-ok (check_create seen input) (λ _. write_create met supply input) e in
    write_create-new met db' supply input a w

-- An ACTIVE assignment whose resource is there can be cancelled.
cancel_assignment-ne-err :
    (supply : Supply) (db : Db) (a : Assignment) (r : Resource) (x : Error)
    → find_unique a.id db.assignments ≡ some a
    → a.status ≡ AssignmentStatus.active
    → find_unique a.resource_id db.resources ≡ some r
    → cancel_assignment supply a.id db ≢ err x
unfolding cancel_assignment
cancel_assignment-ne-err supply db a r x found active resource e = ground arith

find_unique-head : (a : Assignment) (rows : List Assignment) → find_unique a.id (a ∷ rows) ≡ some a
unfolding find_unique
find_unique-head a rows = ground arith

module _ (db db' : Db) (supply later : Supply) (input : CreateInput)
    (eligible : IsEligible db input) (assigned : IsAssigned supply input db db') where
  found_new : find_unique supply.assignment_id db'.assignments ≡ some (new_assignment supply input)
  found_new =
      rw (assigned.assignments) (find_unique-head (new_assignment supply input) db.assignments)

  found_resource :
      find_unique input.resource_id db'.resources
      ≡ some (set_resource_status ResourceStatus.busy eligible.resource)
  found_resource = ground (arith, assigned.resources input.resource_id, eligible.resource_found)

  restored :
      (db'' : Db)
      → cancel_assignment later supply.assignment_id db' ≡ ok db''
      → ((id : ℕ) → find_unique id db''.incidents ≡ find_unique id db.incidents)
        × ((id : ℕ) → find_unique id db''.resources ≡ find_unique id db.resources)
  restored db'' e =
      let (a, found, _, released, incidents) =
        cancel_assignment-IsReleased later supply.assignment_id db' db'' e in
      let same : a ≡ new_assignment supply input = cc (found, found_new) in
      (
        λ id. ground (
          arith,
          incidents id,
          assigned.incidents id,
          eligible.incident_found,
          incident_restored eligible.incident eligible.is_approved,
        ),
        λ id. ground (
          arith,
          released.freed id,
          assigned.resources id,
          eligible.resource_found,
          resource_restored eligible.resource eligible.is_available,
        ),
      )

  undone :
      (db'' : Db) × (cancel_assignment later supply.assignment_id db' ≡ ok db'')
      × ((id : ℕ) → find_unique id db''.incidents ≡ find_unique id db.incidents)
      × ((id : ℕ) → find_unique id db''.resources ≡ find_unique id db.resources)
  undone = elim (Result-cases (cancel_assignment later supply.assignment_id db')) [
    | inl (db'', e) ↦
        let (incidents, resources) = restored db'' e in (db'', e, incidents, resources)
    | inr (x, e) ↦ absurd (
        cancel_assignment-ne-err later db' (new_assignment supply input) _ x found_new refl
          found_resource e)
  ]

-- Cancelling an assignment right after its creation, with no other transaction in between,
-- succeeds and takes every incident and every resource back to what they were.
pub cancel_assignment-create_tx :
    (db db' : Db) (supply later : Supply) (input : CreateInput) (a : Assignment)
    → create_tx db db supply input ≡ ok (a, db')
    → (db'' : Db) × (cancel_assignment later a.id db' ≡ ok db'')
      × ((id : ℕ) → find_unique id db''.incidents ≡ find_unique id db.incidents)
      × ((id : ℕ) → find_unique id db''.resources ≡ find_unique id db.resources)
cancel_assignment-create_tx db db' supply later input a e =
    rw (create_tx-new db db db' supply input a e) (
      undone db db' supply later input (create_tx-IsEligible db db db' supply input a e)
        (create_tx-IsAssigned db db db' supply input a e))

complete_assignment-ne-err :
    (supply : Supply) (db : Db) (a : Assignment) (i : Incident) (r : Resource) (x : Error)
    → find_unique a.id db.assignments ≡ some a
    → a.status ≡ AssignmentStatus.active
    → find_unique a.incident_id db.incidents ≡ some i
    → find_unique a.resource_id db.resources ≡ some r
    → complete_assignment supply a.id db ≢ err x
unfolding complete_assignment
complete_assignment-ne-err supply db a i r x found active incident resource e = ground arith

-- Completing an ACTIVE assignment whose incident and resource are listed succeeds, moves the
-- incident to IN_PROGRESS and makes the resource AVAILABLE whatever their statuses are by then: a
-- CANCELLED incident is revived, and a FAILED resource is offered again.
pub complete_assignment_overwrites :
    (supply : Supply) (db : Db) (a : Assignment) (i : Incident) (r : Resource)
    → find_unique a.id db.assignments ≡ some a
    → a.status ≡ AssignmentStatus.active
    → find_unique a.incident_id db.incidents ≡ some i
    → find_unique a.resource_id db.resources ≡ some r
    → (db' : Db) × (complete_assignment supply a.id db ≡ ok db')
      × (find_unique a.incident_id db'.incidents
          ≡ some (set_incident_status IncidentStatus.in_progress i))
      × (find_unique a.resource_id db'.resources
          ≡ some (set_resource_status ResourceStatus.available r))
complete_assignment_overwrites supply db a i r found active incident resource =
    elim (Result-cases (complete_assignment supply a.id db)) [
      | inl (db', e) ↦
          let (b, found', _, released, incidents) =
            complete_assignment-IsReleased supply a.id db db' e in
          let same : b ≡ a = cc (found, found') in
          (
            db',
            e,
            ground (arith, incidents a.incident_id),
            ground (arith, released.freed a.resource_id),
          )
      | inr (x, e) ↦
          absurd (complete_assignment-ne-err supply db a i r x found active incident resource e)
    ]

-- Cancelling an ACTIVE assignment whose resource is listed succeeds, and makes the resource
-- AVAILABLE whatever its status is by then, a FAILED one too.
pub cancel_assignment_overwrites :
    (supply : Supply) (db : Db) (a : Assignment) (r : Resource)
    → find_unique a.id db.assignments ≡ some a
    → a.status ≡ AssignmentStatus.active
    → find_unique a.resource_id db.resources ≡ some r
    → (db' : Db) × (cancel_assignment supply a.id db ≡ ok db')
      × (find_unique a.resource_id db'.resources
          ≡ some (set_resource_status ResourceStatus.available r))
cancel_assignment_overwrites supply db a r found active resource =
    elim (Result-cases (cancel_assignment supply a.id db)) [
      | inl (db', e) ↦
          let (b, found', _, released, _) = cancel_assignment-IsReleased supply a.id db db' e in
          let same : b ≡ a = cc (found, found') in
          (db', e, ground (arith, released.freed a.resource_id))
      | inr (x, e) ↦ absurd (cancel_assignment-ne-err supply db a r x found active resource e)
    ]
