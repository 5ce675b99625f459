-- ===== src/Assignment/Exclusive.antt =====
-- One ACTIVE assignment for a resource and one for an incident: what the application-level checks
-- and the partial unique indexes of the assignments table are for.
use res_q_server.Common.{
  List, any, arith, count_if, count_if-eq_zero, false, nat_eq, text_eq, ℕ, ◌∷◌, ◌≡◌, ◌≢◌, ◌≤◌, ok,
  >>=-ok,
}
use res_q_server.Db.Rows.{
  Assignment, AssignmentStatus, Db, assignment_status_eq, incident_status_eq, resource_status_eq,
  role_eq,
}
use res_q_server.Assignment.Defs.{
  CreateInput, Supply, insert_active, is_active_for, is_active_on, write_create, check_create,
  create_tx, new_assignment,
}
use res_q_server.Assignment.Release.{release, cancel_assignment, complete_assignment}
use res_q_server.Db.Tables.{
  assignment_row, incident_row, outbox_row, resource_row, set_row, user_row, count_if-set_row,
}

pub record IsExclusive (rows : List Assignment) : Type 0 where
  pub on_resource : (r : ℕ) → count_if (is_active_on r) rows ≤ 1
  pub for_incident : (i : ℕ) → count_if (is_active_for i) rows ≤ 1

insert_active-shape :
    (a : Assignment) (rows rows' : List Assignment)
    → insert_active a rows ≡ ok rows'
    → (rows' ≡ a ∷ rows)
      × (any (is_active_on a.resource_id) rows ≡ false)
      × (any (is_active_for a.incident_id) rows ≡ false)
unfolding insert_active
insert_active-shape a rows rows' e = ground arith

pub insert_active-IsExclusive :
    (a : Assignment) (rows rows' : List Assignment)
    → insert_active a rows ≡ ok rows'
    → IsExclusive rows
    → IsExclusive rows'
insert_active-IsExclusive a rows rows' e h =
    let (shape, free_resource, free_incident) = insert_active-shape a rows rows' e in
    let no_resource = count_if-eq_zero (is_active_on a.resource_id) rows free_resource in
    let no_incident = count_if-eq_zero (is_active_for a.incident_id) rows free_incident in
    rw shape (record {
      on_resource = λ r. ground (arith, h.on_resource r, no_resource);
      for_incident = λ i. ground (arith, h.for_incident i, no_incident);
    })

-- An assignment that is closed frees its resource and its incident, and takes no other.
pub release-IsExclusive :
    (status : AssignmentStatus) (now id : ℕ) (rows : List Assignment)
    → status ≢ AssignmentStatus.active
    → IsExclusive rows
    → IsExclusive (set_row id (release status now) rows)
release-IsExclusive status now id rows closed h = record {
  on_resource = λ r. omega (
    arith,
    h.on_resource r,
    count_if-set_row (is_active_on r) id (release status now) rows (λ a. ground arith),
  );
  for_incident = λ i. omega (
    arith,
    h.for_incident i,
    count_if-set_row (is_active_for i) id (release status now) rows (λ a. ground arith),
  );
}

write_create-insert :
    (db db' : Db) (supply : Supply) (input : CreateInput) (a : Assignment)
    → write_create db supply input ≡ ok (a, db')
    → insert_active (new_assignment supply input) db.assignments ≡ ok db'.assignments
unfolding write_create
write_create-insert db db' supply input a e = ground arith

-- The writes of createAssignment keep the assignments exclusive whatever tables they meet: the
-- checks may have read other ones.
pub create_tx-IsExclusive :
    (seen met db' : Db) (supply : Supply) (input : CreateInput) (a : Assignment)
    → create_tx seen met supply input ≡ ok (a, db')
    → IsExclusive met.assignments
    → IsExclusive db'.assignments
unfolding create_tx
create_tx-IsExclusive seen met db' supply input a e h =
    let (checked, _, written) =
      >>=-ok (check_create seen input) (λ _. write_create met supply input) e in
    insert_active-IsExclusive _ met.assignments db'.assignments
      (write_create-insert met db' supply input a written) h

-- A successful completeAssignment keeps at most one ACTIVE assignment for each resource and for
-- each incident.
pub complete_assignment-IsExclusive :
    (supply : Supply) (id : ℕ) (db db' : Db)
    → complete_assignment supply id db ≡ ok db'
    → IsExclusive db.assignments
    → IsExclusive db'.assignments
unfolding complete_assignment
complete_assignment-IsExclusive supply id db db' e h =
    ground (
      arith,
      release-IsExclusive AssignmentStatus.completed supply.now id db.assignments (λ x. cc) h,
    )

-- A successful cancelAssignment keeps at most one ACTIVE assignment for each resource and for
-- each incident.
pub cancel_assignment-IsExclusive :
    (supply : Supply) (id : ℕ) (db db' : Db)
    → cancel_assignment supply id db ≡ ok db'
    → IsExclusive db.assignments
    → IsExclusive db'.assignments
unfolding cancel_assignment
cancel_assignment-IsExclusive supply id db db' e h =
    ground (
      arith,
      release-IsExclusive AssignmentStatus.cancelled supply.now id db.assignments (λ x. cc) h,
    )
