-- ===== src/Assignment/Eligibility.antt =====
-- When createAssignment succeeds, and what it writes.
use mathlib.Core.Option
use mathlib.Core.Path.{subst}
use res_q_server.Common.{
  >>=-ok, [], arith, count_if, count_if-eq_zero, if◌then◌else◌, nat_eq, ok, some, text_eq, true, ℕ,
  ◌++◌, ◌==◌, ◌∷◌, ◌≡◌, ◌≤◌, Error, Result-cases, any-eq_false, app, conflict, err, inl, inr, none,
  not_found, refl, ◌↔◌, ◌≢◌, ◌⊎◌,
}
use res_q_server.Assignment.Defs.{
  CreateInput, Supply, check_create, create_tx, is_active_for, is_active_on, new_assignment,
  set_incident_status, set_resource_status, write_create,
}
use res_q_server.Decision.Matching.{is_type_match}
use res_q_server.Db.Rows.{
  Assignment, Db, Incident, IncidentStatus, OutboxStatus, Payload, Resource, ResourceStatus,
  assignment_status_eq, incident_status_eq, resource_status_eq, role_eq,
}
use res_q_server.Db.Tables.{
  assignment_row, find_unique, incident_row, outbox_row, resource_row, user_row,
  find_unique-set_row, set_row,
}

-- The rules of an assignment, read off the tables.
pub record IsEligible (db : Db) (input : CreateInput) : Type 0 where
  pub incident : Incident
  pub incident_found : find_unique input.incident_id db.incidents ≡ some incident
  pub is_approved : incident.status ≡ IncidentStatus.approved
  pub resource : Resource
  pub resource_found : find_unique input.resource_id db.resources ≡ some resource
  pub is_available : resource.status ≡ ResourceStatus.available
  pub suits : is_type_match resource.type incident.resource_requirements ≡ true
  pub carries : incident.affected_people ≤ resource.capacity
  pub resource_free : count_if (is_active_on input.resource_id) db.assignments ≡ 0
  pub incident_free : count_if (is_active_for input.incident_id) db.assignments ≡ 0

check_create-IsEligible :
    (db : Db) (input : CreateInput) (r : Incident × Resource)
    → check_create db input ≡ ok r
    → IsEligible db input
unfolding check_create
check_create-IsEligible db input (i, r) e = record {
  incident = i;
  incident_found = ground arith;
  is_approved = ground arith;
  resource = r;
  resource_found = ground arith;
  is_available = ground arith;
  suits = ground arith;
  carries = ground arith;
  resource_free = count_if-eq_zero (is_active_on input.resource_id) db.assignments (ground arith);
  incident_free = count_if-eq_zero (is_active_for input.incident_id) db.assignments (ground arith);
}

-- What a new assignment is seen to have done to the tables.
pub record IsAssigned (supply : Supply) (input : CreateInput) (before after : Db) : Type 0 where
  pub assignments : after.assignments ≡ new_assignment supply input ∷ before.assignments
  pub resources :
      (id : ℕ)
      → find_unique id after.resources ≡ (
          if input.resource_id == id
          then Option.map
              (set_resource_status ResourceStatus.busy)
              (find_unique id before.resources)
          else find_unique id before.resources)
  pub incidents :
      (id : ℕ)
      → find_unique id after.incidents ≡ (
          if input.incident_id == id
          then Option.map
              (set_incident_status IncidentStatus.assigned)
              (find_unique id before.incidents)
          else find_unique id before.incidents)
  pub outbox :
      after.outbox
      ≡ before.outbox
        ++ record {
          event_id = supply.event_id;
          payload =
              Payload.assignment_created supply.assignment_id input.incident_id input.resource_id;
          status = OutboxStatus.pending;
          attempts = 0;
        }
          ∷ []

pub create_tx-IsEligible :
    (seen met db' : Db) (supply : Supply) (input : CreateInput) (a : Assignment)
    → create_tx seen met supply input ≡ ok (a, db')
    → IsEligible seen input
unfolding create_tx
create_tx-IsEligible seen met db' supply input a e =
    let (checked, c, _) = >>=-ok (check_create seen input) (λ _. write_create met supply input) e in
    check_create-IsEligible seen input checked c

write_create-IsAssigned :
    (db db' : Db) (supply : Supply) (input : CreateInput) (a : Assignment)
    → write_create db supply input ≡ ok (a, db')
    → IsAssigned supply input db db'
unfolding write_create
write_create-IsAssigned db db' supply input a e = record {
  assignments = ground arith;
  resources = λ id.
      let e' : db'.resources
          ≡ set_row input.resource_id (set_resource_status ResourceStatus.busy) db.resources =
        ground arith in
      rw e' (find_unique-set_row input.resource_id id _ db.resources (λ r. refl));
  incidents = λ id.
      let e' : db'.incidents
          ≡ set_row input.incident_id (set_incident_status IncidentStatus.assigned) db.incidents =
        ground arith in
      rw e' (find_unique-set_row input.incident_id id _ db.incidents (λ r. refl));
  outbox = ground arith;
}

pub create_tx-IsAssigned :
    (seen met db' : Db) (supply : Supply) (input : CreateInput) (a : Assignment)
    → create_tx seen met supply input ≡ ok (a, db')
    → IsAssigned supply input met db'
unfolding create_tx
create_tx-IsAssigned seen met db' supply input a e =
    let (_, _, w) = >>=-ok (check_create seen input) (λ _. write_create met supply input) e in
    write_create-IsAssigned met db' supply input a w

check_create-ok :
    (db : Db) (input : CreateInput) (h : IsEligible db input)
    → check_create db input ≡ ok (h.incident, h.resource)
unfolding check_create
check_create-ok db input h = ground (
  arith,
  any-eq_false (is_active_on input.resource_id) db.assignments h.resource_free,
  any-eq_false (is_active_for input.incident_id) db.assignments h.incident_free,
)

write_create-ne-err :
    (db : Db) (supply : Supply) (input : CreateInput) (x : Error)
    → IsEligible db input
    → write_create db supply input ≢ err x
unfolding write_create
write_create-ne-err db supply input x h e = ground (
  arith,
  h.resource_found,
  h.incident_found,
  any-eq_false (is_active_on input.resource_id) db.assignments h.resource_free,
  any-eq_false (is_active_for input.incident_id) db.assignments h.incident_free,
)

-- With no other transaction in between, the transaction of createAssignment succeeds exactly for
-- an APPROVED incident and an AVAILABLE resource of a required type and enough capacity, neither
-- of them in an ACTIVE assignment.
pub create_tx_iff :
    (db : Db) (supply : Supply) (input : CreateInput)
    → ((a : Assignment) × (db' : Db) × (create_tx db db supply input ≡ ok (a, db')))
      ↔ IsEligible db input
unfolding create_tx
create_tx_iff db supply input = (
  λ r. create_tx-IsEligible db db r.1 supply input r.0 r.2,
  λ h. elim (Result-cases (write_create db supply input)) [
    | inl (w, e) ↦ (w.0, w.1, rw (check_create-ok db input h) e)
    | inr (x, e) ↦ absurd (write_create-ne-err db supply input x h e)
  ],
)

-- A failure of the checks is a conflict, unless a row is missing.
abbrev pub IsRefusal : Db → CreateInput → Error → Type 0
IsRefusal db input x =
    (x ≡ app conflict)
    ⊎ (x ≡ app not_found)
      × ((find_unique input.incident_id db.incidents ≡ none)
          ⊎ (find_unique input.resource_id db.resources ≡ none))

check_create-IsRefusal :
    (db : Db) (input : CreateInput) (x : Error)
    → check_create db input ≡ err x
    → IsRefusal db input x
unfolding check_create
check_create-IsRefusal db input x e = ground arith

-- With no other transaction in between, the transaction of createAssignment fails with 404 or 409
-- only, and 404 means that the incident or the resource is missing: it never meets a unique
-- index.
pub create_tx-IsRefusal :
    (db : Db) (supply : Supply) (input : CreateInput) (x : Error)
    → create_tx db db supply input ≡ err x
    → IsRefusal db input x
unfolding create_tx
create_tx-IsRefusal db supply input x e = elim (Result-cases (check_create db input)) [
  | inl (c, passed) ↦ absurd (
      write_create-ne-err db supply input x (check_create-IsEligible db input c passed)
        (rw passed at e))
  | inr (y, failed) ↦
      let same : y ≡ x = ground arith in
      subst (IsRefusal db input) same (check_create-IsRefusal db input y failed)
]
