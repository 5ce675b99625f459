-- ===== src/Tests/Assignment.antt =====
-- createAssignment, completeAssignment and cancelAssignment on the district.
use mathlib.Core.Option
use res_q_server.Common.{
  ok, err, some, refl, ◌≡◌, app, conflict, arith, nat_eq, text_eq, ◌↔◌, ℕ, bad_request,
}
use res_q_server.Tests.Fixtures.{
  deployed, dispatch, dispatched, district, fire, supply, truck, cancelled, completed, later,
  no_wait, stormy,
}
use res_q_server.Assignment.Eligibility.{IsEligible, create_tx_iff}
use res_q_server.Decision.Matching.{is_type_match}
use res_q_server.Db.Rows.{
  Assignment, Db, assignment_status_eq, incident_status_eq, resource_status_eq, role_eq,
  AssignmentStatus, IncidentStatus, ResourceStatus, hospital_status_eq, level_eq, user_status_eq,
}
use res_q_server.Db.Tables.{
  assignment_row, find_unique, incident_row, outbox_row, resource_row, user_row, set_row,
  hospital_row,
}
use res_q_server.Assignment.Exclusive.{IsExclusive, create_tx-IsExclusive}
use res_q_server.Assignment.Defs.{
  create_tx, create_assignment, set_incident_status, set_resource_status, Supply,
}
use res_q_server.Assignment.Release.{cancel_assignment, cancel_tx, complete_tx, release}
use res_q_server.Reliability.Retry.{Settled}
use res_q_server.Assignment.Undo.{cancel_assignment-create_tx}
use res_q_server.Assignment.Concurrency.{create_assignment-IsExclusive}
use res_q_server.Assignment.Races.{complete_tx-cancel_tx}

create_deploys : create_tx district district supply dispatch ≡ ok (dispatched, deployed)
unfolding create_tx find_unique is_type_match set_row
create_deploys = refl

district-IsExclusive : IsExclusive district.assignments
district-IsExclusive = record { on_resource = λ r. omega arith; for_incident = λ i. omega arith }

eligible : IsEligible district dispatch
unfolding find_unique is_type_match
eligible = record {
  incident = fire;
  incident_found = refl;
  is_approved = refl;
  resource = truck;
  resource_found = refl;
  is_available = refl;
  suits = refl;
  carries = omega arith;
  resource_free = refl;
  incident_free = refl;
}

create_tx_iff_example :
    ((a : Assignment) × (db' : Db) × (create_tx district district supply dispatch ≡ ok (a, db')))
    ↔ IsEligible district dispatch
create_tx_iff_example = create_tx_iff district supply dispatch

create_refuses : create_tx deployed deployed later dispatch ≡ err (app conflict)
unfolding create_tx find_unique
create_refuses = refl

create_assignment-IsExclusive_example :
    IsExclusive (create_assignment 3 no_wait stormy supply dispatch district).1.assignments
create_assignment-IsExclusive_example =
    create_assignment-IsExclusive 3 no_wait stormy supply dispatch district (λ k other h. h)
      district-IsExclusive

create_retries :
    create_assignment 3 no_wait stormy supply dispatch district
    ≡ (Settled.resolved dispatched, deployed)
unfolding create_assignment find_unique is_type_match set_row
create_retries = refl

deployed-IsExclusive : IsExclusive deployed.assignments
deployed-IsExclusive =
    create_tx-IsExclusive district district deployed supply dispatch dispatched create_deploys
      district-IsExclusive

cancel_assignment-create_tx_example :
    (db'' : Db) × (cancel_assignment later 30 deployed ≡ ok db'')
    × ((id : ℕ) → find_unique id db''.incidents ≡ find_unique id district.incidents)
    × ((id : ℕ) → find_unique id db''.resources ≡ find_unique id district.resources)
cancel_assignment-create_tx_example =
    cancel_assignment-create_tx district deployed supply later dispatch dispatched create_deploys

abbrev much_later : Supply
much_later = record { assignment_id = 32; event_id = 42; now = 3000 }

complete_tx-cancel_tx_example :
    (middle : Db) × (after : Db) × (complete_tx deployed deployed later 30 ≡ ok middle)
    × (cancel_tx deployed middle much_later 30 ≡ ok after)
    × (find_unique 30 after.assignments
        ≡ some (
            release AssignmentStatus.cancelled 3000
              (release AssignmentStatus.completed 2000 dispatched)))
    × (cancel_tx middle middle much_later 30 ≡ err (app bad_request))
unfolding find_unique
complete_tx-cancel_tx_example =
    complete_tx-cancel_tx deployed dispatched (set_resource_status ResourceStatus.busy truck)
      (set_incident_status IncidentStatus.assigned fire) later much_later
      (record { assignment = refl; resource = refl; incident = refl; active = refl })
