-- ===== src/Tests/Reoptimization.antt =====
-- The truck breaks down, and the other one takes over.
use res_q_server.Common.{
  ok, err, some, none, refl, ◌≡◌, app, conflict, [], arith, nat_eq, text_eq, ◌∷◌,
}
use res_q_server.Assignment.Defs.{set_incident_status, set_resource_status}
use res_q_server.Assignment.Release.{release}
use res_q_server.Reoptimization.Service.{
  reoptimize_assignment, replace_tx, replaced_log, replacement_assignment,
}
use res_q_server.Reoptimization.Replacing.{reoptimize_assignment-IsExclusive}
use res_q_server.Reoptimization.Handover.{replace_tx_once}
use res_q_server.Tests.Fixtures.{
  broken, dispatched, distance, far_truck, fire, later, no_wait, stormy, supply, town_speed, truck,
}
use res_q_server.Db.Rows.{
  AssignmentStatus, Db, DecisionType, Incident, IncidentStatus, Resource, ResourceStatus, Trigger,
  assignment_status_eq, incident_status_eq, resource_status_eq, role_eq, hospital_status_eq,
  level_eq, user_status_eq,
}
use res_q_server.Reoptimization.Strategy.{Plan, ReoptimizeInput, Replacement, candidate_of, plan}
use res_q_server.Db.Tables.{
  assignment_row, find_unique, incident_row, outbox_row, resource_row, set_row, user_row,
  hospital_row,
}
use res_q_server.Assignment.Exclusive.{IsExclusive}
use res_q_server.Decision.Matching.{is_type_match}
use res_q_server.Decision.Allocation.{recommend_resource}
use res_q_server.Reoptimization.Engine.{AccessCondition}

abbrev breakdown : ReoptimizeInput
breakdown = record {
  assignment_id = 30;
  trigger = Trigger.resource_failure;
  access_condition = AccessCondition.normal;
  competing_incident_priority = none;
}

abbrev assigned_fire : Incident
assigned_fire = set_incident_status IncidentStatus.assigned fire

abbrev broken_truck : Resource
broken_truck = set_resource_status ResourceStatus.failed truck

abbrev takeover : Replacement
takeover = record {
  incident = assigned_fire;
  previous = broken_truck;
  replacement = candidate_of far_truck;
}

plans_takeover : plan distance town_speed breakdown broken ≡ ok (Plan.replace takeover)
unfolding plan find_unique recommend_resource is_type_match
plans_takeover = refl

-- The tables after the takeover.
abbrev handed_over : Db
handed_over = record broken {
  assignments =
      replacement_assignment later takeover
      ∷ release AssignmentStatus.cancelled 2000 dispatched
      ∷ [];
  resources = broken_truck ∷ set_resource_status ResourceStatus.busy far_truck ∷ [];
  decisions =
      record {
        incident_id = 10;
        selected_resource_id = some 21;
        decision_type = DecisionType.resource_assignment;
        priority_score = none;
      }
      ∷ broken.decisions;
  reoptimizations = replaced_log breakdown takeover ∷ [];
}

takes_over :
    replace_tx broken broken later breakdown takeover
    ≡ ok (replacement_assignment later takeover, handed_over)
unfolding replace_tx find_unique is_type_match set_row
takes_over = refl

replace_tx_once_example :
    replace_tx handed_over handed_over supply breakdown takeover ≡ err (app conflict)
unfolding find_unique
replace_tx_once_example =
    replace_tx_once broken broken handed_over handed_over later supply breakdown breakdown takeover
      takeover (replacement_assignment later takeover) dispatched takes_over refl (omega arith) refl

broken-IsExclusive : IsExclusive broken.assignments
broken-IsExclusive = record { on_resource = λ r. ground arith; for_incident = λ i. ground arith }

reoptimize_assignment-IsExclusive_example :
    IsExclusive
      (reoptimize_assignment distance town_speed 3 no_wait stormy later breakdown
        broken).1.assignments
reoptimize_assignment-IsExclusive_example =
    reoptimize_assignment-IsExclusive distance town_speed 3 no_wait stormy later breakdown broken
      (λ k other h. h) broken-IsExclusive

reoptimizes :
    (reoptimize_assignment distance town_speed 3 no_wait stormy later breakdown broken).1
    ≡ handed_over
unfolding reoptimize_assignment find_unique recommend_resource is_type_match set_row
reoptimizes = refl
