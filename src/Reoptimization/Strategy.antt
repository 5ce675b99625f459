-- ===== src/Reoptimization/Strategy.antt =====
-- reoptimization.service.ts, steps 1 to 5: the plan, which is made outside of the transaction.
use res_q_server.Common.{
  Bool, List, Option, ℕ, if◌then◌else◌, ◌==◌, not, map, true, false, none, some, [], ◌∷◌, ◌&&◌,
  conflict, not_found, app, fatal, Result, guard, includes, nat_eq, ok, or_throw, text_eq, ◌>>=◌,
  ◌>>◌, ◌||◌,
}
use res_q_server.Reoptimization.Engine.{
  AccessCondition, allow_preemption, assess_current_assignment, build_alternative_candidates,
  find_replacement_resource, should_preempt,
}
use res_q_server.Decision.Allocation.{AllocationInput, Candidate, Speed}
use res_q_server.Db.Tables.{
  assignment_row, find_unique, incident_row, outbox_row, resource_row, user_row,
}
use res_q_server.Db.Rows.{
  AssignmentStatus, Db, Incident, IncidentStatus, Place, Resource, ResourceStatus, Trigger,
  assignment_status_eq, incident_status_eq, resource_status_eq, role_eq,
}

abbrev pub active_incident_statuses : List IncidentStatus
active_incident_statuses =
    IncidentStatus.approved ∷ IncidentStatus.assigned ∷ IncidentStatus.in_progress ∷ []

pub record ReoptimizeInput : Type 0 where
  pub assignment_id : ℕ
  pub trigger : Trigger
  pub access_condition : AccessCondition
  pub competing_incident_priority : Option ℕ

pub data Reason : Type 0 where
  preemption_disabled priority_insufficient still_feasible no_replacement : Reason

-- What steps 1 to 5 decide: to log that the assignment stays, or to replace its resource.
pub record Replacement : Type 0 where
  pub incident : Incident
  pub previous : Resource
  pub replacement : Candidate

pub data Plan : Type 0 where
  keep : Reason → Incident → Resource → Plan
  replace : Replacement → Plan

abbrev pub candidate_of : Resource → Candidate
candidate_of r = record {
  id = r.id;
  name = r.name;
  type = r.type;
  status = r.status;
  capacity = r.capacity;
  place = r.place;
}

abbrev pub is_higher_priority : Trigger → Bool
is_higher_priority Trigger.higher_priority_incident = true
is_higher_priority _ = false

abbrev pub effective_access_condition : ReoptimizeInput → AccessCondition
effective_access_condition input = elim input.trigger [
  | Trigger.access_condition_change ↦ input.access_condition
  | _ ↦ AccessCondition.normal
]

abbrev is_blocked : AccessCondition → Bool
is_blocked AccessCondition.blocked = true
is_blocked _ = false

abbrev pub or_zero : Option ℕ → ℕ
or_zero none = 0
or_zero (some n) = n

-- Step 3: the assessment, and the route.
unfoldable pub is_current_feasible : ReoptimizeInput → Incident → Resource → Bool
unfolding assess_current_assignment
is_current_feasible input incident resource =
    let here =
      resource.status == ResourceStatus.busy || resource.status == ResourceStatus.available in
    elim (assess_current_assignment resource.status resource.capacity incident.affected_people
      incident.resource_requirements resource.type here) [
        | some _ ↦ false
        | none ↦ not (is_blocked (effective_access_condition input))
      ]

-- The transaction and the services run on one database; the distance function and the configured
-- speed are the same for all calls.
module _ (haversine_distance : Place → Place → ℕ) (average_speed : Speed) where
  abbrev pub allocation_input : Incident → Resource → Db → AllocationInput
  allocation_input incident resource db = record {
    incident_id = incident.id;
    incident_place = incident.place;
    affected_people = incident.affected_people;
    resource_requirements = incident.resource_requirements;
    available_resources = build_alternative_candidates (map candidate_of db.resources) resource.id;
    average_speed = average_speed;
  }

  unfoldable pub plan_selected : Incident → Resource → Option Candidate → Plan
  plan_selected incident resource none = Plan.keep Reason.no_replacement incident resource
  plan_selected incident resource (some c) =
      Plan.replace (record { incident = incident; previous = resource; replacement = c })

  -- Steps 3 to 5.
  unfoldable pub plan_replacement : ReoptimizeInput → Incident → Resource → Db → Plan
  unfolding is_current_feasible plan_selected find_replacement_resource build_alternative_candidates
  plan_replacement input incident resource db =
      if is_current_feasible input incident resource
      then Plan.keep Reason.still_feasible incident resource
      else plan_selected incident resource
          (find_replacement_resource haversine_distance (allocation_input incident resource db)
            (effective_access_condition input)).selected_resource

  -- Step 2: a competing incident may take the resource only if preemption is allowed.
  unfoldable pub plan_active : ReoptimizeInput → Incident → Resource → Db → Plan
  unfolding should_preempt plan_replacement
  plan_active input incident resource db =
      if is_higher_priority input.trigger && not allow_preemption
      then Plan.keep Reason.preemption_disabled incident resource
      else if is_higher_priority input.trigger
          && not (
              should_preempt (or_zero incident.priority_score)
                (or_zero input.competing_incident_priority))
      then Plan.keep Reason.priority_insufficient incident resource
      else plan_replacement input incident resource db

  -- Steps 1 to 5. The foreign keys of the row that is read are in their tables.
  unfoldable pub plan : ReoptimizeInput → Db → Result Plan
  unfolding plan_active
  plan input db = do
    assignment ← or_throw (find_unique input.assignment_id db.assignments) (app not_found)
    guard (assignment.status == AssignmentStatus.active) (app conflict)
    incident ← or_throw (find_unique assignment.incident_id db.incidents) fatal
    resource ← or_throw (find_unique assignment.resource_id db.resources) fatal
    guard (includes active_incident_statuses incident.status) (app conflict)
    ok (plan_active input incident resource db)
