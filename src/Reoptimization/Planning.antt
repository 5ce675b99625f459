-- ===== src/Reoptimization/Planning.antt =====
-- What a plan promises.
use res_q_server.Common.{◌≡◌, ◌≢◌, ◌↔◌, ◌⊎◌, ℕ, arith, true, ◌≤◌, All, ◌*◌, nat_eq, text_eq}
use res_q_server.Db.Rows.{
  Incident, Resource, ResourceStatus, Db, Place, Trigger, assignment_status_eq, incident_status_eq,
  resource_status_eq, role_eq, hospital_status_eq, level_eq, user_status_eq,
}
use res_q_server.Reoptimization.Strategy.{
  ReoptimizeInput, effective_access_condition, is_current_feasible, Plan, Reason, allocation_input,
}
use res_q_server.Reoptimization.Engine.{AccessCondition, assess_current_assignment}
use res_q_server.Decision.Matching.{is_type_match}
use res_q_server.Decision.Allocation.{AllocationInput, Speed}
use res_q_server.Decision.Allocation.Choice.{IsBest, IsSuitable}
use res_q_server.Db.Tables.{
  assignment_row, incident_row, outbox_row, resource_row, user_row, hospital_row,
}

-- The assigned resource still serves its incident: deployed or ready, of a required type, large
-- enough, and on a route that is not blocked.
pub record Serves (input : ReoptimizeInput) (i : Incident) (r : Resource) : Type 0 where
  pub deployed : (r.status ≡ ResourceStatus.busy) ⊎ (r.status ≡ ResourceStatus.available)
  pub matches : is_type_match r.type i.resource_requirements ≡ true
  pub carries : i.affected_people ≤ r.capacity
  pub reachable : effective_access_condition input ≢ AccessCondition.blocked

pub is_current_feasible_iff :
    (input : ReoptimizeInput) (i : Incident) (r : Resource)
    → (is_current_feasible input i r ≡ true) ↔ Serves input i r
unfolding is_current_feasible assess_current_assignment
is_current_feasible_iff input i r = (
  λ e. record {
    deployed = ground arith;
    matches = ground arith;
    carries = ground arith;
    reachable = λ h. ground arith;
  },
  λ s. ground arith,
)

module _ (distance : Place → Place → ℕ) (speed : Speed) (input : ReoptimizeInput) where
  -- The engine's input for the access condition: a DIFFICULT route divides the speed by 1.5.
  abbrev pub slow_speed : Speed → AccessCondition → Speed
  slow_speed v AccessCondition.difficult = record { num = v.num * 2; den = v.den * 3 }
  slow_speed v _ = record { num = v.num * 1; den = v.den * 1 }

  abbrev pub slowed : AllocationInput → AccessCondition → AllocationInput
  slowed a access = record a { average_speed = slow_speed a.average_speed access }

  -- The engine's view of the incident and of all other resources.
  abbrev pub request : Incident → Resource → Db → AllocationInput
  request i r db =
      slowed (allocation_input distance speed i r db) (effective_access_condition input)

  -- What each kind of plan promises.
  abbrev pub IsPlan : Incident → Resource → Db → Plan → Type 0
  IsPlan i r db (Plan.keep Reason.preemption_disabled i' r') =
      (i' ≡ i) × (r' ≡ r) × (input.trigger ≡ Trigger.higher_priority_incident)
  IsPlan i r db (Plan.keep Reason.priority_insufficient i' r') = ⊥
  IsPlan i r db (Plan.keep Reason.still_feasible i' r') = (i' ≡ i) × (r' ≡ r) × Serves input i r
  IsPlan i r db (Plan.keep Reason.no_replacement i' r') =
      (i' ≡ i)
      × (r' ≡ r)
      × ¬ Serves input i r
      × (effective_access_condition input ≢ AccessCondition.blocked
          → All (λ c. ¬ IsSuitable (request i r db) c) (request i r db).available_resources)
  IsPlan i r db (Plan.replace p) =
      (p.incident ≡ i)
      × (p.previous ≡ r)
      × ¬ Serves input i r
      × (effective_access_condition input ≢ AccessCondition.blocked)
      × (p.replacement.id ≢ r.id)
      × IsBest distance (request i r db) (request i r db).available_resources p.replacement
