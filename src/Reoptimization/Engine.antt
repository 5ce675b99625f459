-- ===== src/Reoptimization/Engine.antt =====
-- reoptimization.engine.ts: pure decisions on an assignment and the other resources.
use res_q_server.Common.{
  Bool, List, Option, Text, ℕ, if◌then◌else◌, ◌==◌, not, ltb, leb, filter, map, false, none, some,
  [], ◌*◌, ◌+◌, nat_eq, text_eq,
}
use res_q_server.Decision.Allocation.{
  AllocationInput, AllocationResult, Candidate, Evaluation, Message, Rejection, Verdict,
  recommend_resource,
}
use res_q_server.Db.Rows.{
  Place, ResourceStatus, assignment_status_eq, incident_status_eq, resource_status_eq, role_eq,
}
use res_q_server.Decision.Matching.{is_type_match}
use res_q_server.Db.Tables.{assignment_row, incident_row, outbox_row, resource_row, user_row}

pub data AccessCondition : Type 0 where
  normal difficult blocked : AccessCondition

-- ACCESS_CONDITION_ETA_MULTIPLIER, as a fraction; `none` is Infinity.
unfoldable pub eta_multiplier : AccessCondition → Option (ℕ × ℕ)
eta_multiplier AccessCondition.normal = some (1, 1)
eta_multiplier AccessCondition.difficult = some (3, 2)
eta_multiplier AccessCondition.blocked = none

abbrev pub allow_preemption : Bool
allow_preemption = false

-- The reason texts.
pub data Infeasibility : Type 0 where
  failed under_maintenance unavailable busy_elsewhere : Infeasibility
  capacity_insufficient type_mismatch : Infeasibility

-- What the checks after the status say: `none` is `{ feasible: true }`.
unfoldable pub assess_fit : (capacity affected_people : ℕ) → List Text → Text → Option Infeasibility
assess_fit capacity affected_people requirements type =
    if ltb capacity affected_people
    then some Infeasibility.capacity_insufficient
    else if not (is_type_match type requirements)
    then some Infeasibility.type_mismatch
    else none

unfoldable pub assess_current_assignment :
    ResourceStatus
    → (capacity affected_people : ℕ) → List Text
    → Text
    → (is_assigned_to_this_incident : Bool) → Option Infeasibility
unfolding assess_fit
assess_current_assignment ResourceStatus.failed capacity people requirements type here =
    some Infeasibility.failed
assess_current_assignment ResourceStatus.maintenance capacity people requirements type here =
    some Infeasibility.under_maintenance
assess_current_assignment ResourceStatus.unavailable capacity people requirements type here =
    some Infeasibility.unavailable
assess_current_assignment ResourceStatus.busy capacity people requirements type here =
    if not here
    then some Infeasibility.busy_elsewhere
    else assess_fit capacity people requirements type
assess_current_assignment ResourceStatus.available capacity people requirements type here =
    assess_fit capacity people requirements type

-- Scores are in hundredths, so the threshold of 10 points is 1000.
abbrev pub preemption_min_priority_diff : ℕ
preemption_min_priority_diff = 1000

unfoldable pub should_preempt : (current competing : ℕ) → Bool
should_preempt current competing =
    if not allow_preemption then false else leb (current + preemption_min_priority_diff) competing

abbrev pub is_other : ℕ → Candidate → Bool
is_other excluded r = not (r.id == excluded)

-- The one caller excludes one id.
unfoldable pub build_alternative_candidates : List Candidate → (excluded : ℕ) → List Candidate
build_alternative_candidates resources excluded = filter (is_other excluded) resources

abbrev route_blocked : Candidate → Evaluation
route_blocked c = record {
  resource_id = c.id;
  resource_name = c.name;
  resource_type = c.type;
  verdict = Verdict.rejected Rejection.route_blocked;
}

-- The engine runs at the speed divided by the multiplier; a BLOCKED route leaves no candidate.
unfoldable pub find_replacement_at :
    (Place → Place → ℕ) → AllocationInput → Option (ℕ × ℕ) → AllocationResult
unfolding recommend_resource
find_replacement_at haversine_distance input none = record {
  incident_id = input.incident_id;
  selected_resource = none;
  best = none;
  rejected_candidates = map route_blocked input.available_resources;
  candidate_evaluations = [];
  message = Message.blocked;
}
find_replacement_at haversine_distance input (some (num, den)) =
    let speed = input.average_speed in
    recommend_resource haversine_distance
      (record input { average_speed = record { num = speed.num * den; den = speed.den * num } })

unfoldable pub find_replacement_resource :
    (Place → Place → ℕ) → AllocationInput → AccessCondition → AllocationResult
unfolding find_replacement_at eta_multiplier
find_replacement_resource haversine_distance input access =
    find_replacement_at haversine_distance input (eta_multiplier access)
