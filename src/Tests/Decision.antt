-- ===== src/Tests/Decision.antt =====
-- Priorities and recommendations for the district.
use res_q_server.Common.{some, refl, ◌≡◌, ◌≤◌, [], arith, codes, ◌∷◌}
use res_q_server.Decision.Allocation.{AllocationInput, Speed, recommend_resource}
use res_q_server.Decision.Priority.{
  calculate_priority, classify_environmental_risk, normalize_requirements, mentions,
  resource_urgency, total_urgency,
}
use res_q_server.Tests.Fixtures.{distance, far_truck, fire, flood, square, town_speed, truck}
use res_q_server.Db.Rows.{Incident, Level}
use res_q_server.Decision.Allocation.Choice.{IsChoice, recommend_resource-IsChoice}
use res_q_server.Incident.Defs.{priority_input}
use res_q_server.Decision.Priority.Monotone.{calculate_priority_mono}
use res_q_server.Decision.Matching.{is_type_match}
use res_q_server.Reoptimization.Strategy.{candidate_of}

fire_score : (calculate_priority (priority_input fire)).priority_score ≡ 7350
unfolding calculate_priority classify_environmental_risk normalize_requirements mentions
    total_urgency resource_urgency
fire_score = refl

-- The flood again, but with fewer people and less urgent.
abbrev puddle : Incident
puddle = record flood { affected_people = 2; time_sensitivity = Level.low }

calculate_priority_mono_example :
    (calculate_priority (priority_input puddle)).priority_score
    ≤ (calculate_priority (priority_input flood)).priority_score
unfolding classify_environmental_risk
calculate_priority_mono_example =
    calculate_priority_mono (priority_input puddle) (priority_input flood) (omega arith)
      (omega arith) (omega arith) (omega arith) refl

abbrev request_at : Speed → AllocationInput
request_at speed = record {
  incident_id = 10;
  incident_place = square;
  affected_people = 5;
  resource_requirements = codes "fire_truck" ∷ [];
  available_resources = candidate_of far_truck ∷ candidate_of truck ∷ [];
  average_speed = speed;
}

recommend_resource-IsChoice_example :
    IsChoice distance
      (request_at town_speed)
      (candidate_of far_truck ∷ candidate_of truck ∷ [])
      (recommend_resource distance (request_at town_speed)).selected_resource
recommend_resource-IsChoice_example =
    recommend_resource-IsChoice distance (request_at town_speed) (omega arith)
      ((omega arith, tt), (tt, tt))

recommends_near_truck :
    (recommend_resource distance (request_at town_speed)).selected_resource
    ≡ some (candidate_of truck)
unfolding recommend_resource is_type_match
recommends_near_truck = refl

abbrev standstill : Speed
standstill = record { num = 0; den = 1 }
