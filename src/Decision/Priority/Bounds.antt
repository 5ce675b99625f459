-- ===== src/Decision/Priority/Bounds.antt =====
-- The range of the factors, and what the clamp of the priority does.
use res_q_server.Decision.Priority.{
  PriorityInput, calculate_priority, level_score, normalize_population, normalize_requirements,
  raw_score, resource_urgency, round_div, total_urgency, classify_environmental_risk,
}
use res_q_server.Common.{
  List, Text, [], arith, length, ℕ, ◌*◌, ◌<◌, ◌∷◌, ◌≡◌, ◌≤◌, min, suc, ◌+◌, ◌-◌,
}
use res_q_server.Db.Rows.{Level}

level_score_bounds : (l : Level) → (25 ≤ level_score l) × (level_score l ≤ 100)
unfolding level_score
level_score_bounds l = ground arith

normalize_population-le : (count : ℕ) → normalize_population count ≤ 100
unfolding normalize_population
normalize_population-le count = ground arith

resource_urgency_bounds : (r : Text) → (40 ≤ resource_urgency r) × (resource_urgency r ≤ 100)
unfolding resource_urgency
resource_urgency_bounds r = ground arith

total_urgency_lower : (rs : List Text) → 40 * length rs ≤ total_urgency rs
unfolding total_urgency
total_urgency_lower [] = omega arith
total_urgency_lower (r ∷ rs) = omega (arith, resource_urgency_bounds r, total_urgency_lower rs)

-- A quotient of at least 40 rounds to at least 40.
round_div_lower : (a b : ℕ) → 0 < b → 40 * b ≤ a → 40 ≤ round_div a b
round_div_lower a b pos h = grind arith

normalize_requirements_bounds :
    (rs : List Text) → (10 ≤ normalize_requirements rs) × (normalize_requirements rs ≤ 100)
unfolding normalize_requirements
normalize_requirements_bounds [] = omega arith
normalize_requirements_bounds (r ∷ rs) =
    let total = total_urgency (r ∷ rs) in
    let n = suc (length rs) in
    let boost = min (20 + (n - 1)) 25 in
    let boosted : 40 * (20 * n) ≤ total * boost = grind (arith, total_urgency_lower (r ∷ rs)) in
    let rounded = round_div_lower (total * boost) (20 * n) (omega arith) boosted in
    ground (arith, rounded)

raw_score_bounds : (input : PriorityInput) → (1850 ≤ raw_score input) × (raw_score input ≤ 10000)
unfolding raw_score
raw_score_bounds input = omega (
  arith,
  level_score_bounds input.severity,
  level_score_bounds input.time_sensitivity,
  normalize_population-le input.affected_people,
  level_score_bounds (classify_environmental_risk input.environmental_condition),
  normalize_requirements_bounds input.resource_requirements,
)

-- The priority, in hundredths, is the weighted sum of the factors, which lies between 18.5 and
-- 100: the clamp never changes it.
pub calculate_priority_bounds :
    (input : PriorityInput)
    → ((calculate_priority input).priority_score ≡ raw_score input)
      × (1850 ≤ (calculate_priority input).priority_score)
      × ((calculate_priority input).priority_score ≤ 10000)
unfolding calculate_priority
calculate_priority_bounds input = omega (arith, raw_score_bounds input)
