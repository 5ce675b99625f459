-- ===== src/Decision/Priority/Monotone.antt =====
-- The priorities of two incidents compared.
use res_q_server.Common.{Text, ap, arith, false, is_blank, to_lower, true, ℕ, ◌↔◌, ◌≡◌, ◌≤◌}
use res_q_server.Decision.Priority.{
  PriorityInput, calculate_priority, classify_environmental_risk, classify_text, critical_keywords,
  high_keywords, level_score, mentions, normalize_population, normalize_requirements,
}
use res_q_server.Db.Rows.{Level}

abbrev pub gravity : Level → ℕ
gravity Level.low = 0
gravity Level.medium = 1
gravity Level.high = 2
gravity Level.critical = 3

level_score_mono : (a b : Level) → gravity a ≤ gravity b → level_score a ≤ level_score b
unfolding level_score
level_score_mono a b h = ground arith

normalize_population_mono : (m n : ℕ) → m ≤ n → normalize_population m ≤ normalize_population n
unfolding normalize_population
normalize_population_mono m n h = ground arith

-- With the same requirements, an incident that is at least as severe, as urgent and as populous,
-- in a condition of at least the same risk, has at least the same priority.
pub calculate_priority_mono :
    (a b : PriorityInput)
    → gravity a.severity ≤ gravity b.severity
    → gravity a.time_sensitivity ≤ gravity b.time_sensitivity
    → a.affected_people ≤ b.affected_people
    → gravity (classify_environmental_risk a.environmental_condition)
      ≤ gravity (classify_environmental_risk b.environmental_condition)
    → a.resource_requirements ≡ b.resource_requirements
    → (calculate_priority a).priority_score ≤ (calculate_priority b).priority_score
unfolding calculate_priority
calculate_priority_mono a b severity urgency people risk same = omega (
  arith,
  level_score_mono a.severity b.severity severity,
  level_score_mono a.time_sensitivity b.time_sensitivity urgency,
  normalize_population_mono a.affected_people b.affected_people people,
  level_score_mono (classify_environmental_risk a.environmental_condition)
      (classify_environmental_risk b.environmental_condition) risk,
  ap normalize_requirements same,
)

-- The condition is CRITICAL exactly when it holds a critical keyword, in any case, and HIGH exactly
-- when it holds a high one but no critical one: the first list that matches decides, so a text
-- that mentions hazards is never read as calm.
pub classify_text_hazard :
    (condition : Text)
    → is_blank condition ≡ false
    → ((classify_text condition ≡ Level.critical)
        ↔ (mentions (to_lower condition) critical_keywords ≡ true))
      × ((classify_text condition ≡ Level.high) ↔ (
          (mentions (to_lower condition) critical_keywords ≡ false)
          × (mentions (to_lower condition) high_keywords ≡ true)))
unfolding classify_text
classify_text_hazard condition h =
    ((λ e. ground arith, λ e. ground arith), (λ e. ground arith, λ e. ground arith))
