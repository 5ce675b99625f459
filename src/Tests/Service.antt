-- ===== src/Tests/Service.antt =====
-- Health, the rate limit, timeouts and recommendations.
use res_q_server.Decision.Recommendation.Assignable.{
  IsAssignable, recommend_resource_for_incident-IsAssignable,
}
use res_q_server.Reliability.Timeout.{Course, hangs, settles, with_timeout_and_retry}
use res_q_server.Reliability.Timeout.Deadlines.{with_timeout_and_retry-le, end_of}
use res_q_server.RateLimit.Windows.{window_verdicts, window_verdicts-min}
use res_q_server.Common.{
  [], arith, count_if, false, if◌then◌else◌, nat_beq, nat_eq, ok, refl, some, text_eq, ℕ, ◌∷◌, ◌≡◌,
  ◌≤◌, Option,
}
use res_q_server.Db.Rows.{
  Db, assignment_status_eq, hospital_status_eq, incident_status_eq, level_eq, resource_status_eq,
  role_eq, user_status_eq,
}
use res_q_server.Reliability.Retry.{Settled}
use res_q_server.Db.Tables.{
  assignment_row, find_unique, hospital_row, incident_row, outbox_row, resource_row, user_row,
}
use res_q_server.Tests.Fixtures.{distance, district, fire, supply, town_speed}
use res_q_server.RateLimit.{has_passed, is_limited}
use res_q_server.Decision.Allocation.{AllocationResult}
use res_q_server.Decision.Recommendation.{recommend_resource_for_incident}

abbrev one : Option ℕ
one = some 1

window_verdicts-min_example :
    (count_if has_passed (window_verdicts 2 60000 0 (60 ∷ 59 ∷ 58 ∷ [])) ≡ 2)
    × (count_if is_limited (window_verdicts 2 60000 0 (60 ∷ 59 ∷ 58 ∷ [])) ≡ 1)
window_verdicts-min_example = window_verdicts-min 2 60000 (60 ∷ 59 ∷ 58 ∷ [])

-- A first call that never settles, and a second one that does after 30 ms.
abbrev second_answers : ℕ → Course ℕ
second_answers k = if nat_beq k 1 then hangs else settles 30 (Settled.resolved 7)

with_timeout_and_retry-le_example :
    end_of (with_timeout_and_retry 3 (λ e k. false) (λ k. 10) 100 second_answers 1000) ≤ 1320
with_timeout_and_retry-le_example =
    with_timeout_and_retry-le 3 (λ e k. false) (λ k. 10) 100 10 second_answers 1000
      (λ k. omega arith)

answers_second :
    end_of (with_timeout_and_retry 3 (λ e k. false) (λ k. 10) 100 second_answers 1000) ≡ 1140
unfolding with_timeout_and_retry
answers_second = refl

-- The truck at the fire is chosen, and can be sent.
recommend_resource_for_incident-IsAssignable_example :
    (result : AllocationResult) × (after : Db) × (recommend_resource_for_incident distance
        town_speed 10 district
      ≡ ok (result, after))
    × IsAssignable distance town_speed district fire after supply result.selected_resource
unfolding find_unique
recommend_resource_for_incident-IsAssignable_example =
    recommend_resource_for_incident-IsAssignable distance town_speed district fire supply
      (omega arith) ((omega arith, tt), (tt, tt)) refl refl refl
      ((λ available. refl), ((λ available. refl), tt))
