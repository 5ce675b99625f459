-- ===== src/Reliability/Timeout/Deadlines.antt =====
-- How long a call with a timeout and retries can take.
use native.Mathlib.Nat.{suc-mul}
use res_q_server.Reliability.Timeout.{
  Course, hangs, settles, with_timeout, should_retry_timeout, with_timeout_and_retry,
}
use res_q_server.Common.{
  Bool, Bool-cases, Error, List, [], arith, inl, inr, nat_eq, not, suc, text_eq, zero, ℕ, ◌*◌, ◌+◌,
  ◌-◌, ◌<◌, ◌==◌, ◌||◌, ◌∷◌, ◌≡◌, ◌≤◌,
}
use res_q_server.Reliability.Retry.{Retried, Settled, retry_loop, retry_step, with_retry}
use res_q_server.Db.Rows.{
  assignment_status_eq, hospital_status_eq, incident_status_eq, level_eq, resource_status_eq,
  role_eq, user_status_eq,
}
use res_q_server.Db.Tables.{
  assignment_row, hospital_row, incident_row, outbox_row, resource_row, user_row,
}

with_timeout-le :
    {A : Type 0} (timeout_ms : ℕ) (course : Course A) (now : ℕ)
    → (with_timeout timeout_ms course now).1 ≤ now + timeout_ms
unfolding with_timeout
with_timeout-le timeout_ms hangs now = omega arith
with_timeout-le timeout_ms (settles after outcome) now = ground arith

mul-pred : (n m : ℕ) → 0 < n → n * m ≡ (n - 1) * m + m
mul-pred zero m h = elim h [ ]
mul-pred (suc n) m h = let e : suc n - 1 ≡ n = omega arith in rw e (suc-mul n m)

abbrev pub total : List ℕ → ℕ
total [] = 0
total (n ∷ ns) = n + total ns

-- When a call is over: its attempts and the delays between them.
abbrev pub end_of : {A : Type 0} → Retried ℕ A → ℕ
end_of r = r.state + total r.delays

module _ {A : Type 0} (max_attempts : ℕ) (should_retry : Error → ℕ → Bool) (backoff : ℕ → ℕ)
    (fn : ℕ → ℕ → Settled A × ℕ) (limit longest : ℕ)
    (in_time : (k clock : ℕ) → (fn k clock).1 ≤ clock + limit)
    (short : (k : ℕ) → backoff k ≤ longest) where
  step_end :
      (next : Settled A → ℕ → Retried ℕ A) (k left clock : ℕ) (first : Settled A × ℕ)
      → k + suc left ≡ max_attempts + 1
      → first.1 ≤ clock + limit
      → ((e : Settled A) (s : ℕ)
          → 0 < left
          → end_of (next e s) ≤ s + left * limit + (left - 1) * longest)
      → end_of (retry_step max_attempts should_retry backoff fn next k first)
        ≤ clock + suc left * limit + left * longest
  step_end next k left clock (Settled.resolved a, s) round h rest =
      rw (suc-mul left limit) (omega arith)
  step_end next k left clock (Settled.rejected_undefined, s) round h rest =
      rw (suc-mul left limit) (omega arith)
  step_end next k left clock (Settled.rejected e, s) round h rest =
      elim (Bool-cases (k == max_attempts || not (should_retry e k))) [
        | inl stop ↦ rw (stop, suc-mul left limit) (omega arith)
        | inr go ↦
            rw (go, suc-mul left limit)
              (let more : 0 < left = ground arith in
                omega
                  (arith, rest (Settled.rejected e) s more, short k, mul-pred left longest more))
      ]

  loop_end :
      (left k : ℕ) (last : Settled A) (clock : ℕ)
      → k + left ≡ max_attempts + 1
      → end_of (retry_loop max_attempts should_retry backoff fn left k last clock)
        ≤ clock + left * limit + (left - 1) * longest
  unfolding retry_loop
  loop_end zero k last clock round = omega arith
  loop_end (suc left) k last clock round =
      let e : suc left - 1 ≡ left = omega arith in
      rw e (
        step_end (λ x s. retry_loop max_attempts should_retry backoff fn left (k + 1) x s) k left
          clock (fn k clock) round (in_time k clock)
          (λ x s more. loop_end left (k + 1) x s (omega arith)))

-- withTimeoutAndRetry is over after at most `maxAttempts` times the timeout, and at most
-- `maxAttempts - 1` times the longest delay, whatever the promises do, also if they never settle.
pub with_timeout_and_retry-le :
    {A : Type 0} (max_attempts : ℕ) (options_retry : Error → ℕ → Bool) (backoff : ℕ → ℕ)
    (timeout_ms longest : ℕ) (course : ℕ → Course A) (now : ℕ)
    → ((k : ℕ) → backoff k ≤ longest)
    → end_of (with_timeout_and_retry max_attempts options_retry backoff timeout_ms course now)
      ≤ now + max_attempts * timeout_ms + (max_attempts - 1) * longest
unfolding with_timeout_and_retry with_retry
with_timeout_and_retry-le max_attempts options_retry backoff timeout_ms longest course now short =
    loop_end max_attempts (should_retry_timeout options_retry) backoff
      (λ k clock. with_timeout timeout_ms (course k) clock) timeout_ms longest
      (λ k clock. with_timeout-le timeout_ms (course k) clock) short max_attempts 1
      Settled.rejected_undefined now (omega arith)
