-- ===== src/Reliability/Timeout.antt =====
-- src/reliability/timeout.ts. The clock is the state: a call starts at a time and ends at one.
pub mod Deadlines
use res_q_server.Reliability.Retry.{Retried, Settled, with_retry}
use res_q_server.Common.{Bool, Error, app, if◌then◌else◌, ltb, nat_eq, text_eq, true, ℕ, ◌+◌, ◌==◌}
use res_q_server.Db.Rows.{
  assignment_status_eq, hospital_status_eq, incident_status_eq, level_eq, resource_status_eq,
  role_eq, user_status_eq,
}
use res_q_server.Db.Tables.{
  assignment_row, hospital_row, incident_row, outbox_row, resource_row, user_row,
}

-- How a promise settles: after how many milliseconds and with what, or never.
pub data Course (A : Type 0) : Type 0 where
  settles : (after : ℕ) → Settled A → Course A
  hangs : Course A

-- DependencyTimeoutError is an AppError with the status 504.
abbrev pub timeout_error : Error
timeout_error = app 504

-- withTimeout: the race against the timer, which a promise that settles at the same time loses
unfoldable pub with_timeout : {A : Type 0} → (timeout_ms : ℕ) → Course A → ℕ → Settled A × ℕ
with_timeout timeout_ms hangs now = (Settled.rejected timeout_error, now + timeout_ms)
with_timeout timeout_ms (settles after outcome) now =
    if ltb after timeout_ms
    then (outcome, now + after)
    else (Settled.rejected timeout_error, now + timeout_ms)

-- The `shouldRetry` of withTimeoutAndRetry: a timeout is worth a retry, and else what the options say.
abbrev pub should_retry_timeout : (Error → ℕ → Bool) → Error → ℕ → Bool
should_retry_timeout options_retry (app status) attempt =
    if status == 504 then true else options_retry (app status) attempt
should_retry_timeout options_retry e attempt = options_retry e attempt

-- withTimeoutAndRetry, where the attempts take the courses in turn
unfoldable pub with_timeout_and_retry :
    {A : Type 0}
    → (max_attempts : ℕ) (options_retry : Error → ℕ → Bool) (backoff : ℕ → ℕ) (timeout_ms : ℕ)
    → (course : ℕ → Course A) → (now : ℕ) → Retried ℕ A
unfolding with_retry with_timeout
with_timeout_and_retry max_attempts options_retry backoff timeout_ms course now =
    with_retry max_attempts (should_retry_timeout options_retry) backoff
      (λ attempt clock. with_timeout timeout_ms (course attempt) clock) now
