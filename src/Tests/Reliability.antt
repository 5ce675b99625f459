-- ===== src/Tests/Reliability.antt =====
-- Retries of an operation that fails twice.
use res_q_server.Common.{refl, ◌≡◌, if◌then◌else◌, leb, Bool, Error, [], arith, ℕ, ◌+◌, ◌∷◌}
use res_q_server.Reliability.Retry.{Settled, calculate_backoff, is_transient_error, with_retry}
use res_q_server.Reliability.Retry.Runs.{Stops, with_retry-Stops}
use res_q_server.Tests.Fixtures.{no_wait}

-- The state counts the attempts; the third one succeeds.
abbrev flaky : ℕ → ℕ → Settled ℕ × ℕ
flaky k calls =
    (if leb k 2 then Settled.rejected Error.transient else Settled.resolved k, calls + 1)

abbrev retry_transient : Error → ℕ → Bool
retry_transient e k = is_transient_error e

with_retry-Stops_example :
    Stops 5 retry_transient no_wait flaky 0 (with_retry 5 retry_transient no_wait flaky 0)
with_retry-Stops_example = with_retry-Stops 5 retry_transient no_wait flaky 0 (omega arith)

retries_twice :
    with_retry 5 retry_transient no_wait flaky 0
    ≡ record { outcome = Settled.resolved 3; state = 3; delays = 0 ∷ 0 ∷ [] }
unfolding with_retry is_transient_error
retries_twice = refl

gives_up :
    with_retry 2 retry_transient no_wait flaky 0
    ≡ record { outcome = Settled.rejected Error.transient; state = 2; delays = 0 ∷ [] }
unfolding with_retry is_transient_error
gives_up = refl

third_delay : calculate_backoff 7 3 100 1000 ≡ 407
unfolding calculate_backoff
third_delay = refl
