-- ===== src/Reliability/Retry/Backoff.antt =====
-- The delays of `calculateBackoff`: at most the maximum, and doubling up to it.
use res_q_server.Reliability.Retry.{backoff_base, calculate_backoff}
use res_q_server.Common.{arith, min, suc, zero, ℕ, ◌*◌, ◌+◌, ◌<◌, ◌≡◌, ◌≤◌, ◌-◌}
use native.Mathlib.Nat.{pow-suc}

-- The delay is capped, and is the doubled initial delay with up to a tenth of it in jitter
-- wherever the cap allows.
pub calculate_backoff_bounds :
    (jitter attempt initial_delay max_delay : ℕ)
    → jitter * 10 ≤ backoff_base initial_delay attempt
    → (calculate_backoff jitter attempt initial_delay max_delay ≤ max_delay)
      × (min (backoff_base initial_delay attempt) max_delay
          ≤ calculate_backoff jitter attempt initial_delay max_delay)
      × (calculate_backoff jitter attempt initial_delay max_delay * 10
          ≤ backoff_base initial_delay attempt * 11)
unfolding calculate_backoff
calculate_backoff_bounds jitter attempt initial_delay max_delay h = omega arith

backoff_base-suc :
    (initial_delay attempt : ℕ)
    → 0 < attempt
    → backoff_base initial_delay (attempt + 1) ≡ 2 * backoff_base initial_delay attempt
unfolding backoff_base
backoff_base-suc initial_delay zero h = absurd (omega arith)
backoff_base-suc initial_delay (suc n) h =
    rw (let e : suc n + 1 - 1 ≡ suc (suc n - 1) = omega arith in e) (rw pow-suc (omega arith))

-- A later attempt never waits less, whatever the jitter of the two is.
pub calculate_backoff_mono :
    (jitter jitter' attempt initial_delay max_delay : ℕ)
    → 0 < attempt
    → jitter * 10 ≤ backoff_base initial_delay attempt
    → calculate_backoff jitter attempt initial_delay max_delay
      ≤ calculate_backoff jitter' (attempt + 1) initial_delay max_delay
unfolding calculate_backoff
calculate_backoff_mono jitter jitter' attempt initial_delay max_delay pos h =
    omega (arith, backoff_base-suc initial_delay attempt pos)
