-- ===== src/Reliability/Retry.antt =====
-- src/reliability/retry.ts. The operation is a step on the state `S` of its surroundings, given the
-- number of the attempt; the delays that `sleep` waits for are returned, oldest first.
-- `isTransientError` searches messages for known phrases; errors carry no message here, so
-- `Error.transient` stands for those that match.
pub mod Runs
pub mod Backoff
use res_q_server.Common.{
  ℕ, zero, suc, ◌+◌, ◌*◌, ◌-◌, ◌^◌, min, Bool, true, false, List, [], ◌∷◌, Error, ◌==◌, ◌||◌, not,
  if◌then◌else◌, nat_eq, text_eq,
}
use res_q_server.Db.Rows.{assignment_status_eq, incident_status_eq, resource_status_eq, role_eq}
use res_q_server.Db.Tables.{assignment_row, incident_row, outbox_row, resource_row, user_row}

unfoldable pub is_transient_error : Error → Bool
is_transient_error Error.transient = true
is_transient_error _ = false

-- `jitter` is what `Math.floor(Math.random() * base * 0.1)` gives; attempts count from 1.
unfoldable pub backoff_base : ℕ → ℕ → ℕ
backoff_base initial_delay attempt = initial_delay * 2 ^ (attempt - 1)

unfoldable pub calculate_backoff : (jitter attempt initial_delay max_delay : ℕ) → ℕ
unfolding backoff_base
calculate_backoff jitter attempt initial_delay max_delay =
    min (backoff_base initial_delay attempt + jitter) max_delay

-- How the promise settles; with no attempt at all, `throw lastError` throws undefined.
pub data Settled {ℓ} (A : Type ℓ) : Type ℓ where
  resolved : A → Settled A
  rejected : Error → Settled A
  rejected_undefined : Settled A

pub record Retried {ℓ} (S A : Type ℓ) : Type ℓ where
  pub outcome : Settled A
  pub state : S
  pub delays : List ℕ

module _ {ℓ} {S A : Type ℓ} (max_attempts : ℕ) (should_retry : Error → ℕ → Bool) (backoff : ℕ → ℕ)
    (fn : ℕ → S → Settled A × S) where
  -- The `for` loop with `left` rounds to go; `last` is `lastError`. An `undefined` error ends it:
  -- isTransientError and every `shouldRetry` of the program answer false for it.
  abbrev pub retry_step : (Settled A → S → Retried S A) → ℕ → Settled A × S → Retried S A
  retry_step next attempt (Settled.resolved a, s) = record {
    outcome = Settled.resolved a;
    state = s;
    delays = [];
  }
  retry_step next attempt (Settled.rejected_undefined, s) = record {
    outcome = Settled.rejected_undefined;
    state = s;
    delays = [];
  }
  retry_step next attempt (Settled.rejected e, s) =
      let rest = next (Settled.rejected e) s in
      let slept = record rest { delays = backoff attempt ∷ rest.delays } in
      if attempt == max_attempts || not (should_retry e attempt)
      then record { outcome = Settled.rejected e; state = s; delays = [] }
      else slept

  unfoldable pub retry_loop : ℕ → ℕ → Settled A → S → Retried S A
  retry_loop zero attempt last s = record { outcome = last; state = s; delays = [] }
  retry_loop (suc left) attempt last s =
      retry_step (λ e s'. retry_loop left (attempt + 1) e s') attempt (fn attempt s)

  unfoldable pub with_retry : S → Retried S A
  unfolding retry_loop
  with_retry s = retry_loop max_attempts 1 Settled.rejected_undefined s
