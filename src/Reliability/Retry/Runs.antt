-- ===== src/Reliability/Retry/Runs.antt =====
-- Which attempts `withRetry` makes, what it returns, and what its operation leaves behind.
use res_q_server.Common.{
  Bool, Error, false, suc, true, ℕ, ◌<◌, ◌≡◌, ◌≤◌, ◌⊎◌, Bool-cases, List, arith, inl, inr, nat_eq,
  not, refl, text_eq, zero, ◌+◌, ◌==◌, ◌||◌,
}
use res_q_server.Reliability.Retry.{Retried, Settled, retry_step, retry_loop, with_retry}
use res_q_server.Db.Rows.{assignment_status_eq, incident_status_eq, resource_status_eq, role_eq}
use res_q_server.Db.Tables.{assignment_row, incident_row, outbox_row, resource_row, user_row}

module _ {ℓ} {S A : Type ℓ} (max_attempts : ℕ) (should_retry : Error → ℕ → Bool) (backoff : ℕ → ℕ)
    (fn : ℕ → S → Settled A × S) where
  -- The attempts before the `k`-th were rejected with errors worth a retry, and led to `s`.
  pub data Retries (start : S) : ℕ → S → Type ℓ where
    first : Retries start 1 start
    again :
        {k : ℕ} {s : S} (e : Error)
        → Retries start k s
        → (fn k s).0 ≡ Settled.rejected e
        → should_retry e k ≡ true
        → k < max_attempts
        → Retries start (suc k) (fn k s).1

  -- No further attempt is due after this outcome of attempt `k`.
  abbrev pub IsFinal : ℕ → Settled A → Type 0
  IsFinal k (Settled.resolved a) = Unit
  IsFinal k (Settled.rejected e) = (k ≡ max_attempts) ⊎ (should_retry e k ≡ false)
  IsFinal k Settled.rejected_undefined = Unit

  pub record Stops (start : S) (r : Retried S A) : Type ℓ where
    pub attempt : ℕ
    pub before : S
    pub reached : Retries start attempt before
    pub within : attempt ≤ max_attempts
    pub outcome : r.outcome ≡ (fn attempt before).0
    pub state : r.state ≡ (fn attempt before).1
    pub final : IsFinal attempt r.outcome

  -- Sleeping changes neither the outcome nor the state.
  Stops-slept :
      (start : S) (r : Retried S A) (delays : List ℕ)
      → Stops start r
      → Stops start (record r { delays = delays })
  Stops-slept start r delays h = record {
    attempt = h.attempt;
    before = h.before;
    reached = h.reached;
    within = h.within;
    outcome = h.outcome;
    state = h.state;
    final = h.final;
  }

  retry_step-cases :
      (start s : S) (k : ℕ) (next : Settled A → S → Retried S A) (first : Settled A × S)
      → Retries start k s
      → k ≤ max_attempts
      → fn k s ≡ first
      → ((e : Error)
          → first.0 ≡ Settled.rejected e
          → should_retry e k ≡ true
          → k < max_attempts
          → Stops start (next (Settled.rejected e) first.1))
      → Stops start (retry_step max_attempts should_retry backoff fn next k first)
  retry_step-cases start s k next (Settled.resolved a, s') reached within e rest = record {
    attempt = k;
    before = s;
    reached = reached;
    within = within;
    outcome = rw e;
    state = rw e;
    final = tt;
  }
  retry_step-cases start s k next (Settled.rejected_undefined, s') reached within e rest = record {
    attempt = k;
    before = s;
    reached = reached;
    within = within;
    outcome = rw e;
    state = rw e;
    final = tt;
  }
  retry_step-cases start s k next (Settled.rejected x, s') reached within e rest =
      elim (Bool-cases (k == max_attempts || not (should_retry x k))) [
        | inl stop ↦ rw stop (record {
          attempt = k;
          before = s;
          reached = reached;
          within = within;
          outcome = rw e;
          state = rw e;
          final = ground arith;
        })
        | inr go ↦ rw go (Stops-slept start _ _ (rest x refl (ground arith) (ground arith)))
      ]

  retry_loop-Stops :
      (left k : ℕ) (start s : S) (last : Settled A)
      → Retries start k s
      → k + left ≡ max_attempts + 1
      → 0 < left
      → Stops start (retry_loop max_attempts should_retry backoff fn left k last s)
  unfolding retry_loop
  retry_loop-Stops zero k start s last reached total h = absurd (omega arith)
  retry_loop-Stops (suc left) k start s last reached total h =
      retry_step-cases start s k
        (λ e s'. retry_loop max_attempts should_retry backoff fn left (k + 1) e s') (fn k s) reached
        (omega arith) refl
        (λ e failed again more.
          let next : k + 1 ≡ suc k = omega arith in
          rw next (
            retry_loop-Stops left (suc k) start (fn k s).1 (Settled.rejected e)
              (Retries.again e reached failed again more) (omega arith) (omega arith)))

  -- With at least one attempt allowed, `withRetry` stops at an attempt within the limit that
  -- every earlier one led to by an error worth a retry, returns that attempt's outcome, and
  -- leaves its state. If the outcome is an error, the attempt was the last one allowed, or the
  -- error is not worth a retry.
  pub with_retry-Stops :
      (start : S)
      → 0 < max_attempts
      → Stops start (with_retry max_attempts should_retry backoff fn start)
  unfolding with_retry
  with_retry-Stops start h =
      retry_loop-Stops max_attempts 1 start start Settled.rejected_undefined Retries.first
        (omega arith) h

module _ {ℓ κ} {S A : Type ℓ} (P : S → Type κ) (max_attempts : ℕ) (should_retry : Error → ℕ → Bool)
    (backoff : ℕ → ℕ) (fn : ℕ → S → Settled A × S)
    (keep : (k : ℕ) (s : S) → P s → P (fn k s).1) where
  retry_step-keeps :
      (next : Settled A → S → Retried S A) (k : ℕ) (first : Settled A × S)
      → ((e : Settled A) (s : S) → P s → P (next e s).state)
      → P first.1
      → P (retry_step max_attempts should_retry backoff fn next k first).state
  retry_step-keeps next k (Settled.resolved a, s) rest h = h
  retry_step-keeps next k (Settled.rejected_undefined, s) rest h = h
  retry_step-keeps next k (Settled.rejected e, s) rest h =
      elim (Bool-cases (k == max_attempts || not (should_retry e k))) [
        | inl stop ↦ rw stop h
        | inr go ↦ rw go (rest (Settled.rejected e) s h)
      ]

  retry_loop-keeps :
      (left k : ℕ) (last : Settled A) (s : S)
      → P s
      → P (retry_loop max_attempts should_retry backoff fn left k last s).state
  unfolding retry_loop
  retry_loop-keeps zero k last s h = h
  retry_loop-keeps (suc left) k last s h =
      retry_step-keeps (λ e s'. retry_loop max_attempts should_retry backoff fn left (k + 1) e s') k
        (fn k s) (λ e s' h'. retry_loop-keeps left (k + 1) e s' h') (keep k s h)

  -- What every attempt keeps, `withRetry` keeps.
  pub with_retry-keeps :
      (start : S) → P start → P (with_retry max_attempts should_retry backoff fn start).state
  unfolding with_retry
  with_retry-keeps start h = retry_loop-keeps max_attempts 1 Settled.rejected_undefined start h
