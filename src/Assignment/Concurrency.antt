-- ===== src/Assignment/Concurrency.antt =====
-- createAssignment among other transactions, with faults and retries.
use res_q_server.Common.{Option-cases, Result, err, inl, inr, ok, refl, ℕ, ◌≡◌}
use res_q_server.Assignment.Defs.{
  CreateInput, Supply, Surroundings, attempt_tx, create_assignment, create_tx, settle,
  should_retry_create,
}
use res_q_server.Reliability.Retry.Runs.{with_retry-keeps}
use res_q_server.Db.Rows.{Db}
use res_q_server.Assignment.Exclusive.{IsExclusive, create_tx-IsExclusive}

module _ {A : Type 0} (tx : (seen met : Db) → Result (A × Db))
    (keeps : (seen met db' : Db) (a : A)
      → tx seen met ≡ ok (a, db')
      → IsExclusive met.assignments
      → IsExclusive db'.assignments) where
  settle-IsExclusive :
      (seen met : Db) (r : Result (A × Db))
      → tx seen met ≡ r
      → IsExclusive met.assignments
      → IsExclusive (settle r met).1.assignments
  unfolding settle
  settle-IsExclusive seen met (ok (a, db')) e h = keeps seen met db' a e h
  settle-IsExclusive seen met (err x) e h = h

  -- An attempt keeps what its transaction keeps.
  pub attempt_tx-IsExclusive :
      (around : Surroundings) (k : ℕ) (db : Db)
      → IsExclusive (around.others k db).assignments
      → IsExclusive (attempt_tx around tx k db).1.assignments
  unfolding attempt_tx
  attempt_tx-IsExclusive around k db h = elim (Option-cases (around.fault k)) [
    | inl e ↦ rw (e, attempt_tx) (settle-IsExclusive db (around.others k db) _ refl h)
    | inr (x, e) ↦ rw (e, attempt_tx) h
  ]

-- createAssignment keeps at most one ACTIVE assignment for each resource and for each incident,
-- whatever faults the database raises, however often the call retries, and whatever transactions
-- that keep this too commit in between, also between the checks and the writes.
pub create_assignment-IsExclusive :
    (max_attempts : ℕ) (backoff : ℕ → ℕ) (around : Surroundings) (supply : Supply)
    (input : CreateInput) (db : Db)
    → ((k : ℕ) (other : Db)
        → IsExclusive other.assignments
        → IsExclusive (around.others k other).assignments)
    → IsExclusive db.assignments
    → IsExclusive (create_assignment max_attempts backoff around supply input db).1.assignments
unfolding create_assignment
create_assignment-IsExclusive max_attempts backoff around supply input db keep h =
    with_retry-keeps (λ (s : Db). IsExclusive s.assignments) max_attempts should_retry_create
      backoff (attempt_tx around (λ seen met. create_tx seen met supply input))
      (λ k s hs.
        attempt_tx-IsExclusive (λ seen met. create_tx seen met supply input)
          (λ seen met db' a. create_tx-IsExclusive seen met db' supply input a) around k s
          (keep k s hs))
      db h
