-- ===== src/Reoptimization/Replacing.antt =====
-- What the transaction of a replacement does, alone and among others.
use res_q_server.Common.{◌≡◌, ℕ, arith, ok, err, >>=-ok, Result, nat_eq, text_eq}
use res_q_server.Reoptimization.Strategy.{Plan, ReoptimizeInput, Replacement, plan}
use res_q_server.Assignment.Exclusive.{IsExclusive, insert_active-IsExclusive, release-IsExclusive}
use res_q_server.Assignment.Defs.{
  Supply, Surroundings, attempt_tx, insert_active, should_retry_create,
}
use res_q_server.Assignment.Release.{release}
use res_q_server.Reoptimization.Service.{
  carry_out, check_replace, log_kept, reoptimize_assignment, replace_tx, replacement_assignment,
  write_replace,
}
use res_q_server.Db.Tables.{
  assignment_row, incident_row, outbox_row, resource_row, set_row, update_row, user_row,
}
use res_q_server.Decision.Allocation.{Speed}
use res_q_server.Db.Rows.{
  Assignment, AssignmentStatus, Db, Place, assignment_status_eq, incident_status_eq,
  resource_status_eq, role_eq,
}
use res_q_server.Reliability.Retry.Runs.{with_retry-keeps}
use res_q_server.Assignment.Concurrency.{attempt_tx-IsExclusive}

pub write_replace-insert :
    (db db' : Db) (supply : Supply) (input : ReoptimizeInput) (p : Replacement) (a : Assignment)
    → write_replace db supply input p ≡ ok (a, db')
    → insert_active
        (replacement_assignment supply p)
        (set_row input.assignment_id (release AssignmentStatus.cancelled supply.now) db.assignments)
      ≡ ok db'.assignments
unfolding write_replace update_row
write_replace-insert db db' supply input p a e = ground arith

-- The writes of a replacement keep the assignments exclusive whatever tables they meet.
pub replace_tx-IsExclusive :
    (seen met db' : Db) (supply : Supply) (input : ReoptimizeInput) (p : Replacement)
    (a : Assignment)
    → replace_tx seen met supply input p ≡ ok (a, db')
    → IsExclusive met.assignments
    → IsExclusive db'.assignments
unfolding replace_tx
replace_tx-IsExclusive seen met db' supply input p a e h =
    let (checked, _, written) =
      >>=-ok (check_replace seen input.assignment_id p) (λ _. write_replace met supply input p) e in
    insert_active-IsExclusive _ _ db'.assignments
      (write_replace-insert met db' supply input p a written)
      (release-IsExclusive AssignmentStatus.cancelled supply.now input.assignment_id met.assignments
        (λ x. cc) h)

carry_out-IsExclusive :
    (max_attempts : ℕ) (backoff : ℕ → ℕ) (around : Surroundings) (supply : Supply)
    (input : ReoptimizeInput) (db : Db) (r : Result Plan)
    → ((k : ℕ) (other : Db)
        → IsExclusive other.assignments
        → IsExclusive (around.others k other).assignments)
    → IsExclusive db.assignments
    → IsExclusive (carry_out max_attempts backoff around supply input db r).1.assignments
unfolding carry_out log_kept
carry_out-IsExclusive max_attempts backoff around supply input db (err e) keep h = h
carry_out-IsExclusive max_attempts backoff around supply input db (ok (Plan.keep x i r)) keep h = h
carry_out-IsExclusive max_attempts backoff around supply input db (ok (Plan.replace p)) keep h =
    with_retry-keeps (λ (s : Db). IsExclusive s.assignments) max_attempts should_retry_create
      backoff (attempt_tx around (λ seen met. replace_tx seen met supply input p))
      (λ k s hs.
        attempt_tx-IsExclusive (λ seen met. replace_tx seen met supply input p)
          (λ seen met db' a. replace_tx-IsExclusive seen met db' supply input p a) around k s
          (keep k s hs))
      (around.others 0 db) (keep 0 db h)

-- reoptimizeAssignment keeps at most one ACTIVE assignment for each resource and for each
-- incident, whatever faults the database raises, however often it retries, and whatever
-- transactions that keep this too commit in between: after the plan, and between the checks and
-- the writes of each attempt.
pub reoptimize_assignment-IsExclusive :
    (distance : Place → Place → ℕ) (speed : Speed) (max_attempts : ℕ) (backoff : ℕ → ℕ)
    (around : Surroundings) (supply : Supply) (input : ReoptimizeInput) (db : Db)
    → ((k : ℕ) (other : Db)
        → IsExclusive other.assignments
        → IsExclusive (around.others k other).assignments)
    → IsExclusive db.assignments
    → IsExclusive
        (reoptimize_assignment distance speed max_attempts backoff around supply input
          db).1.assignments
unfolding reoptimize_assignment
reoptimize_assignment-IsExclusive distance speed max_attempts backoff around supply input db keep
      h =
    carry_out-IsExclusive max_attempts backoff around supply input db (plan distance speed input db)
      keep h
