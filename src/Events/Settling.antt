-- ===== src/Events/Settling.antt =====
-- The events of the outbox over a sequence of polls.
use res_q_server.Db.Tables.{
  assignment_row, hospital_row, incident_row, outbox_row, resource_row, set_row, user_row,
}
use res_q_server.Events.Outbox.{
  Faults, Publisher, is_due, batch_size, publish_pending_outbox_events,
}
use res_q_server.Common.{
  Any, Error, List, Option, nat_eq, none, suc, text_eq, true, ℕ, ◌≡◌, ◌≤◌, ◌⊎◌, filter, length,
}
use res_q_server.Db.Rows.{
  OutboxEvent, assignment_status_eq, hospital_status_eq, incident_status_eq, level_eq,
  resource_status_eq, role_eq, user_status_eq,
}
use res_q_server.Reliability.Retry.{Settled}

-- An event that is still due has been tried this often.
abbrev pub Tried : ℕ → OutboxEvent → Type 0
Tried k e = is_due e ≡ true → k ≤ e.attempts

-- The event has the next try behind it, or is among those that wait for it.
abbrev pub Waits : ℕ → List OutboxEvent → OutboxEvent → Type 0
Waits k waiting e = Tried (suc k) e ⊎ Any (λ w. w.event_id ≡ e.event_id) waiting

-- What the publisher does with an event: it goes on, and one row is changed, which is not due
-- afterwards or has one try more.
pub record Deals {Q : Type 0} (k : ℕ) (e : OutboxEvent) (s : Publisher Q)
    (r : Option Error × Publisher Q) : Type 0 where
  pub goes_on : r.0 ≡ none
  pub change : OutboxEvent → OutboxEvent
  pub outbox : r.1.outbox ≡ set_row e.event_id change s.outbox
  pub tried : (row : OutboxEvent) → Tried (suc k) (change row)

-- Polls of one outbox with no new events in between, each with its own queue, answers of the queue
-- and faults of the database, though no fault of the update in the `catch`. No poll meets more due
-- events than a batch holds.
pub data Polls (Q : Type 0) (start : List OutboxEvent) : ℕ → List OutboxEvent → Type 0 where
  none_yet : Polls Q start 0 start
  poll :
      {k : ℕ} {rows rows' : List OutboxEvent} (faults : Faults) (max_attempts : ℕ) (backoff : ℕ → ℕ)
      (enqueue : OutboxEvent → ℕ → Q → Settled (Unit {0}) × Q) (queue : Q)
      → Polls Q start k rows
      → ((id : ℕ) → faults.attempts_update id ≡ none)
      → length (filter is_due rows) ≤ batch_size
      → (publish_pending_outbox_events faults max_attempts backoff enqueue rows queue).1.outbox
        ≡ rows'
      → Polls Q start (suc k) rows'
