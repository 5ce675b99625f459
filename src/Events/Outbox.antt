-- ===== src/Events/Outbox.antt =====
-- src/events/outbox/outbox.publisher.ts. The queue (BullMQ) is a parameter: a state `Q` and what
-- `enqueue` answers in each attempt. `Date` and the log are left out; rows come in the order in which
-- they were created.
use res_q_server.Common.{
  ℕ, List, Option, Bool, none, some, true, false, if◌then◌else◌, [], ◌∷◌, ◌&&◌, ◌+◌, filter, take,
  ltb, leb, Error, nat_eq, text_eq,
}
use res_q_server.Db.Rows.{
  OutboxEvent, OutboxStatus, assignment_status_eq, incident_status_eq, resource_status_eq, role_eq,
}
use res_q_server.Reliability.Retry.{Settled, is_transient_error, with_retry}
use res_q_server.Db.Tables.{
  assignment_row, incident_row, outbox_row, resource_row, set_row, user_row,
}

abbrev pub max_publish_attempts : ℕ
max_publish_attempts = 5

abbrev pub batch_size : ℕ
batch_size = 50

abbrev pub is_pending : OutboxStatus → Bool
is_pending OutboxStatus.pending = true
is_pending _ = false

-- where: { status: 'PENDING', attempts: { lt: MAX_PUBLISH_ATTEMPTS } }
abbrev pub is_due : OutboxEvent → Bool
is_due e = is_pending e.status && ltb e.attempts max_publish_attempts

unfoldable pub pending_batch : List OutboxEvent → List OutboxEvent
pending_batch outbox = take batch_size (filter is_due outbox)

-- Whether the database fails at one of the two updates of an event.
pub record Faults : Type 0 where
  pub published_update : ℕ → Option Error
  pub attempts_update : ℕ → Option Error

pub record Publisher (Q : Type 0) : Type 0 where
  pub outbox : List OutboxEvent
  pub queue : Q
  pub published : ℕ

abbrev pub mark_published : OutboxEvent → OutboxEvent
mark_published e = record e { status = OutboxStatus.published }

abbrev pub next_status : ℕ → OutboxStatus
next_status attempts =
    if leb max_publish_attempts attempts then OutboxStatus.failed else OutboxStatus.pending

-- `attempts` is counted from the row that the batch has read.
abbrev pub record_failure : ℕ → OutboxEvent → OutboxEvent
record_failure attempts e = record e {
  attempts = attempts + 1;
  status = next_status (attempts + 1);
}

module _ {Q : Type 0} (faults : Faults) where
  -- The `catch`: its own update may fail, which ends the run.
  unfoldable pub note_failure : OutboxEvent → Publisher Q → Option Error × Publisher Q
  note_failure e s = elim (faults.attempts_update e.event_id) [
    | some x ↦ (some x, s)
    | none ↦ (none, record s { outbox = set_row e.event_id (record_failure e.attempts) s.outbox })
  ]

  unfoldable pub note_published : OutboxEvent → Publisher Q → Option Error × Publisher Q
  unfolding note_failure
  note_published e s = elim (faults.published_update e.event_id) [
    | some _ ↦ note_failure e s
    | none ↦ (
      none,
      record s { outbox = set_row e.event_id mark_published s.outbox; published = s.published + 1 },
    )
  ]

  unfoldable pub note_outcome :
      OutboxEvent → Settled (Unit {0}) → Publisher Q → Option Error × Publisher Q
  unfolding note_published
  note_outcome e (Settled.resolved _) s = note_published e s
  note_outcome e _ s = note_failure e s

  module _ (max_attempts : ℕ) (backoff : ℕ → ℕ)
      (enqueue : OutboxEvent → ℕ → Q → Settled (Unit {0}) × Q) where
    -- The body of the `for` loop.
    unfoldable pub publish_event : OutboxEvent → Publisher Q → Option Error × Publisher Q
    unfolding with_retry is_transient_error note_outcome
    publish_event e s =
        let run =
          with_retry max_attempts (λ x _. is_transient_error x) backoff (enqueue e) s.queue in
        note_outcome e run.outcome (record s { queue = run.state })

    unfoldable pub publish_loop : List OutboxEvent → Publisher Q → Option Error × Publisher Q
    unfolding publish_event
    publish_loop [] s = (none, s)
    publish_loop (e ∷ es) s =
        let (outcome, s') = publish_event e s in
        let rest = publish_loop es s' in elim outcome [ none ↦ rest | some x ↦ (some x, s') ]

    unfoldable pub publish_pending_outbox_events : List OutboxEvent → Q → Option Error × Publisher Q
    unfolding publish_loop pending_batch
    publish_pending_outbox_events outbox queue =
        publish_loop (pending_batch outbox)
          (record { outbox = outbox; queue = queue; published = 0 })
