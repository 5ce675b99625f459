-- ===== src/Events/Delivery.antt =====
-- What the publisher guarantees for the rows of the outbox.
use mathlib.Core.Path.{subst, sym}
use res_q_server.Db.Tables.{outbox_row}
use res_q_server.Common.{
  ℕ, ◌≡◌, ◌<◌, ◌≤◌, All, true, arith, List, Option-cases, inl, inr, All-mono, All-passes, All-take,
  [], filter, if-cases, leb, ◌+◌, ◌∷◌, refl, ◌∙◌,
}
use res_q_server.Db.Rows.{OutboxEvent, OutboxStatus}
use res_q_server.Events.Outbox.{
  Faults, Publisher, mark_published, max_publish_attempts, note_failure, note_outcome,
  note_published, pending_batch, record_failure, batch_size, is_due, publish_event, publish_loop,
  publish_pending_outbox_events,
}
use res_q_server.Reliability.Retry.{Settled, is_transient_error, with_retry}
use res_q_server.Db.Tables.{All-set_row}
use res_q_server.Reliability.Retry.Runs.{with_retry-Stops, with_retry-keeps}

-- A PENDING event has attempts left; a FAILED one has none.
abbrev pub HasBudget : OutboxStatus → ℕ → Type 0
HasBudget OutboxStatus.pending attempts = attempts < max_publish_attempts
HasBudget OutboxStatus.failed attempts = attempts ≡ max_publish_attempts
HasBudget OutboxStatus.published attempts = attempts ≤ max_publish_attempts

abbrev pub InBudget : OutboxEvent → Type 0
InBudget e = HasBudget e.status e.attempts

record_failure-InBudget :
    (attempts : ℕ) (e : OutboxEvent)
    → attempts < max_publish_attempts
    → InBudget (record_failure attempts e)
record_failure-InBudget attempts e h =
    if-cases (λ status. HasBudget status (attempts + 1)) (leb max_publish_attempts (attempts + 1))
      (λ spent. ground arith) (λ left. ground arith)

mark_published-InBudget :
    (status : OutboxStatus) (attempts : ℕ)
    → HasBudget status attempts
    → attempts ≤ max_publish_attempts
mark_published-InBudget OutboxStatus.pending attempts h = omega (arith, h)
mark_published-InBudget OutboxStatus.published attempts h = h
mark_published-InBudget OutboxStatus.failed attempts h = omega (arith, h)

pending_batch-due :
    (rows : List OutboxEvent) → All (λ e. e.attempts < max_publish_attempts) (pending_batch rows)
unfolding pending_batch
pending_batch-due rows =
    All-take batch_size (λ e. e.attempts < max_publish_attempts) (filter is_due rows)
      (All-mono (λ e. is_due e ≡ true) (λ e. e.attempts < max_publish_attempts) (filter is_due rows)
        (λ e due. ground arith) (All-passes is_due rows))

-- A PUBLISHED event has been sent.
abbrev pub IsMarkedSent : (ℕ → Type 0) → OutboxEvent → Type 0
IsMarkedSent Sent e = e.status ≡ OutboxStatus.published → Sent e.event_id

module _ {Q : Type 0} (faults : Faults) where
  note_failure-InBudget :
      (e : OutboxEvent) (s : Publisher Q)
      → e.attempts < max_publish_attempts
      → All InBudget s.outbox
      → All InBudget (note_failure faults e s).1.outbox
  unfolding note_failure
  note_failure-InBudget e s due h = elim (Option-cases (faults.attempts_update e.event_id)) [
    | inl fine ↦
        rw (fine, note_failure)
          (All-set_row InBudget e.event_id (record_failure e.attempts) s.outbox
            (λ a _ _. record_failure-InBudget e.attempts a due) h)
    | inr (x, fails) ↦ rw (fails, note_failure) h
  ]

  note_outcome-InBudget :
      (e : OutboxEvent) (o : Settled (Unit {0})) (s : Publisher Q)
      → e.attempts < max_publish_attempts
      → All InBudget s.outbox
      → All InBudget (note_outcome faults e o s).1.outbox
  unfolding note_outcome note_published
  note_outcome-InBudget e (Settled.rejected x) s due h = note_failure-InBudget e s due h
  note_outcome-InBudget e Settled.rejected_undefined s due h = note_failure-InBudget e s due h
  note_outcome-InBudget e (Settled.resolved _) s due h =
      elim (Option-cases (faults.published_update e.event_id)) [
        | inl fine ↦
            rw (fine, note_outcome, note_published)
              (All-set_row InBudget e.event_id mark_published s.outbox
                (λ a _ k. mark_published-InBudget a.status a.attempts k) h)
        | inr (x, fails) ↦
            rw (fails, note_outcome, note_published) (note_failure-InBudget e s due h)
      ]

  note_failure-queue :
      (e : OutboxEvent) (s : Publisher Q) → (note_failure faults e s).1.queue ≡ s.queue
  unfolding note_failure
  note_failure-queue e s = ground arith

  note_outcome-queue :
      (e : OutboxEvent) (o : Settled (Unit {0})) (s : Publisher Q)
      → (note_outcome faults e o s).1.queue ≡ s.queue
  unfolding note_outcome note_published
  note_outcome-queue e (Settled.rejected x) s = note_failure-queue e s
  note_outcome-queue e Settled.rejected_undefined s = note_failure-queue e s
  note_outcome-queue e (Settled.resolved _) s = ground (arith, note_failure-queue e s)

  -- A row is marked PUBLISHED only after the queue has resolved.
  module _ (Sent : ℕ → Type 0) where
    note_failure-IsMarkedSent :
        (e : OutboxEvent) (s : Publisher Q)
        → All (IsMarkedSent Sent) s.outbox
        → All (IsMarkedSent Sent) (note_failure faults e s).1.outbox
    unfolding note_failure
    note_failure-IsMarkedSent e s h = elim (Option-cases (faults.attempts_update e.event_id)) [
      | inl fine ↦
          rw (fine, note_failure)
            (All-set_row (IsMarkedSent Sent) e.event_id (record_failure e.attempts) s.outbox
              (λ a _ _ marked. absurd (ground arith)) h)
      | inr (x, fails) ↦ rw (fails, note_failure) h
    ]

    note_outcome-IsMarkedSent :
        (e : OutboxEvent) (o : Settled (Unit {0})) (s : Publisher Q)
        → (o ≡ Settled.resolved tt → Sent e.event_id)
        → All (IsMarkedSent Sent) s.outbox
        → All (IsMarkedSent Sent) (note_outcome faults e o s).1.outbox
    unfolding note_outcome note_published
    note_outcome-IsMarkedSent e (Settled.rejected x) s sent h = note_failure-IsMarkedSent e s h
    note_outcome-IsMarkedSent e Settled.rejected_undefined s sent h =
        note_failure-IsMarkedSent e s h
    note_outcome-IsMarkedSent e (Settled.resolved _) s sent h =
        elim (Option-cases (faults.published_update e.event_id)) [
          | inl fine ↦
              rw (fine, note_outcome, note_published)
                (All-set_row (IsMarkedSent Sent) e.event_id mark_published s.outbox
                  (λ a same _ _. subst Sent (sym same) (sent refl)) h)
          | inr (x, fails) ↦
              rw (fails, note_outcome, note_published) (note_failure-IsMarkedSent e s h)
        ]

  module _ (max_attempts : ℕ) (backoff : ℕ → ℕ)
      (enqueue : OutboxEvent → ℕ → Q → Settled (Unit {0}) × Q) where
    -- What the treatment of each event of the batch keeps, the loop keeps.
    module _ (P : Publisher Q → Type 0) (D : OutboxEvent → Type 0)
        (keep : (e : OutboxEvent) (s : Publisher Q)
          → D e
          → P s
          → P (publish_event faults max_attempts backoff enqueue e s).1) where
      publish_loop-keeps :
          (es : List OutboxEvent) (s : Publisher Q)
          → All D es
          → P s
          → P (publish_loop faults max_attempts backoff enqueue es s).1
      unfolding publish_loop
      publish_loop-keeps [] s due h = h
      publish_loop-keeps (e ∷ es) s due h =
          let step = publish_event faults max_attempts backoff enqueue e s in
          let kept = keep e s due.0 h in
          elim (Option-cases step.0) [
            | inl fine ↦ rw (fine, publish_loop) (publish_loop-keeps es step.1 due.1 kept)
            | inr (x, fails) ↦ rw (fails, publish_loop) kept
          ]

    publish_event-InBudget :
        (e : OutboxEvent) (s : Publisher Q)
        → e.attempts < max_publish_attempts
        → All InBudget s.outbox
        → All InBudget (publish_event faults max_attempts backoff enqueue e s).1.outbox
    unfolding publish_event
    publish_event-InBudget e s due h = note_outcome-InBudget e _ _ due h

    -- Every poll keeps the budget of the events, whatever the queue and the database answer: a
    -- PENDING event has made fewer than 5 attempts, a FAILED one exactly 5, a PUBLISHED one at
    -- most 5.
    pub publish_pending-InBudget :
        (outbox : List OutboxEvent) (queue : Q)
        → All InBudget outbox
        → All InBudget
            (publish_pending_outbox_events faults max_attempts backoff enqueue outbox
              queue).1.outbox
    unfolding publish_pending_outbox_events
    publish_pending-InBudget outbox queue h =
        publish_loop-keeps (λ s. All InBudget s.outbox) (λ e. e.attempts < max_publish_attempts)
          publish_event-InBudget (pending_batch outbox) _ (pending_batch-due outbox) h

    -- `Has i q`: the queue has stored the job of the event `i`.
    module _ (positive : 0 < max_attempts) (Has : ℕ → Q → Type 0)
        (stored : (e : OutboxEvent) (k : ℕ) (q : Q)
          → (enqueue e k q).0 ≡ Settled.resolved tt
          → Has e.event_id (enqueue e k q).1)
        (kept : (e : OutboxEvent) (k i : ℕ) (q : Q) → Has i q → Has i (enqueue e k q).1) where
      -- A PUBLISHED event is in the queue.
      abbrev pub IsSent : Q → OutboxEvent → Type 0
      IsSent q e = IsMarkedSent (λ i. Has i q) e

      publish_event-IsSent :
          (e : OutboxEvent) (s : Publisher Q)
          → All (IsSent s.queue) s.outbox
          → All
              (IsSent (publish_event faults max_attempts backoff enqueue e s).1.queue)
              (publish_event faults max_attempts backoff enqueue e s).1.outbox
      unfolding publish_event
      publish_event-IsSent e s h =
          let run =
            with_retry max_attempts (λ x _. is_transient_error x) backoff (enqueue e) s.queue in
          let stops =
            with_retry-Stops max_attempts (λ x _. is_transient_error x) backoff (enqueue e) s.queue
              positive in
          let s' : Publisher Q = record s { queue = run.state } in
          let sent : run.outcome ≡ Settled.resolved tt → Has e.event_id run.state = λ e'.
            subst (Has e.event_id) (sym stops.state)
              (stored e stops.attempt stops.before (sym stops.outcome ∙ e')) in
          let still : All (IsSent run.state) s.outbox =
            All-mono (IsSent s.queue) (IsSent run.state) s.outbox
              (λ x sent_before marked.
                with_retry-keeps (Has x.event_id) max_attempts (λ y _. is_transient_error y) backoff
                  (enqueue e) (λ k q has. kept e k x.event_id q has) s.queue (sent_before marked))
              h in
          rw (note_outcome-queue e run.outcome s')
            (note_outcome-IsMarkedSent (λ i. Has i run.state) e run.outcome s' sent still)

      -- Every event that is PUBLISHED after a poll has its job in the queue, if that held before
      -- the poll and the publisher makes at least one attempt for an event. Of the queue this
      -- asks that a call of `enqueue` that resolves has stored the job, and that no call drops a
      -- job.
      pub publish_pending-IsSent :
          (outbox : List OutboxEvent) (queue : Q)
          → All (IsSent queue) outbox
          → let final =
              (publish_pending_outbox_events faults max_attempts backoff enqueue outbox queue).1 in
            All (IsSent final.queue) final.outbox
      unfolding publish_pending_outbox_events
      publish_pending-IsSent outbox queue h =
          publish_loop-keeps (λ s. All (IsSent s.queue) s.outbox)
            (λ e. e.attempts < max_publish_attempts) (λ e s _. publish_event-IsSent e s)
            (pending_batch outbox) _ (pending_batch-due outbox) h
