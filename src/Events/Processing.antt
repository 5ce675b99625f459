-- ===== src/Events/Processing.antt =====
-- What the jobs of the worker promise.
use res_q_server.Common.{
  ℕ, ◌≡◌, some, true, arith, ok, refl, Bool-cases, inl, inr, List, includes, nat_eq, text_eq,
  if-cases, Error, Option, [], none, ◌++◌, ◌∷◌,
}
use res_q_server.Events.Worker.{
  Environment, WorkerState, finish_job, handle_event, mark_processed, process_job,
  status_to_trigger,
}
use res_q_server.Db.Rows.{
  Assignment, Db, Payload, Resource, ResourceStatus, Trigger, assignment_status_eq,
  incident_status_eq, resource_status_eq, role_eq, OutboxEvent, OutboxStatus, hospital_status_eq,
  level_eq, user_status_eq,
}
use res_q_server.Resource.{deactivate_resource}
use res_q_server.Db.Tables.{
  assignment_row, find_unique, incident_row, outbox_row, resource_row, set_row, user_row,
  find_unique-set_row, update_row, hospital_row,
}
use res_q_server.Reliability.Retry.{Settled}
use res_q_server.Assignment.Defs.{set_resource_status}

mark_processed-includes :
    (event_id : ℕ) (processed : List ℕ)
    → includes (mark_processed event_id processed) event_id ≡ true
mark_processed-includes event_id processed = ground arith

finish_job-marks :
    (fault : Option Error) (event_id : ℕ) (processed : List ℕ) (handled : Settled (Unit {0}) × Db)
    (s : WorkerState)
    → finish_job fault event_id processed handled ≡ (Settled.resolved tt, s)
    → includes s.processed event_id ≡ true
unfolding finish_job
finish_job-marks none event_id processed (Settled.resolved _, db) s e =
    ground (arith, mark_processed-includes event_id processed)
finish_job-marks (some x) event_id processed (Settled.resolved _, db) s e = absurd cc
finish_job-marks fault event_id processed (Settled.rejected x, db) s e = absurd cc
finish_job-marks fault event_id processed (Settled.rejected_undefined, db) s e = absurd cc

process_job-marks :
    (env : Environment) (event_id : ℕ) (payload : Payload) (s s' : WorkerState)
    → process_job env event_id payload s ≡ (Settled.resolved tt, s')
    → includes s'.processed event_id ≡ true
unfolding process_job
process_job-marks env event_id payload s s' e = elim (Bool-cases (includes s.processed event_id)) [
  | inl done ↦ ground (arith, e, done)
  | inr fresh ↦
      finish_job-marks env.mark_fault event_id s.processed (handle_event env payload s.db) s'
        (ground (arith, e, fresh))
]

mark_processed-keeps :
    (marked event_id : ℕ) (processed : List ℕ)
    → includes processed marked ≡ true
    → includes (mark_processed event_id processed) marked ≡ true
mark_processed-keeps marked event_id processed h = ground arith

-- No job takes a mark away.
finish_job-keeps :
    (fault : Option Error) (marked event_id : ℕ) (processed : List ℕ)
    (handled : Settled (Unit {0}) × Db)
    → includes processed marked ≡ true
    → includes (finish_job fault event_id processed handled).1.processed marked ≡ true
unfolding finish_job
finish_job-keeps none marked event_id processed (Settled.resolved _, db) h =
    mark_processed-keeps marked event_id processed h
finish_job-keeps (some x) marked event_id processed (Settled.resolved _, db) h = h
finish_job-keeps fault marked event_id processed (Settled.rejected x, db) h = h
finish_job-keeps fault marked event_id processed (Settled.rejected_undefined, db) h = h

process_job-keeps :
    (env : Environment) (marked event_id : ℕ) (payload : Payload) (s : WorkerState)
    → includes s.processed marked ≡ true
    → includes (process_job env event_id payload s).1.processed marked ≡ true
unfolding process_job
process_job-keeps env marked event_id payload s h =
    if-cases (λ (r : Settled (Unit {0}) × WorkerState). includes r.1.processed marked ≡ true)
      (includes s.processed event_id) (λ done. h)
      (λ fresh.
        finish_job-keeps env.mark_fault marked event_id s.processed (handle_event env payload s.db)
          h)

-- What the worker and the rest of the program do from one state on: jobs of any events, whatever
-- they come to, and changes of the database by others. Marks are not deleted.
pub data Meanwhile (s : WorkerState) : WorkerState → Type 0 where
  nothing : Meanwhile s s
  job :
      (env : Environment) (event_id : ℕ) (payload : Payload) {t : WorkerState}
      → Meanwhile s t
      → Meanwhile s (process_job env event_id payload t).1
  elsewhere : (db : Db) {t : WorkerState} → Meanwhile s t → Meanwhile s (record t { db = db })

Meanwhile-keeps :
    {s t : WorkerState} (marked : ℕ)
    → Meanwhile s t
    → includes s.processed marked ≡ true
    → includes t.processed marked ≡ true
Meanwhile-keeps marked Meanwhile.nothing h = h
Meanwhile-keeps marked (Meanwhile.job env event_id payload {t} before) h =
    process_job-keeps env marked event_id payload t (Meanwhile-keeps marked before h)
Meanwhile-keeps marked (Meanwhile.elsewhere db before) h = Meanwhile-keeps marked before h

-- Once a job of an event has succeeded, a later delivery of the event succeeds too and changes
-- nothing, neither in the database nor in the record of processed events, whatever jobs of this
-- and other events have run and whatever others have written in between. This holds as long as
-- the mark of the event stands: pruneOldProcessedEvents deletes marks after a time.
pub process_job_once :
    (env later : Environment) (event_id : ℕ) (payload again : Payload) (s s' t : WorkerState)
    → process_job env event_id payload s ≡ (Settled.resolved tt, s')
    → Meanwhile s' t
    → process_job later event_id again t ≡ (Settled.resolved tt, t)
unfolding process_job
process_job_once env later event_id payload again s s' t e between =
    let marked = Meanwhile-keeps event_id between (process_job-marks env event_id payload s s' e) in
    ground (arith, marked)

-- The event tells of the change of the resource to the status.
abbrev pub Reports : Resource → ResourceStatus → OutboxEvent → Type 0
Reports r status e = e.payload ≡ Payload.resource_status_changed r.id r.status status

-- The request to re-optimize an assignment, as a row of the outbox.
abbrev request : ℕ → Trigger → Assignment → OutboxEvent
request event_id trigger a = record {
  event_id = event_id;
  payload = Payload.reoptimization_requested a.incident_id a.id trigger;
  status = OutboxStatus.pending;
  attempts = 0;
}

-- Which requests a status of a resource calls for, given its ACTIVE assignment, if it has one.
abbrev pub requests : ℕ → ResourceStatus → Option Assignment → List OutboxEvent
requests event_id status none = []
requests event_id ResourceStatus.available (some a) = []
requests event_id ResourceStatus.busy (some a) = []
requests event_id ResourceStatus.unavailable (some a) =
    request event_id Trigger.resource_unavailable a ∷ []
requests event_id ResourceStatus.maintenance (some a) =
    request event_id Trigger.resource_maintenance a ∷ []
requests event_id ResourceStatus.failed (some a) = request event_id Trigger.resource_failure a ∷ []

-- The job of the event succeeds, and adds exactly these rows to the outbox.
abbrev pub IsAnswered : Environment → Db → List OutboxEvent → Payload → Type 0
IsAnswered env db rows payload =
    handle_event env payload db ≡ (Settled.resolved tt, record db { outbox = db.outbox ++ rows })

-- deactivateResource sets a listed resource to UNAVAILABLE, a status that the handler of status
-- events answers with a trigger, but leaves the outbox and the assignments as they are: it writes
-- no event, so an ACTIVE assignment of the resource is not re-optimized.
pub deactivate_resource_silent :
    (db : Db) (id : ℕ) (r : Resource)
    → find_unique id db.resources ≡ some r
    → (db' : Db) × (deactivate_resource db db id ≡ ok db')
      × (find_unique id db'.resources ≡ some (set_resource_status ResourceStatus.unavailable r))
      × (status_to_trigger ResourceStatus.unavailable ≡ some Trigger.resource_unavailable)
      × (db'.outbox ≡ db.outbox)
      × (db'.assignments ≡ db.assignments)
unfolding deactivate_resource update_row status_to_trigger
deactivate_resource_silent db id r found = (
  record db {
    resources = set_row id (set_resource_status ResourceStatus.unavailable) db.resources;
  },
  ground arith,
  ground (
    arith,
    find_unique-set_row id id (set_resource_status ResourceStatus.unavailable) db.resources
        (λ x. refl),
  ),
  refl,
  refl,
  refl,
)
