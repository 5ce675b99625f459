-- ===== src/Reoptimization/Service.antt =====
-- reoptimization.service.ts, step 6: the transaction that carries a replacement out, and the whole
-- of reoptimizeAssignment.
use res_q_server.Common.{
  Bool, List, Option, ℕ, if◌then◌else◌, ◌==◌, not, ltb, true, false, none, some, ◌∷◌, conflict, app,
  Result, guard, nat_eq, ok, or_throw, text_eq, ◌>>=◌, ◌>>◌, err,
}
use res_q_server.Decision.Allocation.{Speed}
use res_q_server.Db.Tables.{
  assignment_row, find_unique, incident_row, outbox_row, resource_row, set_row, update_row,
  user_row,
}
use res_q_server.Db.Rows.{
  Assignment, AssignmentStatus, Db, DecisionType, Incident, Place, Resource, ResourceStatus,
  assignment_status_eq, incident_status_eq, resource_status_eq, role_eq, ReoptimizationLog,
}
use res_q_server.Assignment.Defs.{
  Supply, insert_active, new_assignment, set_resource_status, Surroundings, attempt_tx,
  should_retry_create, translate_conflict,
}
use res_q_server.Assignment.Release.{release}
use res_q_server.Decision.Matching.{is_type_match}
use res_q_server.Reliability.Retry.{Settled, with_retry}
use res_q_server.Reoptimization.Strategy.{Plan, Reason, ReoptimizeInput, Replacement, plan}

-- Only a BUSY resource is freed: a FAILED one keeps its status.
unfoldable pub release_busy : ℕ → List Resource → List Resource
release_busy id resources = elim (find_unique id resources) [
  | none ↦ resources
  | some r ↦
      if r.status == ResourceStatus.busy
      then set_row id (set_resource_status ResourceStatus.available) resources
      else resources
]

-- The checks at the head of the transaction.
unfoldable pub check_replace : Db → (assignment_id : ℕ) → Replacement → Result (Unit {0})
check_replace db id p = do
  assignment ← or_throw (find_unique id db.assignments) (app conflict)
  guard (assignment.status == AssignmentStatus.active) (app conflict)
  new ← or_throw (find_unique p.replacement.id db.resources) (app conflict)
  guard (new.status == ResourceStatus.available) (app conflict)
  guard (is_type_match new.type p.incident.resource_requirements) (app conflict)
  guard (not (ltb new.capacity p.incident.affected_people)) (app conflict)

abbrev pub replacement_assignment : Supply → Replacement → Assignment
replacement_assignment supply p =
    new_assignment supply (record { incident_id = p.incident.id; resource_id = p.replacement.id })

abbrev pub replaced_log : ReoptimizeInput → Replacement → ReoptimizationLog
replaced_log input p = record {
  incident_id = p.incident.id;
  assignment_id = input.assignment_id;
  trigger = input.trigger;
  previous_resource_id = p.previous.id;
  new_resource_id = some p.replacement.id;
  replaced = true;
}

-- The writes 1 to 8.
unfoldable pub write_replace :
    Db → Supply → ReoptimizeInput → Replacement → Result (Assignment × Db)
unfolding insert_active update_row release_busy
write_replace db supply input p = do
  cancelled ←
      update_row input.assignment_id (release AssignmentStatus.cancelled supply.now) db.assignments
  assignments ← insert_active (replacement_assignment supply p) cancelled
  resources ←
      update_row p.replacement.id (set_resource_status ResourceStatus.busy)
        (release_busy p.previous.id db.resources)
  ok (
    replacement_assignment supply p,
    record db {
      assignments = assignments;
      resources = resources;
      decisions =
          record {
            incident_id = p.incident.id;
            selected_resource_id = some p.replacement.id;
            decision_type = DecisionType.resource_assignment;
            priority_score = none;
          }
          ∷ db.decisions;
      reoptimizations = replaced_log input p ∷ db.reoptimizations;
    },
  )

-- The callback of $transaction.
unfoldable pub replace_tx :
    (seen met : Db) → Supply → ReoptimizeInput → Replacement → Result (Assignment × Db)
unfolding check_replace write_replace
replace_tx seen met supply input p = do
  check_replace seen input.assignment_id p
  write_replace met supply input p

pub record ReoptimizationResult : Type 0 where
  pub reoptimized : Bool
  pub replacement_found : Bool
  pub reason : Option Reason
  pub previous_resource : ℕ
  pub new_resource : Option ℕ
  pub new_assignment_id : Option ℕ
  pub cancelled_assignment_id : Option ℕ

-- prisma.reoptimizationLog.create of the branches that change nothing
unfoldable pub log_kept : ReoptimizeInput → Incident → Resource → Db → Db
log_kept input incident resource db = record db {
  reoptimizations =
      record {
        incident_id = incident.id;
        assignment_id = input.assignment_id;
        trigger = input.trigger;
        previous_resource_id = resource.id;
        new_resource_id = none;
        replaced = false;
      }
      ∷ db.reoptimizations;
}

unfoldable pub report_replaced :
    ReoptimizeInput → Replacement → Settled Assignment → Settled ReoptimizationResult
unfolding translate_conflict
report_replaced input p (Settled.resolved a) = Settled.resolved (record {
  reoptimized = true;
  replacement_found = true;
  reason = none;
  previous_resource = p.previous.id;
  new_resource = some p.replacement.id;
  new_assignment_id = some a.id;
  cancelled_assignment_id = some input.assignment_id;
})
report_replaced input p (Settled.rejected e) = Settled.rejected (translate_conflict e)
report_replaced input p Settled.rejected_undefined = Settled.rejected_undefined

-- Step 6, with the retries; other transactions may commit between the plan and the first attempt.
unfoldable pub carry_out :
    (max_attempts : ℕ) (backoff : ℕ → ℕ)
    → Surroundings
    → Supply
    → ReoptimizeInput
    → Db
    → Result Plan
    → Settled ReoptimizationResult × Db
unfolding with_retry should_retry_create attempt_tx replace_tx report_replaced log_kept
carry_out max_attempts backoff around supply input db (err e) = (Settled.rejected e, db)
carry_out max_attempts backoff around supply input db (ok (Plan.keep reason incident resource)) = (
  Settled.resolved (record {
    reoptimized = false;
    replacement_found = false;
    reason = some reason;
    previous_resource = resource.id;
    new_resource = none;
    new_assignment_id = none;
    cancelled_assignment_id = none;
  }),
  log_kept input incident resource db,
)
carry_out max_attempts backoff around supply input db (ok (Plan.replace p)) =
    let run =
      with_retry max_attempts should_retry_create backoff
        (attempt_tx around (λ seen met. replace_tx seen met supply input p)) (around.others 0 db) in
    (report_replaced input p run.outcome, run.state)

unfoldable pub reoptimize_assignment :
    (haversine_distance : Place → Place → ℕ) (average_speed : Speed) (max_attempts : ℕ)
    (backoff : ℕ → ℕ)
    → Surroundings
    → Supply
    → ReoptimizeInput
    → Db
    → Settled ReoptimizationResult × Db
unfolding plan carry_out
reoptimize_assignment haversine_distance average_speed max_attempts backoff around supply input db =
    carry_out max_attempts backoff around supply input db
      (plan haversine_distance average_speed input db)
