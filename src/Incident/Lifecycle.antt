-- ===== src/Incident/Lifecycle.antt =====
-- Which operation may move an incident from which status to which.
use res_q_server.Common.{
  ◌≡◌, ◌↔◌, ok, true, arith, Option-cases, includes, inl, inr, nat_eq, refl, some, text_eq, ℕ,
}
use res_q_server.Db.Tables.{
  assignment_row, find_unique, incident_row, outbox_row, resource_row, set_row, update_row,
  user_row,
}
use res_q_server.Db.Rows.{
  Db, Incident, IncidentStatus, assignment_status_eq, incident_status_eq, resource_status_eq,
  role_eq,
}
use res_q_server.Assignment.Defs.{set_incident_status}
use res_q_server.Incident.Defs.{allowed_status_transitions, update_incident_status, write_status}

-- The diagram of incident.interface.ts.
pub data Moves : IncidentStatus → IncidentStatus → Type 0 where
  approval : Moves IncidentStatus.pending IncidentStatus.approved
  rejection : Moves IncidentStatus.pending IncidentStatus.rejected
  assignment : Moves IncidentStatus.approved IncidentStatus.assigned
  start : Moves IncidentStatus.assigned IncidentStatus.in_progress
  completion : Moves IncidentStatus.in_progress IncidentStatus.completed
  withdrawal : Moves IncidentStatus.pending IncidentStatus.cancelled
  stop_approved : Moves IncidentStatus.approved IncidentStatus.cancelled
  stop_assigned : Moves IncidentStatus.assigned IncidentStatus.cancelled
  stop_in_progress : Moves IncidentStatus.in_progress IncidentStatus.cancelled

ruleset moves = (
  Moves.approval, Moves.rejection, Moves.assignment, Moves.start, Moves.completion,
  Moves.withdrawal, Moves.stop_approved, Moves.stop_assigned, Moves.stop_in_progress,
)

pub Moves-of_allowed :
    (s t : IncidentStatus) → includes (allowed_status_transitions s) t ≡ true → Moves s t
unfolding allowed_status_transitions
Moves-of_allowed s t e = grind (arith, moves)

pub allowed-Moves :
    {s t : IncidentStatus} → Moves s t → includes (allowed_status_transitions s) t ≡ true
unfolding allowed_status_transitions
allowed-Moves Moves.approval = refl
allowed-Moves Moves.rejection = refl
allowed-Moves Moves.assignment = refl
allowed-Moves Moves.start = refl
allowed-Moves Moves.completion = refl
allowed-Moves Moves.withdrawal = refl
allowed-Moves Moves.stop_approved = refl
allowed-Moves Moves.stop_assigned = refl
allowed-Moves Moves.stop_in_progress = refl

-- The table of incidents with another status in the row `id`.
abbrev pub with_status : ℕ → IncidentStatus → Db → Db
with_status id status db = record db {
  incidents = set_row id (set_incident_status status) db.incidents;
}

pub write_status_found :
    (status : IncidentStatus) (id : ℕ) (db : Db) (i : Incident)
    → find_unique id db.incidents ≡ some i
    → write_status status id db ≡ ok (with_status id status db)
unfolding update_row
write_status_found status id db i e = ground arith

-- With no other write in between, updateIncidentStatus succeeds exactly where the incident exists
-- and the diagram has an arrow from its status to the new one, and then writes that status and
-- nothing else. The diagram has the arrow from APPROVED to ASSIGNED, so this succeeds with no
-- assignment, although the design document emergency-request-approval (Gap 5) says that ASSIGNED is
-- blocked as a direct target.
pub update_incident_status_iff :
    (db : Db) (id : ℕ) (next : IncidentStatus) (db' : Db)
    → (update_incident_status db db id next ≡ ok db') ↔ (
        (i : Incident) × (find_unique id db.incidents ≡ some i)
        × Moves i.status next
        × (db' ≡ with_status id next db))
unfolding update_incident_status
update_incident_status_iff db id next db' = (
  λ e. elim (Option-cases (find_unique id db.incidents)) [
    | inl missing ↦ absurd (ground arith)
    | inr (i, found) ↦ (
      i,
      found,
      Moves-of_allowed i.status next (ground arith),
      ground (arith, write_status_found next id db i found),
    )
  ],
  λ (i, found, move, e). ground (arith, allowed-Moves move, write_status_found next id db i found),
)
