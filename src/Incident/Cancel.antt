-- ===== src/Incident/Cancel.antt =====
-- Who may cancel which incident.
use mathlib.Core.Path.{subst, sym}
use res_q_server.Common.{
  ◌≡◌, ◌↔◌, ok, arith, ℕ, Bool-cases, inl, inr, nat_eq, text_eq, ◌==◌, Option-cases, Result-cases,
  some, ◌⊎◌, refl, sym,
}
use res_q_server.Db.Rows.{
  Incident, IncidentStatus, Role, assignment_status_eq, incident_status_eq, resource_status_eq,
  role_eq, Db,
}
use res_q_server.Incident.Defs.{check_cancel, cancel_incident, allowed_status_transitions}
use res_q_server.Db.Tables.{
  assignment_row, incident_row, outbox_row, resource_row, user_row, find_unique,
}
use res_q_server.Incident.Lifecycle.{Moves, with_status, write_status_found, allowed-Moves}

-- The rule in the comment of cancelIncident. CITIZEN: only an own PENDING incident. The others:
-- any incident that is not COMPLETED or CANCELLED already.
pub data MayCancel (i : Incident) (user_id : ℕ) (role : Role) : Type 0 where
  own :
      role ≡ Role.citizen
      → i.created_by_id ≡ user_id
      → i.status ≡ IncidentStatus.pending
      → MayCancel i user_id role
  staff :
      ¬ (role ≡ Role.citizen)
      → ¬ (i.status ≡ IncidentStatus.completed)
      → ¬ (i.status ≡ IncidentStatus.cancelled)
      → MayCancel i user_id role

ruleset may = (MayCancel.own, MayCancel.staff)

MayCancel-of_check :
    (i : Incident) (user_id : ℕ) (role : Role)
    → check_cancel i user_id role ≡ ok tt
    → MayCancel i user_id role
unfolding check_cancel
MayCancel-of_check i user_id role e = elim (Bool-cases (role == Role.citizen)) [
  | inl r ↦ MayCancel.own (ground arith) (ground arith) (ground arith)
  | inr r ↦ MayCancel.staff (λ h. ground arith) (λ h. ground arith) (λ h. ground arith)
]

check-MayCancel :
    (i : Incident) (user_id : ℕ) (role : Role)
    → MayCancel i user_id role
    → check_cancel i user_id role ≡ ok tt
unfolding check_cancel
check-MayCancel i user_id role (MayCancel.own r o s) = ground arith
check-MayCancel i user_id role (MayCancel.staff r c d) = ground arith

-- With no other write in between, cancelIncident succeeds exactly where the incident exists and
-- the caller may cancel it, and then writes CANCELLED and nothing else. A CITIZEN may cancel an
-- own PENDING incident, any other role an incident that is not COMPLETED or CANCELLED.
pub cancel_incident_iff :
    (db : Db) (id user_id : ℕ) (role : Role) (db' : Db)
    → (cancel_incident db db id user_id role ≡ ok db') ↔ (
        (i : Incident) × (find_unique id db.incidents ≡ some i)
        × MayCancel i user_id role
        × (db' ≡ with_status id IncidentStatus.cancelled db))
unfolding cancel_incident
cancel_incident_iff db id user_id role db' = (
  λ e. elim (Option-cases (find_unique id db.incidents)) [
    | inl missing ↦ absurd (ground arith)
    | inr (i, found) ↦
        let written = write_status_found IncidentStatus.cancelled id db i found in
        elim (Result-cases (check_cancel i user_id role)) [
          | inl (tt, checked) ↦
              (i, found, MayCancel-of_check i user_id role checked, ground (arith, written))
          | inr (x, refused) ↦ absurd (ground arith)
        ]
  ],
  λ (i, found, may, e). ground (
    arith,
    check-MayCancel i user_id role may,
    write_status_found IncidentStatus.cancelled id db i found,
  ),
)

withdrawn :
    (s : IncidentStatus)
    → ¬ (s ≡ IncidentStatus.completed)
    → ¬ (s ≡ IncidentStatus.cancelled)
    → Moves s IncidentStatus.cancelled ⊎ (s ≡ IncidentStatus.rejected)
withdrawn IncidentStatus.pending c d = inl Moves.withdrawal
withdrawn IncidentStatus.approved c d = inl Moves.stop_approved
withdrawn IncidentStatus.rejected c d = inr refl
withdrawn IncidentStatus.assigned c d = inl Moves.stop_assigned
withdrawn IncidentStatus.in_progress c d = inl Moves.stop_in_progress
withdrawn IncidentStatus.completed c d = absurd (c refl)
withdrawn IncidentStatus.cancelled c d = absurd (d refl)

Moves-MayCancel :
    {i : Incident} {user_id : ℕ} {role : Role}
    → MayCancel i user_id role
    → Moves i.status IncidentStatus.cancelled
      ⊎ ((i.status ≡ IncidentStatus.rejected) × ¬ (role ≡ Role.citizen))
Moves-MayCancel {i} (MayCancel.own r o s) =
    inl (subst (λ t. Moves t IncidentStatus.cancelled) (sym s) Moves.withdrawal)
Moves-MayCancel {i} (MayCancel.staff r c d) = elim (withdrawn i.status c d) [
  | inl move ↦ inl move
  | inr e ↦ inr (e, r)
]

rejected-MayCancel :
    {i : Incident} {user_id : ℕ} {role : Role}
    → MayCancel i user_id role
    → i.status ≡ IncidentStatus.rejected
    → ¬ (role ≡ Role.citizen)
rejected-MayCancel (MayCancel.own r o s) e = λ c. ground arith
rejected-MayCancel (MayCancel.staff r c d) e = r

rejected-Moves : {s t : IncidentStatus} → Moves s t → s ≡ IncidentStatus.rejected → ⊥
unfolding allowed_status_transitions
rejected-Moves move e = absurd (ground (arith, allowed-Moves move))

-- A cancellation that cancelIncident allows follows an arrow of the status diagram, or it cancels
-- a REJECTED incident, from which no arrow leads to CANCELLED; exactly the callers who are not a
-- CITIZEN may cancel a REJECTED incident.
pub cancel-Moves :
    (i : Incident) (user_id : ℕ) (role : Role)
    → (MayCancel i user_id role
        → Moves i.status IncidentStatus.cancelled
          ⊎ ((i.status ≡ IncidentStatus.rejected) × ¬ (role ≡ Role.citizen)))
      × (i.status ≡ IncidentStatus.rejected
          → (MayCancel i user_id role ↔ ¬ (role ≡ Role.citizen))
            × ¬ (Moves i.status IncidentStatus.cancelled))
cancel-Moves i user_id role = (
  Moves-MayCancel,
  λ r. (
    (
      λ may c. rejected-MayCancel may r c,
      λ c. MayCancel.staff c (λ h. ground arith) (λ h. ground arith),
    ),
    λ move. rejected-Moves move r,
  ),
)
