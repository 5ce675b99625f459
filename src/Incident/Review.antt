-- ===== src/Incident/Review.antt =====
-- Creation, approval and rejection of incidents, and what a stale rejection does.
use res_q_server.Common.{
  Option, if◌then◌else◌, ◌≡◌, ◌↔◌, ok, arith, Option-cases, Text, [], app, bad_request, err, inl,
  inr, nat_eq, none, refl, some, text_eq, ℕ, ◌∷◌, ◌⊎◌, ◌==◌,
}
use res_q_server.Incident.Lifecycle.{with_status, write_status_found}
use res_q_server.Incident.Defs.{
  CreateIncidentInput, approve_incident, create_incident, reject_incident, rejected_condition,
  initial_status,
}
use res_q_server.Db.Rows.{
  Db, Incident, IncidentStatus, Role, User, assignment_status_eq, incident_status_eq,
  resource_status_eq, role_eq,
}
use res_q_server.Db.Tables.{
  assignment_row, find_unique, find_unique-set_row, incident_row, outbox_row, resource_row, set_row,
  update_row, user_row,
}

-- With no other write in between, approveIncident succeeds exactly for a PENDING incident whose
-- creator is listed as a CITIZEN, and then writes APPROVED and nothing else.
pub approve_incident_iff :
    (db : Db) (id : ℕ) (db' : Db)
    → (approve_incident db db id ≡ ok db') ↔ (
        (i : Incident) × (find_unique id db.incidents ≡ some i)
        × (i.status ≡ IncidentStatus.pending)
        × (u : User) × (find_unique i.created_by_id db.users ≡ some u)
        × (u.role ≡ Role.citizen)
        × (db' ≡ with_status id IncidentStatus.approved db))
unfolding approve_incident
approve_incident_iff db id db' = (
  λ e. elim (Option-cases (find_unique id db.incidents)) [
    | inl missing ↦ absurd (ground arith)
    | inr (i, found) ↦ elim (Option-cases (find_unique i.created_by_id db.users)) [
      | inl nobody ↦ absurd (ground arith)
      | inr (u, creator) ↦ (
        i,
        found,
        ground arith,
        u,
        creator,
        ground arith,
        ground (arith, write_status_found IncidentStatus.approved id db i found),
      )
    ]
  ],
  λ (i, found, s, u, creator, r, e).
      ground (arith, write_status_found IncidentStatus.approved id db i found),
)

rejected_condition-status :
    (reason : Option Text) (i : Incident)
    → (rejected_condition reason i).status ≡ IncidentStatus.rejected
rejected_condition-status none i = refl
rejected_condition-status (some []) i = refl
rejected_condition-status (some (c ∷ cs)) i = refl

rejected_condition-id :
    (reason : Option Text) (i : Incident) → (rejected_condition reason i).id ≡ i.id
rejected_condition-id none i = refl
rejected_condition-id (some []) i = refl
rejected_condition-id (some (c ∷ cs)) i = refl

-- A rejection that has read the incident as PENDING succeeds if the incident is still listed when
-- it writes, and writes REJECTED whatever the status is by then, with the assignments as they
-- are: the check and the update of rejectIncident are not one transaction, so an approval or an
-- assignment in between is overwritten.
pub reject_incident_overwrites :
    (seen met : Db) (id : ℕ) (reason : Option Text) (i j : Incident)
    → find_unique id seen.incidents ≡ some i
    → i.status ≡ IncidentStatus.pending
    → find_unique id met.incidents ≡ some j
    → (met' : Db) × (reject_incident seen met id reason ≡ ok met')
      × (find_unique id met'.incidents ≡ some (rejected_condition reason j))
      × ((rejected_condition reason j).status ≡ IncidentStatus.rejected)
      × (met'.assignments ≡ met.assignments)
unfolding reject_incident update_row
reject_incident_overwrites seen met id reason i j found s now = (
  record met { incidents = set_row id (rejected_condition reason) met.incidents },
  ground arith,
  ground (
    arith,
    find_unique-set_row id id (rejected_condition reason) met.incidents
        (rejected_condition-id reason),
  ),
  rejected_condition-status reason j,
  refl,
)

initial_status_iff :
    (role : Role)
    → (initial_status role ≡ IncidentStatus.approved)
      ↔ ((role ≡ Role.operator) ⊎ (role ≡ Role.admin))
initial_status_iff role = ground arith

approve_created :
    (id event_id : ℕ) (input : CreateIncidentInput) (u : User) (db : Db)
    → find_unique u.id db.users ≡ some u
    → let after = (create_incident id event_id input u.id u.role db).1 in
      approve_incident after after id ≡ (
        if u.role == Role.citizen
        then ok (with_status id IncidentStatus.approved after)
        else err (app bad_request))
unfolding create_incident approve_incident find_unique update_row
approve_created id event_id input u db e = ground arith

-- For an incident just created by a listed user under the user's role: it is APPROVED at once if
-- and only if the role is OPERATOR or ADMIN, approveIncident accepts it if and only if the role
-- is CITIZEN, and one created by a COORDINATOR is PENDING, and approveIncident refuses it with
-- 400.
pub create_incident-approve :
    (id event_id : ℕ) (input : CreateIncidentInput) (u : User) (db : Db)
    → find_unique u.id db.users ≡ some u
    → let created = create_incident id event_id input u.id u.role db in
      ((created.0.status ≡ IncidentStatus.approved)
        ↔ ((u.role ≡ Role.operator) ⊎ (u.role ≡ Role.admin)))
      × (((db' : Db) × (approve_incident created.1 created.1 id ≡ ok db'))
          ↔ (u.role ≡ Role.citizen))
      × (u.role ≡ Role.coordinator
          → (created.0.status ≡ IncidentStatus.pending)
            × (approve_incident created.1 created.1 id ≡ err (app bad_request)))
unfolding create_incident
create_incident-approve id event_id input u db e =
    let made = approve_created id event_id input u db e in
    (
      initial_status_iff u.role,
      (λ (db', h). ground (arith, made), λ r. ground (arith, made)),
      λ r. (ground arith, ground (arith, made)),
    )
