-- ===== src/Access.antt =====
-- src/middlewares/permissions.ts: the guards that stand before the handlers of the routes.
-- `err` is `next(error)`, `ok` is `next()`. A role of a token is one of the four roles, as login
-- signs no other; the last refusal of each guard, for another text, is left out.
use res_q_server.Common.{
  Bool, List, Option, Result, app, bad_request, err, false, find, forbidden, guard, includes,
  nat_eq, none, not_found, ok, or_throw, some, text_eq, unauthorized, ℕ, ◌&&◌, ◌==◌, ◌>>=◌,
}
use res_q_server.Db.Rows.{
  Assignment, Db, Incident, Role, assignment_status_eq, hospital_status_eq, incident_status_eq,
  level_eq, resource_status_eq, role_eq, user_status_eq,
}
use res_q_server.Db.Tables.{
  assignment_row, find_unique, hospital_row, incident_row, outbox_row, resource_row, user_row,
}
use res_q_server.Resource.{is_operator}
use res_q_server.Assignment.Defs.{is_active_for}

pub record AuthUser : Type 0 where
  pub user_id : ℕ
  pub role : Role

-- req.user, which `authenticate` sets
unfoldable pub require_user : Option AuthUser → Result AuthUser
require_user user = or_throw user (app unauthorized)

-- requireRoles, and authorizeRoles of auth.ts
unfoldable pub require_roles : List Role → Option AuthUser → Result (Unit {0})
unfolding require_user
require_roles roles req_user = do
  user ← require_user req_user
  guard (includes roles user.role) (app forbidden)

-- `resource.operatorId` of the assignment's resource, which the foreign key makes sure is there
abbrev pub operates : Db → ℕ → Assignment → Bool
operates db user_id a = elim (find_unique a.resource_id db.resources) [
  | none ↦ false
  | some r ↦ is_operator user_id r.operator_id
]

-- `incident.createdById` of the assignment's incident, likewise
abbrev pub reported : Db → ℕ → Assignment → Bool
reported db user_id a = elim (find_unique a.incident_id db.incidents) [
  | none ↦ false
  | some i ↦ i.created_by_id == user_id
]

unfoldable pub operator_resource_access : Db → Option ℕ → ℕ → Result (Unit {0})
operator_resource_access db param user_id = do
  id ← or_throw param (app bad_request)
  resource ← or_throw (find_unique id db.resources) (app not_found)
  guard (is_operator user_id resource.operator_id) (app forbidden)

unfoldable pub resource_access : Db → Option ℕ → ℕ → Role → Result (Unit {0})
unfolding operator_resource_access
resource_access db param user_id Role.admin = ok tt
resource_access db param user_id Role.coordinator = ok tt
resource_access db param user_id Role.citizen = err (app forbidden)
resource_access db param user_id Role.operator = operator_resource_access db param user_id

unfoldable pub require_resource_access : Db → Option ℕ → Option AuthUser → Result (Unit {0})
unfolding require_user resource_access
require_resource_access db param req_user = do
  user ← require_user req_user
  resource_access db param user.user_id user.role

unfoldable pub operator_hospital_access : Db → ℕ → ℕ → Result (Unit {0})
operator_hospital_access db id user_id = do
  hospital ← or_throw (find_unique id db.hospitals) (app not_found)
  guard (is_operator user_id hospital.assigned_operator_id) (app forbidden)

unfoldable pub hospital_access : Db → Option ℕ → ℕ → Role → Result (Unit {0})
unfolding operator_hospital_access
hospital_access db param user_id Role.admin = ok tt
hospital_access db param user_id Role.citizen = err (app forbidden)
hospital_access db param user_id Role.operator = do
  id ← or_throw param (app bad_request)
  operator_hospital_access db id user_id
hospital_access db param user_id Role.coordinator = do id ← or_throw param (app bad_request); ok tt

unfoldable pub require_hospital_access : Db → Option ℕ → Option AuthUser → Result (Unit {0})
unfolding require_user hospital_access
require_hospital_access db param req_user = do
  user ← require_user req_user
  hospital_access db param user.user_id user.role

-- The assignment of the request's id.
unfoldable pub requested_assignment : Db → Option ℕ → Result Assignment
requested_assignment db param = do
  id ← or_throw param (app bad_request)
  or_throw (find_unique id db.assignments) (app not_found)

unfoldable pub assignment_access : Db → Option ℕ → ℕ → Role → Result (Unit {0})
unfolding requested_assignment
assignment_access db param user_id Role.admin = ok tt
assignment_access db param user_id Role.coordinator = ok tt
assignment_access db param user_id Role.operator = do
  assignment ← requested_assignment db param
  guard (operates db user_id assignment) (app forbidden)
assignment_access db param user_id Role.citizen = do
  assignment ← requested_assignment db param
  guard (reported db user_id assignment) (app forbidden)

unfoldable pub require_assignment_access : Db → Option ℕ → Option AuthUser → Result (Unit {0})
unfolding require_user assignment_access
require_assignment_access db param req_user = do
  user ← require_user req_user
  assignment_access db param user.user_id user.role

unfoldable pub requested_incident : Db → Option ℕ → Result Incident
requested_incident db param = do
  id ← or_throw param (app bad_request)
  or_throw (find_unique id db.incidents) (app not_found)

-- where: { incidentId, status: 'ACTIVE', resource: { operatorId } }
abbrev pub is_served_by : Db → ℕ → ℕ → Assignment → Bool
is_served_by db user_id incident_id a = is_active_for incident_id a && operates db user_id a

unfoldable pub incident_access : Db → Option ℕ → ℕ → Role → Result (Unit {0})
unfolding requested_incident
incident_access db param user_id Role.admin = ok tt
incident_access db param user_id Role.coordinator = ok tt
incident_access db param user_id Role.operator = do
  incident ← requested_incident db param
  assignment ← or_throw (find (is_served_by db user_id incident.id) db.assignments) (app forbidden)
  ok tt
incident_access db param user_id Role.citizen = do
  incident ← requested_incident db param
  guard (incident.created_by_id == user_id) (app forbidden)

unfoldable pub require_incident_access : Db → Option ℕ → Option AuthUser → Result (Unit {0})
unfolding require_user incident_access
require_incident_access db param req_user = do
  user ← require_user req_user
  incident_access db param user.user_id user.role
