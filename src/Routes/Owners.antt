-- ===== src/Routes/Owners.antt =====
-- What a CITIZEN and an OPERATOR get through to.
use res_q_server.Routes.{
  Route, Own, IncidentRoute, AssignmentRoute, HospitalRoute, ResourceRoute, rule_of,
}
use res_q_server.Common.{
  Bool, false, includes, nat_eq, not, some, text_eq, true, ℕ, ◌||◌, ◌≡◌, find,
}
use res_q_server.Access.{is_served_by, operates, reported}
use res_q_server.Db.Rows.{
  Assignment, Db, Hospital, Incident, Resource, Role, assignment_status_eq, hospital_status_eq,
  incident_status_eq, level_eq, resource_status_eq, role_eq, user_status_eq,
}
use res_q_server.Resource.{is_operator}
use res_q_server.Db.Tables.{
  assignment_row, find_unique, hospital_row, incident_row, outbox_row, resource_row, user_row,
}

-- The calls that are about no row: to report an incident, and the listings, which filter by role.
abbrev pub is_shared : Route → Bool
is_shared (Route.incidents IncidentRoute.create_incident) = true
is_shared (Route.incidents IncidentRoute.list_incidents) = true
is_shared (Route.assignments AssignmentRoute.list_assignments) = true
is_shared (Route.hospitals HospitalRoute.list_hospitals) = true
is_shared (Route.resources ResourceRoute.list_resources) = true
is_shared _ = false

-- Which table the id of a route names: that of the router. No id of the other routers names a row
-- that belongs to a user.
abbrev pub table_of : Route → Own
table_of (Route.incidents r) = Own.incident
table_of (Route.assignments r) = Own.assignment
table_of (Route.hospitals r) = Own.hospital
table_of (Route.resources r) = Own.resource
table_of (Route.users r) = Own.unguarded
table_of (Route.logs r) = Own.unguarded

-- The row of a table that the id of a request names belongs to the user.
pub data Owns (db : Db) (id : ℕ) (user_id : ℕ) : Own → Role → Type 0 where
  reported_incident :
      (i : Incident)
      → find_unique id db.incidents ≡ some i
      → i.created_by_id ≡ user_id
      → Owns db id user_id Own.incident Role.citizen
  reported_assignment :
      (a : Assignment)
      → find_unique id db.assignments ≡ some a
      → reported db user_id a ≡ true
      → Owns db id user_id Own.assignment Role.citizen
  served_incident :
      (a : Assignment)
      → find (is_served_by db user_id id) db.assignments ≡ some a
      → Owns db id user_id Own.incident Role.operator
  operated_assignment :
      (a : Assignment)
      → find_unique id db.assignments ≡ some a
      → operates db user_id a ≡ true
      → Owns db id user_id Own.assignment Role.operator
  operated_hospital :
      (h : Hospital)
      → find_unique id db.hospitals ≡ some h
      → is_operator user_id h.assigned_operator_id ≡ true
      → Owns db id user_id Own.hospital Role.operator
  operated_resource :
      (r : Resource)
      → find_unique id db.resources ≡ some r
      → is_operator user_id r.operator_id ≡ true
      → Owns db id user_id Own.resource Role.operator

-- A guard of a row, which is the guard of the route's own table.
abbrev is_own : Own → Own → Bool
is_own Own.incident Own.incident = true
is_own Own.assignment Own.assignment = true
is_own Own.hospital Own.hospital = true
is_own Own.resource Own.resource = true
is_own _ _ = false

abbrev is_confined : Role → Route → Bool
is_confined role route =
    is_shared route
    || not (includes (rule_of route).roles role)
    || is_own (rule_of route).own (table_of route)
