-- ===== src/Incident/Reads.antt =====
-- src/modules/incident/incident.service.ts: the reads. `order` is the database's ORDER BY: by
-- priority and time if the flag is set, by severity and time otherwise.
use res_q_server.Common.{
  Bool, List, Option, Result, app, false, filter, includes, map, nat_eq, none, not, not_found, ok,
  or_throw, some, text_eq, true, ℕ, ◌&&◌, ◌==◌, ◌>>=◌, ◌||◌,
}
use res_q_server.Db.Rows.{
  Assignment, AssignmentStatus, Db, Incident, IncidentStatus, Level, Role, assignment_status_eq,
  hospital_status_eq, incident_status_eq, level_eq, resource_status_eq, role_eq, user_status_eq,
}
use res_q_server.Pagination.{PaginatedResult, PaginationParams, matches, paginate}
use res_q_server.Db.Tables.{
  assignment_row, find_unique, hospital_row, incident_row, outbox_row, resource_row, user_row,
}
use res_q_server.Access.{AuthUser, operates}

pub record IncidentFilters : Type 0 where
  pub status : Option IncidentStatus
  pub severity : Option Level

-- The incidents of the ACTIVE assignments of the operator's resources.
unfoldable pub operator_incident_ids : Db → ℕ → List ℕ
operator_incident_ids db user_id =
    map (λ (a : Assignment). a.incident_id)
      (filter (λ a. a.status == AssignmentStatus.active && operates db user_id a) db.assignments)

-- The part of the filter that depends on the role.
unfoldable pub visible_incident : Db → Role → ℕ → Incident → Bool
unfolding operator_incident_ids
visible_incident db Role.citizen user_id i = i.created_by_id == user_id
visible_incident db Role.operator user_id i = includes (operator_incident_ids db user_id) i.id
visible_incident db _ user_id i = true

abbrev incident_visible_to : Db → Option AuthUser → Incident → Bool
incident_visible_to db none i = true
incident_visible_to db (some user) i = visible_incident db user.role user.user_id i

-- A listing by priority that asks for no status leaves out the finished incidents.
abbrev pub status_passes : (by_priority : Bool) → Option IncidentStatus → Incident → Bool
status_passes true none i =
    not (i.status == IncidentStatus.completed || i.status == IncidentStatus.cancelled)
status_passes false none i = true
status_passes by_priority (some status) i = i.status == status

unfoldable pub where_incidents :
    Db → IncidentFilters → (by_priority : Bool) → Option AuthUser → Incident → Bool
unfolding visible_incident
where_incidents db filters by_priority user i =
    status_passes by_priority filters.status i
    && matches filters.severity i.severity
    && incident_visible_to db user i

-- `pagination ?? { page: 1, limit: 20 }`
abbrev pub page_or_first : Option PaginationParams → PaginationParams
page_or_first none = record { page = 1; limit = 20 }
page_or_first (some p) = p

unfoldable pub get_incidents :
    (order : Bool → List Incident → List Incident)
    → Db
    → IncidentFilters
    → (by_priority : Bool) → Option PaginationParams
    → Option AuthUser
    → PaginatedResult Incident
unfolding where_incidents paginate
get_incidents order db filters by_priority pagination user =
    paginate (page_or_first pagination)
      (order by_priority (filter (where_incidents db filters by_priority user) db.incidents))

unfoldable pub get_incident_by_id : Db → ℕ → Result Incident
get_incident_by_id db id = or_throw (find_unique id db.incidents) (app not_found)

-- getIncidentAssignments
unfoldable pub get_incident_assignments : Db → ℕ → Result (List Assignment)
get_incident_assignments db id = do
  incident ← or_throw (find_unique id db.incidents) (app not_found)
  ok (filter (λ (a : Assignment). a.incident_id == id) db.assignments)
