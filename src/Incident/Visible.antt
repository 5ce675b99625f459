-- ===== src/Incident/Visible.antt =====
-- The guard of one incident and the listing of incidents.
use res_q_server.Common.{
  All, All-mono, Bool, List, Option, Result, [], ap, app, arith, false, filter, filter-congr, find,
  forbidden, includes, is_ok, is_ok-guard, map, nat_eq, none, ok, or_throw, refl, some, sym,
  text_eq, ℕ, ◌&&◌, ◌==◌, ◌>>=◌, ◌∷◌, ◌≡◌,
}
use res_q_server.Db.Rows.{
  Assignment, AssignmentStatus, Db, Incident, Role, assignment_status_eq, hospital_status_eq,
  incident_status_eq, level_eq, resource_status_eq, role_eq, user_status_eq,
}
use res_q_server.Incident.Reads.{IncidentFilters, get_incidents, visible_incident}
use res_q_server.Pagination.{PaginationParams, paginate}
use res_q_server.Access.{AuthUser, incident_access, operates, require_incident_access}
use res_q_server.Assignment.Defs.{is_active_for}
use res_q_server.Db.Tables.{
  assignment_row, find_unique, hospital_row, incident_row, outbox_row, resource_row, user_row,
}

abbrev pub no_incident_filters : IncidentFilters
no_incident_filters = record { status = none; severity = none }

-- Every row is the one that its id finds.
abbrev pub IncidentsHaveUniqueIds : Db → Type 0
IncidentsHaveUniqueIds db = All (λ i. find_unique i.id db.incidents ≡ some i) db.incidents

abbrev pub found_one : {A : Type 0} → Option A → Result (Unit {0})
found_one o = do a ← or_throw o (app forbidden); ok tt

-- An id is among those of the ACTIVE assignments of an operator exactly if a search for one finds
-- it.
includes-served :
    (serves : Assignment → Bool) (k : ℕ) (rows : List Assignment)
    → includes
        (map
          (λ (a : Assignment). a.incident_id)
          (filter (λ a. a.status == AssignmentStatus.active && serves a) rows))
        k
      ≡ is_ok (found_one (find (λ a. is_active_for k a && serves a) rows))
includes-served serves k [] = refl
includes-served serves k (a ∷ rows) = ground (arith, includes-served serves k rows)

access-visible :
    (db : Db) (role : Role) (user_id : ℕ) (i : Incident)
    → find_unique i.id db.incidents ≡ some i
    → visible_incident db role user_id i ≡ is_ok (incident_access db (some i.id) user_id role)
unfolding incident_access visible_incident
access-visible db Role.admin user_id i e = refl
access-visible db Role.coordinator user_id i e = refl
access-visible db Role.operator user_id i e =
    rw e (includes-served (operates db user_id) i.id db.assignments)
access-visible db Role.citizen user_id i e =
    rw e (sym (is_ok-guard (i.created_by_id == user_id) (app forbidden)))

-- Every page of the listing of incidents without filters, not sorted by priority, is cut from
-- exactly those incidents that requireIncidentAccess lets the user open one by one, whatever order
-- the database puts them in, if ids are unique.
pub get_incidents-Opens :
    (order : Bool → List Incident → List Incident) (db : Db) (user : AuthUser)
    (p : PaginationParams)
    → IncidentsHaveUniqueIds db
    → get_incidents order db no_incident_filters false (some p) (some user)
      ≡ paginate p (
          order false
            (filter (λ i. is_ok (require_incident_access db (some i.id) (some user))) db.incidents))
unfolding get_incidents require_incident_access
get_incidents-Opens order db user p unique =
    ap (λ rows. paginate p (order false rows))
      (filter-congr _ _ db.incidents
        (All-mono _ _ db.incidents (λ i e. access-visible db user.role user.user_id i e) unique))
