-- ===== src/Tests/Access.antt =====
-- What the users of the district are shown.
use res_q_server.Audit.Scope.{IsAllowed, get_audit_logs-IsAllowed}
use res_q_server.Incident.Visible.{no_incident_filters, get_incidents-Opens, IncidentsHaveUniqueIds}
use res_q_server.Assignment.Visible.{no_filters, opened, get_assignments-Opens, HasUniqueIds}
use res_q_server.Pagination.Pages.{follow_pages, follow_pages-paginate}
use res_q_server.Access.{AuthUser, require_incident_access}
use res_q_server.Common.{
  All, Bool, is_ok, max, List, Text, [], arith, codes, false, filter, nat_eq, none, refl, some,
  text_eq, ◌∷◌, ◌≡◌, ok, ℕ,
}
use res_q_server.Db.Rows.{
  AuditLog, Db, Incident, ResourceStatus, Role, assignment_status_eq, hospital_status_eq,
  incident_status_eq, level_eq, resource_status_eq, role_eq, user_status_eq,
}
use res_q_server.Tests.Fixtures.{deployed, dispatched, district, far_truck, truck}
use res_q_server.Db.Tables.{
  assignment_row, find_unique, hospital_row, incident_row, outbox_row, resource_row, user_row,
}
use res_q_server.Incident.Reads.{get_incidents}
use res_q_server.Assignment.Reads.{get_assignments, Listing}
use res_q_server.Assignment.Defs.{set_resource_status}
use res_q_server.Audit.{AuditFilters, get_audit_logs}
use res_q_server.Pagination.{PaginationParams, paginate, PaginatedResult}

abbrev first_page : PaginationParams
first_page = record { page = 1; limit = 20 }

abbrev crew : AuthUser
crew = record { user_id = 3; role = Role.operator }

-- The truck is operated by user 3.
abbrev staffed : Db
staffed = record deployed {
  resources =
      record (set_resource_status ResourceStatus.busy truck) { operator_id = some 3 }
      ∷ far_truck
      ∷ [];
}

staffed_unique : HasUniqueIds staffed
unfolding find_unique
staffed_unique = (refl, tt)

get_assignments-Opens_example :
    (get_assignments staffed no_filters (some first_page) (some crew)
      ≡ Listing.page (paginate first_page (opened staffed crew)))
    × (get_assignments staffed no_filters none (some crew) ≡ Listing.rows (opened staffed crew))
get_assignments-Opens_example = get_assignments-Opens staffed crew first_page staffed_unique

crew_sees : get_assignments staffed no_filters none (some crew) ≡ Listing.rows (dispatched ∷ [])
unfolding get_assignments find_unique
crew_sees = refl

incidents_unique : IncidentsHaveUniqueIds staffed
unfolding find_unique
incidents_unique = (refl, (refl, tt))

abbrev newest_first : Bool → List Incident → List Incident
newest_first oldest_first rows = rows

get_incidents-Opens_example :
    get_incidents newest_first staffed no_incident_filters false (some first_page) (some crew)
    ≡ paginate first_page (
        filter
          (λ i. is_ok (require_incident_access staffed (some i.id) (some crew)))
          staffed.incidents)
get_incidents-Opens_example =
    get_incidents-Opens newest_first staffed crew first_page incidents_unique

abbrev numbers : List ℕ
numbers = 5 ∷ 6 ∷ 7 ∷ []

follow_pages-paginate_example :
    follow_pages
      (max 1 (paginate (record { page = 1; limit = 2 }) numbers).pagination.total_pages)
      1
      2
      numbers
    ≡ some numbers
follow_pages-paginate_example = follow_pages-paginate 2 numbers (omega arith)

abbrev log_of : Text → AuditLog
log_of entity = record { actor_id = 4; action = codes "UPDATE"; entity = entity; entity_id = none }

abbrev logged : Db
logged = record district { audit_logs = log_of (codes "USER") ∷ log_of (codes "INCIDENT") ∷ [] }

abbrev anything : AuditFilters
anything = record { actor_id = none; entity = none; entity_id = none }

-- What the coordinator gets: of the two logs, the one on an incident.
abbrev shown : PaginatedResult AuditLog
shown = paginate first_page (log_of (codes "INCIDENT") ∷ [])

coordinator_asks : get_audit_logs logged Role.coordinator anything first_page ≡ ok shown
unfolding get_audit_logs paginate
coordinator_asks = refl

get_audit_logs-IsAllowed_example : All IsAllowed shown.items
get_audit_logs-IsAllowed_example =
    get_audit_logs-IsAllowed logged anything first_page coordinator_asks
