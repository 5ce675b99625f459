-- ===== src/Assignment/Reads.antt =====
-- src/modules/assignment/assignment.service.ts: the reads. Rows stand newest first, as `orderBy`
-- asks.
use res_q_server.Common.{
  Bool, List, Option, Result, app, filter, nat_eq, none, not_found, or_throw, some, text_eq, true,
  ℕ, ◌&&◌,
}
use res_q_server.Db.Rows.{
  Assignment, AssignmentStatus, Db, Role, assignment_status_eq, hospital_status_eq,
  incident_status_eq, level_eq, resource_status_eq, role_eq, user_status_eq,
}
use res_q_server.Access.{AuthUser, operates, reported}
use res_q_server.Db.Tables.{
  assignment_row, find_unique, hospital_row, incident_row, outbox_row, resource_row, user_row,
}
use res_q_server.Pagination.{PaginatedResult, PaginationParams, matches, paginate}

pub record AssignmentFilters : Type 0 where
  pub incident_id : Option ℕ
  pub resource_id : Option ℕ
  pub status : Option AssignmentStatus

unfoldable pub get_assignment_by_id : Db → ℕ → Result Assignment
get_assignment_by_id db id = or_throw (find_unique id db.assignments) (app not_found)

-- The part of the filter that depends on the role.
abbrev pub visible_assignment : Db → Role → ℕ → Assignment → Bool
visible_assignment db Role.operator user_id a = operates db user_id a
visible_assignment db Role.citizen user_id a = reported db user_id a
visible_assignment db _ user_id a = true

abbrev visible_to : Db → Option AuthUser → Assignment → Bool
visible_to db none a = true
visible_to db (some user) a = visible_assignment db user.role user.user_id a

unfoldable pub where_assignments : Db → AssignmentFilters → Option AuthUser → Assignment → Bool
where_assignments db filters user a =
    matches filters.incident_id a.incident_id
    && matches filters.resource_id a.resource_id
    && matches filters.status a.status
    && visible_to db user a

-- Without a page, all rows.
pub data Listing (A : Type 0) : Type 0 where
  page : PaginatedResult A → Listing A
  rows : List A → Listing A

unfoldable pub get_assignments :
    Db → AssignmentFilters → Option PaginationParams → Option AuthUser → Listing Assignment
unfolding where_assignments paginate
get_assignments db filters none user =
    Listing.rows (filter (where_assignments db filters user) db.assignments)
get_assignments db filters (some pagination) user =
    Listing.page (paginate pagination (filter (where_assignments db filters user) db.assignments))
