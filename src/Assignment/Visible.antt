-- ===== src/Assignment/Visible.antt =====
-- The guard of one assignment and the listing of assignments.
use res_q_server.Common.{
  List, app, forbidden, nat_eq, none, refl, some, text_eq, ℕ, ◌≡◌, All, All-mono, filter,
  filter-congr, is_ok, is_ok-guard, sym, ap,
}
use res_q_server.Db.Rows.{
  Assignment, Db, Role, assignment_status_eq, hospital_status_eq, incident_status_eq, level_eq,
  resource_status_eq, role_eq, user_status_eq,
}
use res_q_server.Access.{AuthUser, assignment_access, operates, reported, require_assignment_access}
use res_q_server.Assignment.Reads.{AssignmentFilters, Listing, visible_assignment, get_assignments}
use res_q_server.Db.Tables.{
  assignment_row, find_unique, hospital_row, incident_row, outbox_row, resource_row, user_row,
}
use res_q_server.Pagination.{PaginationParams, paginate}

abbrev pub no_filters : AssignmentFilters
no_filters = record { incident_id = none; resource_id = none; status = none }

-- Every row is the one that its id finds.
abbrev pub HasUniqueIds : Db → Type 0
HasUniqueIds db = All (λ a. find_unique a.id db.assignments ≡ some a) db.assignments

access-visible :
    (db : Db) (role : Role) (user_id : ℕ) (a : Assignment)
    → find_unique a.id db.assignments ≡ some a
    → visible_assignment db role user_id a ≡ is_ok (assignment_access db (some a.id) user_id role)
unfolding assignment_access
access-visible db Role.admin user_id a e = refl
access-visible db Role.coordinator user_id a e = refl
access-visible db Role.operator user_id a e =
    rw e (sym (is_ok-guard (operates db user_id a) (app forbidden)))
access-visible db Role.citizen user_id a e =
    rw e (sym (is_ok-guard (reported db user_id a) (app forbidden)))

-- The rows that requireAssignmentAccess lets the user open one by one.
abbrev pub opened : Db → AuthUser → List Assignment
opened db user =
    filter (λ a. is_ok (require_assignment_access db (some a.id) (some user))) db.assignments

-- The listing of assignments without filters shows a user exactly those assignments, in the same
-- order, that requireAssignmentAccess lets the user open one by one, if ids are unique: all of them
-- where no page is asked for, and the page of them, with their total, where one is.
pub get_assignments-Opens :
    (db : Db) (user : AuthUser) (p : PaginationParams)
    → HasUniqueIds db
    → (get_assignments db no_filters (some p) (some user)
        ≡ Listing.page (paginate p (opened db user)))
      × (get_assignments db no_filters none (some user) ≡ Listing.rows (opened db user))
unfolding get_assignments require_assignment_access
get_assignments-Opens db user p unique =
    let same =
      filter-congr _ _ db.assignments (
        All-mono _ _ db.assignments (λ a e. access-visible db user.role user.user_id a e) unique) in
    (ap (λ rows. Listing.page (paginate p rows)) same, ap Listing.rows same)
