-- ===== src/User.antt =====
-- src/modules/user/user.service.ts. The hash of a password is an argument: bcryptjs makes it.
use mathlib.Core.Option
use res_q_server.Common.{
  Option, Bool, List, Result, Text, [], any, app, bad_request, conflict, email_index, err, false,
  filter, find, guard, if◌then◌else◌, map, nat_eq, none, not, not_found, ok, or_throw, some,
  text_eq, unique_violation, ℕ, ◌&&◌, ◌==◌, ◌>>=◌, ◌>>◌, ◌∷◌,
}
use res_q_server.Db.Rows.{
  Db, Role, User, UserStatus, assignment_status_eq, hospital_status_eq, incident_status_eq,
  level_eq, resource_status_eq, role_eq, user_status_eq,
}
use res_q_server.Pagination.{PaginatedResult, PaginationParams, matches, paginate}
use res_q_server.Db.Tables.{
  assignment_row, find_unique, hospital_row, incident_row, outbox_row, resource_row, update_row,
  user_row,
}
use res_q_server.Incident.Defs.{default}
pub mod Emails

pub record CreateUserInput : Type 0 where
  pub name : Text
  pub email : Text
  pub password : Text
  pub role : Role

pub record UpdateUserInput : Type 0 where
  pub name : Option Text
  pub email : Option Text
  pub password : Option Text
  pub role : Option Role
  pub status : Option UserStatus

-- where: { email }
abbrev pub has_email : Text → User → Bool
has_email email u = u.email == email

unfoldable pub find_by_email : Text → List User → Option User
find_by_email email users = find (has_email email) users

-- The INSERT under the unique index of the emails.
unfoldable pub insert_user : User → List User → Result (List User)
insert_user u users = do
  guard (not (any (has_email u.email) users)) (unique_violation email_index)
  ok (u ∷ users)

-- Another row has the email that the update writes.
abbrev pub is_taken_by_other : ℕ → Option Text → List User → Bool
is_taken_by_other id none users = false
is_taken_by_other id (some email) users = any (λ u. u.email == email && not (u.id == id)) users

-- user.update({ where: { id }, data }), P2002 where the email is taken, P2025 where no row is there
unfoldable pub write_user :
    ℕ → (email : Option Text) → (User → User) → List User → Result (List User)
unfolding update_row
write_user id email f users = do
  users' ← update_row id f users
  guard (not (is_taken_by_other id email users)) (unique_violation email_index)
  ok users'

-- The guard against duplicate emails.
abbrev pub reject_known : Text → List User → Result (Unit {0})
reject_known email users = elim (find_by_email email users) [
  | none ↦ ok tt
  | some existing ↦ err (app conflict)
]

abbrev pub new_user : ℕ → (name email password : Text) → Role → User
new_user id name email password role = record {
  id = id;
  name = name;
  email = email;
  password = password;
  role = role;
  status = UserStatus.active;
}

-- createUser
unfoldable pub create_user :
    (hash : Text → Text) (id : ℕ) (seen met : Db) → CreateUserInput → Result (User × Db)
unfolding find_by_email insert_user
create_user hash id seen met input = do
  reject_known input.email seen.users
  let user = new_user id input.name input.email (hash input.password) input.role
  users ← insert_user user met.users
  ok (user, record met { users = users })

-- `if (input.email && input.email !== user.email)`
abbrev pub check_email : Option Text → User → List User → Result (Unit {0})
check_email none user users = ok tt
check_email (some []) user users = ok tt
check_email (some (c ∷ cs)) user users =
    if (c ∷ cs) == user.email then ok tt else reject_known (c ∷ cs) users

abbrev pub apply_user_update : (hash : Text → Text) → UpdateUserInput → User → User
apply_user_update hash input u = record u {
  name = default input.name u.name;
  email = default input.email u.email;
  role = default input.role u.role;
  status = default input.status u.status;
  password = default (Option.map hash input.password) u.password;
}

-- updateUser
unfoldable pub update_user : (hash : Text → Text) (seen met : Db) → ℕ → UpdateUserInput → Result Db
unfolding find_by_email write_user
update_user hash seen met id input = do
  user ← or_throw (find_unique id seen.users) (app not_found)
  check_email input.email user seen.users
  users ← write_user id input.email (apply_user_update hash input) met.users
  ok (record met { users = users })

abbrev pub set_user_status : UserStatus → User → User
set_user_status status u = record u { status = status }

-- deactivateUser
unfoldable pub deactivate_user : (seen met : Db) → ℕ → Result Db
unfolding update_row
deactivate_user seen met id = do
  user ← or_throw (find_unique id seen.users) (app not_found)
  guard (not (user.role == Role.admin)) (app bad_request)
  users ← update_row id (set_user_status UserStatus.inactive) met.users
  ok (record met { users = users })

-- activateUser
unfoldable pub activate_user : (seen met : Db) → ℕ → Result Db
unfolding update_row
activate_user seen met id = do
  user ← or_throw (find_unique id seen.users) (app not_found)
  users ← update_row id (set_user_status UserStatus.active) met.users
  ok (record met { users = users })

-- SafeUser: a user without the password's hash
pub record SafeUser : Type 0 where
  pub id : ℕ
  pub name : Text
  pub email : Text
  pub role : Role
  pub status : UserStatus

-- toSafeUser
abbrev pub to_safe_user : User → SafeUser
to_safe_user u = record {
  id = u.id;
  name = u.name;
  email = u.email;
  role = u.role;
  status = u.status;
}

pub record UserFilters : Type 0 where
  pub role : Option Role
  pub status : Option UserStatus

-- getUsers, newest first as `orderBy` asks
unfoldable pub get_users : Db → UserFilters → PaginationParams → PaginatedResult SafeUser
unfolding paginate
get_users db filters pagination = paginate pagination (
    map to_safe_user (
      filter (λ (u : User). matches filters.role u.role && matches filters.status u.status)
        db.users))

-- getUserById
unfoldable pub get_user_by_id : Db → ℕ → Result SafeUser
get_user_by_id db id = do
  user ← or_throw (find_unique id db.users) (app not_found)
  ok (to_safe_user user)
