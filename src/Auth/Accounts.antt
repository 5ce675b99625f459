-- ===== src/Auth/Accounts.antt =====
-- Runs of the account operations of the two services, and the keys of the users table.
use res_q_server.User.{
  CreateUserInput, UpdateUserInput, activate_user, apply_user_update, check_email, create_user,
  deactivate_user, insert_user, new_user, reject_known, update_user, write_user, set_user_status,
}
use res_q_server.Auth.{RegisterInput, UpdateProfileInput, apply_profile, register, update_me}
use res_q_server.Common.{
  >>=-ok, Text, app, count_if, nat_eq, not_found, ok, or_throw, text_eq, ℕ, ◌==◌, ◌≡◌, List,
  bad_request, guard, none, not, refl,
}
use res_q_server.Db.Rows.{
  Db, Role, User, assignment_status_eq, hospital_status_eq, incident_status_eq, level_eq,
  resource_status_eq, role_eq, user_status_eq, UserStatus,
}
use res_q_server.Db.Tables.{
  assignment_row, find_unique, hospital_row, incident_row, outbox_row, resource_row, user_row,
  update_row,
}
use res_q_server.User.Emails.{HasUniqueKeys, insert_user-HasUniqueKeys, write_user-HasUniqueKeys}
use res_q_server.Reliability.CircuitBreaker.{run, step}

-- An account operation that succeeded: its checks read `seen`, and its writes meet the tables
-- before the step.
pub data AccountStep (hash : Text → Text) : Db → Db → Type 0 where
  created :
      (id : ℕ) (seen before : Db) (input : CreateUserInput) {u : User} {after : Db}
      → count_if (λ v. v.id == id) before.users ≡ 0
      → create_user hash id seen before input ≡ ok (u, after)
      → AccountStep hash before after
  registered :
      (id : ℕ) (seen before : Db) (input : RegisterInput) {u : User} {after : Db}
      → count_if (λ v. v.id == id) before.users ≡ 0
      → register hash id seen before input ≡ ok (u, after)
      → AccountStep hash before after
  updated :
      (seen before : Db) (id : ℕ) (input : UpdateUserInput) {after : Db}
      → update_user hash seen before id input ≡ ok after
      → AccountStep hash before after
  edited :
      (seen before : Db) (id : ℕ) (input : UpdateProfileInput) {after : Db}
      → update_me hash seen before id input ≡ ok after
      → AccountStep hash before after
  deactivated :
      (seen before : Db) (id : ℕ) {after : Db}
      → deactivate_user seen before id ≡ ok after
      → AccountStep hash before after
  activated :
      (seen before : Db) (id : ℕ) {after : Db}
      → activate_user seen before id ≡ ok after
      → AccountStep hash before after

pub data AccountRun (hash : Text → Text) (start : Db) : Db → Type 0 where
  here : AccountRun hash start start
  next :
      {before after : Db}
      → AccountRun hash start before
      → AccountStep hash before after
      → AccountRun hash start after

created-inserts :
    (hash : Text → Text) (id : ℕ) (seen met : Db) (input : CreateUserInput) {u : User} {after : Db}
    → create_user hash id seen met input ≡ ok (u, after)
    → insert_user (new_user id input.name input.email (hash input.password) input.role) met.users
      ≡ ok after.users
unfolding create_user
created-inserts hash id seen met input e =
    let (checked, c, e1) = >>=-ok (reject_known input.email seen.users) _ e in
    let (users, inserted, e2) = >>=-ok (insert_user _ met.users) _ e1 in rw inserted (cc)

pub registered-inserts :
    (hash : Text → Text) (id : ℕ) (seen met : Db) (input : RegisterInput) {u : User} {after : Db}
    → register hash id seen met input ≡ ok (u, after)
    → insert_user (new_user id input.name input.email (hash input.password) Role.citizen) met.users
      ≡ ok after.users
unfolding register
registered-inserts hash id seen met input e =
    let (checked, c, e1) = >>=-ok (reject_known input.email seen.users) _ e in
    let (users, inserted, e2) = >>=-ok (insert_user _ met.users) _ e1 in rw inserted (cc)

updated-writes :
    (hash : Text → Text) (seen met : Db) (id : ℕ) (input : UpdateUserInput) {after : Db}
    → update_user hash seen met id input ≡ ok after
    → write_user id input.email (apply_user_update hash input) met.users ≡ ok after.users
unfolding update_user
updated-writes hash seen met id input e =
    let (user, u, e1) = >>=-ok (or_throw (find_unique id seen.users) (app not_found)) _ e in
    let (checked, c, e2) = >>=-ok (check_email input.email user seen.users) _ e1 in
    let (users, written, e3) = >>=-ok (write_user id input.email _ met.users) _ e2 in
    rw written (cc)

pub edited-writes :
    (hash : Text → Text) (seen met : Db) (id : ℕ) (input : UpdateProfileInput) {after : Db}
    → update_me hash seen met id input ≡ ok after
    → write_user id input.email (apply_profile hash input) met.users ≡ ok after.users
unfolding update_me
edited-writes hash seen met id input e =
    let (user, u, e1) = >>=-ok (or_throw (find_unique id seen.users) (app not_found)) _ e in
    let (checked, c, e2) = >>=-ok (check_email input.email user seen.users) _ e1 in
    let (users, written, e3) = >>=-ok (write_user id input.email _ met.users) _ e2 in
    rw written (cc)

-- A write of the status alone writes no email.
status-writes :
    (status : UserStatus) (id : ℕ) (users : List User) {users' : List User}
    → update_row id (set_user_status status) users ≡ ok users'
    → write_user id none (set_user_status status) users ≡ ok users'
unfolding write_user
status-writes status id users e = rw e refl

deactivated-writes :
    (seen met : Db) (id : ℕ) {after : Db}
    → deactivate_user seen met id ≡ ok after
    → write_user id none (set_user_status UserStatus.inactive) met.users ≡ ok after.users
unfolding deactivate_user
deactivated-writes seen met id e =
    let (user, u, e1) = >>=-ok (or_throw (find_unique id seen.users) (app not_found)) _ e in
    let (checked, c, e2) = >>=-ok (guard (not (user.role == Role.admin)) (app bad_request)) _ e1 in
    let (users, written, e3) = >>=-ok (update_row id _ met.users) _ e2 in
    status-writes UserStatus.inactive id met.users (rw written (cc))

activated-writes :
    (seen met : Db) (id : ℕ) {after : Db}
    → activate_user seen met id ≡ ok after
    → write_user id none (set_user_status UserStatus.active) met.users ≡ ok after.users
unfolding activate_user
activated-writes seen met id e =
    let (user, u, e1) = >>=-ok (or_throw (find_unique id seen.users) (app not_found)) _ e in
    let (users, written, e2) = >>=-ok (update_row id _ met.users) _ e1 in
    status-writes UserStatus.active id met.users (rw written (cc))

step-HasUniqueKeys :
    {hash : Text → Text} {before after : Db}
    → AccountStep hash before after
    → HasUniqueKeys before.users
    → HasUniqueKeys after.users
step-HasUniqueKeys (created id seen before input fresh e) unique =
    insert_user-HasUniqueKeys _ before.users unique fresh (created-inserts _ id seen before input e)
step-HasUniqueKeys (registered id seen before input fresh e) unique =
    insert_user-HasUniqueKeys _ before.users unique fresh
      (registered-inserts _ id seen before input e)
step-HasUniqueKeys (updated seen before id input e) unique =
    write_user-HasUniqueKeys id input.email _ before.users unique (λ u. (refl, refl))
      (updated-writes _ seen before id input e)
step-HasUniqueKeys (edited seen before id input e) unique =
    write_user-HasUniqueKeys id input.email _ before.users unique (λ u. (refl, refl))
      (edited-writes _ seen before id input e)
step-HasUniqueKeys (deactivated seen before id e) unique =
    write_user-HasUniqueKeys id none _ before.users unique (λ u. (refl, refl))
      (deactivated-writes seen before id e)
step-HasUniqueKeys (activated seen before id e) unique =
    write_user-HasUniqueKeys id none _ before.users unique (λ u. (refl, refl))
      (activated-writes seen before id e)

-- No two accounts have one email or one id, after any sequence of successful calls of createUser,
-- register, updateUser, updateMe, deactivateUser and activateUser, whatever tables the checks of
-- each call read, if this holds at the start and every new account gets an id that no row has.
pub run-HasUniqueKeys :
    {hash : Text → Text} {start after : Db}
    → AccountRun hash start after
    → HasUniqueKeys start.users
    → HasUniqueKeys after.users
run-HasUniqueKeys here unique = unique
run-HasUniqueKeys (next run step) unique = step-HasUniqueKeys step (run-HasUniqueKeys run unique)
