-- ===== src/Auth/Roles.antt =====
-- Roles and statuses along the account operations.
use mathlib.Core.Option
use mathlib.Core.Path.{subst}
use res_q_server.Db.Rows.{
  Db, Role, User, UserStatus, assignment_status_eq, hospital_status_eq, incident_status_eq,
  level_eq, resource_status_eq, role_eq, user_status_eq,
}
use res_q_server.Common.{
  Option, >>=-ok, List, Text, any, email_index, guard, nat_eq, not, ok, refl, some, text_eq,
  unique_violation, ℕ, ◌∷◌, ◌≡◌, ◌≢◌, Bool, Bool-cases, ap, app, bad_request, err, false,
  if◌then◌else◌, inl, inr, nat_beq, nat_beq_iff, none, sym, true, ◌∙◌, arith,
}
use res_q_server.User.{
  has_email, insert_user, new_user, UpdateUserInput, apply_user_update, deactivate_user,
  set_user_status, update_user, write_user,
}
use res_q_server.Db.Tables.{
  assignment_row, find_unique, find_unique-set_row, hospital_row, incident_row, outbox_row,
  resource_row, user_row, set_row, update_row,
}
use res_q_server.Reliability.CircuitBreaker.{run}
use res_q_server.User.Emails.{write_user-ok}
use res_q_server.Auth.Accounts.{edited-writes, registered-inserts}
use res_q_server.Auth.{RegisterInput, UpdateProfileInput, apply_profile, register, update_me}

-- The calls that need no ADMIN: register and updateMe.
pub data SelfRun (hash : Text → Text) (start : Db) : Db → Type 0 where
  here : SelfRun hash start start
  registers :
      (id : ℕ) (seen before : Db) (input : RegisterInput) {u : User} {after : Db}
      → SelfRun hash start before
      → register hash id seen before input ≡ ok (u, after)
      → SelfRun hash start after
  edits :
      (seen before : Db) (id : ℕ) (input : UpdateProfileInput) {after : Db}
      → SelfRun hash start before
      → update_me hash seen before id input ≡ ok after
      → SelfRun hash start after

-- A user of these users has the id, the role and the status.
abbrev pub Has : List User → ℕ → Role → UserStatus → Type 0
Has users id role status =
    (u : User) × (find_unique id users ≡ some u) × (u.role ≡ role) × (u.status ≡ status)

register-adds :
    (hash : Text → Text) (id : ℕ) (seen met : Db) (input : RegisterInput) {u : User} {after : Db}
    → register hash id seen met input ≡ ok (u, after)
    → (v : User) × (v.role ≡ Role.citizen) × (after.users ≡ v ∷ met.users)
unfolding insert_user
register-adds hash id seen met input {u} {after} e =
    let v = new_user id input.name input.email (hash input.password) Role.citizen in
    let (passed, g, e1) =
      >>=-ok (guard (not (any (has_email v.email) met.users)) (unique_violation email_index)) _
        (registered-inserts hash id seen met input e) in
    (v, refl, cc)

-- An edit of the profile takes its row from one with the same role and status.
edited-from :
    (f : User → User) (b : Bool) (o : Option User) (u : User)
    → ((v : User) → ((f v).role ≡ v.role) × ((f v).status ≡ v.status))
    → (if b then Option.map f o else o) ≡ some u
    → (v : User) × (o ≡ some v) × (v.role ≡ u.role) × (v.status ≡ u.status)
edited-from f true none u keeps e = cc
edited-from f false none u keeps e = cc
edited-from f true (some v) u keeps e =
    let same : f v ≡ u = cc in
    (v, refl, sym (keeps v).0 ∙ ap (λ w. w.role) same, sym (keeps v).1 ∙ ap (λ w. w.status) same)
edited-from f false (some v) u keeps e =
    let same : v ≡ u = cc in (v, refl, ap (λ w. w.role) same, ap (λ w. w.status) same)

edit-keeps :
    (hash : Text → Text) (seen met : Db) (id : ℕ) (input : UpdateProfileInput) {after : Db}
    → update_me hash seen met id input ≡ ok after
    → (k : ℕ) (role : Role) (status : UserStatus) → Has after.users k role status
    → Has met.users k role status
edit-keeps hash seen met id input e k role status (u, found, r, s) =
    let (written, free) =
      write_user-ok id input.email (apply_profile hash input) met.users
        (edited-writes hash seen met id input e) in
    let there = find_unique-set_row id k (apply_profile hash input) met.users (λ v. refl) in
    let (v, before, r', s') =
      edited-from (apply_profile hash input) (nat_beq id k) (find_unique k met.users) u
        (λ w. (refl, refl)) (sym there ∙ ap (find_unique k) (sym written) ∙ found) in
    (v, before, r' ∙ r, s' ∙ s)

-- A user of the longer list is the new one or was there.
Has-cons :
    (v : User) (users : List User) (k : ℕ) (role : Role) (status : UserStatus)
    → v.role ≡ Role.citizen
    → role ≢ Role.citizen
    → Has (v ∷ users) k role status
    → Has users k role status
unfolding find_unique
Has-cons v users k role status citizen other (u, found, r, s) = elim (Bool-cases (nat_beq v.id k)) [
  | inl new ↦
      let same : some v ≡ some u = rw new at found in
      let same' : v ≡ u = cc in absurd (other (sym r ∙ ap (λ w. w.role) (sym same') ∙ citizen))
  | inr old ↦ (u, rw old at found, r, s)
]

-- Self-service grants no rights: after any sequence of successful calls of register and updateMe,
-- whatever tables their checks read, an account with another role than CITIZEN was there at the
-- start, with the same role and the same status.
pub run-Has :
    {hash : Text → Text} {start after : Db} (k : ℕ) (role : Role) (status : UserStatus)
    → SelfRun hash start after
    → role ≢ Role.citizen
    → Has after.users k role status
    → Has start.users k role status
run-Has k role status here other has = has
run-Has k role status (registers id seen before input run e) other has =
    let (v, citizen, added) = register-adds _ id seen before input e in
    run-Has k role status run other (
      Has-cons v before.users k role status citizen other
        (subst (λ users. Has users k role status) added has))
run-Has k role status (edits seen before id input run e) other has =
    run-Has k role status run other (edit-keeps _ seen before id input e k role status has)

abbrev pub only_status : UserStatus → UpdateUserInput
only_status status = record {
  name = none;
  email = none;
  password = none;
  role = none;
  status = some status;
}

write_user_listed :
    (id : ℕ) (f : User → User) (users : List User) (u : User)
    → find_unique id users ≡ some u
    → write_user id none f users ≡ ok (set_row id f users)
unfolding write_user update_row
write_user_listed id f users u found = ground arith

-- deactivateUser refuses to deactivate a listed ADMIN, with 400, but updateUser, which the same
-- callers may call, deactivates the account: with no other write in between it succeeds and writes
-- INACTIVE.
pub deactivate_user-update_user :
    (hash : Text → Text) (db : Db) (id : ℕ) (u : User)
    → find_unique id db.users ≡ some u
    → u.role ≡ Role.admin
    → (deactivate_user db db id ≡ err (app bad_request))
      × ((after : Db) × (update_user hash db db id (only_status UserStatus.inactive) ≡ ok after)
          × (find_unique id after.users ≡ some (set_user_status UserStatus.inactive u)))
unfolding deactivate_user update_user
deactivate_user-update_user hash db id u found admin = (
  rw (found, admin) refl,
  (
    record db {
      users = set_row id (apply_user_update hash (only_status UserStatus.inactive)) db.users;
    },
    rw (found, write_user_listed id _ db.users u found) refl,
    find_unique-set_row id id _ db.users (λ v. refl) ∙ rw ((nat_beq_iff id id).1 refl, found) refl,
  ),
)
