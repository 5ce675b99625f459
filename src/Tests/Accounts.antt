-- ===== src/Tests/Accounts.antt =====
-- Accounts of the district: a registration, a login and its token.
use res_q_server.Auth.Accounts.{AccountRun, AccountStep, run-HasUniqueKeys}
use res_q_server.Routes.{Route, IncidentRoute}
use res_q_server.Auth.Roles.{SelfRun, Has, run-Has}
use res_q_server.Auth.{
  Bcrypt, Jwt, LoginResponse, RegisterInput, Verified, authenticate, bearer, first_word, login,
  register,
}
use res_q_server.Common.{
  Option, Text, [], ap, arith, codes, length, nat_eq, none, ok, refl, some, suc, text_eq, true,
  zero, ℕ, ◌++◌, ◌==◌, ◌∷◌, ◌≡◌, if◌then◌else◌, nat_beq,
}
use res_q_server.ErrorHandler.Emails.{Answers409, create_user-conflict}
use res_q_server.User.{CreateUserInput, create_user, find_by_email, to_safe_user, insert_user}
use res_q_server.User.Emails.{HasUniqueKeys, insert_user-HasUniqueKeys}
use res_q_server.Db.Tables.{
  assignment_row, find_unique, hospital_row, incident_row, outbox_row, resource_row, user_row,
}
use res_q_server.Auth.Tokens.{SignsTokens, login-authenticate, payload_of}
use res_q_server.Tests.Fixtures.{chief, citizen, district, root}
use res_q_server.Db.Rows.{
  Db, Role, User, UserStatus, assignment_status_eq, hospital_status_eq, incident_status_eq,
  level_eq, resource_status_eq, role_eq, user_status_eq,
}
use res_q_server.Access.{AuthUser}

-- A hash, and a comparison, for the tests.
abbrev bcrypt : Bcrypt
bcrypt = record { hash = λ t. codes "#" ++ t; compare = λ t h. (codes "#" ++ t) == h }

abbrev form : RegisterInput
form = record { name = codes "Ann"; email = codes "ann@resq.org"; password = codes "secret" }

abbrev ann : User
ann = record {
  id = 5;
  name = codes "Ann";
  email = codes "ann@resq.org";
  password = codes "#secret";
  role = Role.citizen;
  status = UserStatus.active;
}

abbrev joined : Db
joined = record district { users = ann ∷ citizen ∷ chief ∷ root ∷ [] }

registers_ann : register bcrypt.hash 5 district district form ≡ ok (ann, joined)
unfolding register
registers_ann = refl

empty-HasUniqueKeys : HasUniqueKeys []
empty-HasUniqueKeys = record { emails = λ email. omega arith; ids = λ id. omega arith }

district-HasUniqueKeys : HasUniqueKeys district.users
unfolding insert_user
district-HasUniqueKeys =
    let one = insert_user-HasUniqueKeys root [] empty-HasUniqueKeys refl refl in
    let two = insert_user-HasUniqueKeys chief (root ∷ []) one refl refl in
    insert_user-HasUniqueKeys citizen (chief ∷ root ∷ []) two refl refl

run-HasUniqueKeys_example : HasUniqueKeys joined.users
run-HasUniqueKeys_example =
    run-HasUniqueKeys
      (AccountRun.next AccountRun.here
        (AccountStep.registered 5 district district form refl registers_ann))
      district-HasUniqueKeys

-- Ann has only the rights of the root that was there before her.
run-Has_example : Has district.users 4 Role.admin UserStatus.active
unfolding find_unique
run-Has_example =
    run-Has 4 Role.admin UserStatus.active
      (SelfRun.registers 5 district district form SelfRun.here registers_ann) (λ e. absurd cc)
      (root, refl, refl, refl)

-- A token: the role, and the id in strokes.
abbrev strokes : ℕ → Text
strokes zero = []
strokes (suc n) = 49 ∷ strokes n

abbrev mark_of : Role → ℕ
mark_of Role.citizen = 67
mark_of Role.operator = 79
mark_of Role.coordinator = 82
mark_of Role.admin = 65

abbrev role_of : ℕ → Option Role
role_of c =
    if nat_beq c 67
    then some Role.citizen
    else if nat_beq c 79
    then some Role.operator
    else if nat_beq c 82
    then some Role.coordinator
    else if nat_beq c 65
    then some Role.admin
    else none

abbrev read_token : Text → Verified
read_token [] = Verified.invalid
read_token (c ∷ rest) = elim (role_of c) [
  | none ↦ Verified.invalid
  | some role ↦ Verified.decoded (record { user_id = length rest; role = role })
]

abbrev plain_jwt : Jwt
plain_jwt = record {
  sign = λ now user. mark_of user.role ∷ strokes user.user_id;
  verify = λ now token. read_token token;
  lifetime = 3600;
}

length-strokes : (n : ℕ) → length (strokes n) ≡ n
length-strokes zero = refl
length-strokes (suc n) = ground (arith, length-strokes n)

strokes_word : (n : ℕ) → first_word (strokes n) ≡ strokes n
strokes_word zero = refl
strokes_word (suc n) = ap (λ s. 49 ∷ s) (strokes_word n)

read-sign :
    (role : Role) (n : ℕ)
    → read_token (mark_of role ∷ strokes n) ≡ Verified.decoded (record { user_id = n; role = role })
read-sign Role.citizen n = rw (length-strokes n) refl
read-sign Role.operator n = rw (length-strokes n) refl
read-sign Role.coordinator n = rw (length-strokes n) refl
read-sign Role.admin n = rw (length-strokes n) refl

mark_word : (role : Role) (n : ℕ) → first_word (mark_of role ∷ strokes n) ≡ mark_of role ∷ strokes n
mark_word Role.citizen n = ap (λ s. 67 ∷ s) (strokes_word n)
mark_word Role.operator n = ap (λ s. 79 ∷ s) (strokes_word n)
mark_word Role.coordinator n = ap (λ s. 82 ∷ s) (strokes_word n)
mark_word Role.admin n = ap (λ s. 65 ∷ s) (strokes_word n)

plain_jwt-SignsTokens : SignsTokens plain_jwt
plain_jwt-SignsTokens = record {
  decodes = λ now later user h. read-sign user.role user.user_id;
  is_word = λ now user. mark_word user.role user.user_id;
  is_text = λ now user e. absurd (ground arith);
}

abbrev response : LoginResponse
response = record { token = mark_of Role.citizen ∷ strokes 5; user = to_safe_user ann }

ann_logs_in :
    login bcrypt plain_jwt true 1000 (codes "ann@resq.org") (codes "secret") joined ≡ ok response
unfolding login
ann_logs_in = refl

login-authenticate_example :
    (u : User) × (find_by_email (codes "ann@resq.org") joined.users ≡ some u)
    × (bcrypt.compare (codes "secret") u.password ≡ true)
    × (u.status ≡ UserStatus.active)
    × (to_safe_user ann ≡ to_safe_user u)
    × (authenticate plain_jwt true 2000 (some (bearer ++ response.token)) ≡ ok (payload_of u))
login-authenticate_example =
    login-authenticate bcrypt plain_jwt 1000 2000 (codes "ann@resq.org") (codes "secret") joined
      plain_jwt-SignsTokens (omega arith) ann_logs_in

abbrev new_clerk : CreateUserInput
new_clerk = record {
  name = codes "Clerk";
  email = codes "ann@resq.org";
  password = codes "other";
  role = Role.coordinator;
}

-- Both calls meet Ann's row, which came after their own look.
create_user-conflict_example :
    Answers409 (create_user bcrypt.hash 6 district joined new_clerk)
    × Answers409 (register bcrypt.hash 6 district joined form)
create_user-conflict_example =
    create_user-conflict bcrypt.hash 6 district joined new_clerk form refl refl

-- The citizen opens the own report of the fire.
abbrev citizen_header : Option Text
citizen_header = some (bearer ++ (mark_of Role.citizen ∷ strokes 1))

abbrev reporter : AuthUser
reporter = record { user_id = 1; role = Role.citizen }

abbrev open_incident : Route
open_incident = Route.incidents IncidentRoute.get_incident
