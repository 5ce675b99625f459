-- ===== src/Auth.antt =====
-- src/auth/auth.service.ts, src/middlewares/auth.ts and src/utils/jwt.ts. The libraries bcryptjs and
-- jsonwebtoken are arguments, as records of the calls that the program makes.
use mathlib.Core.Option
use res_q_server.Common.{
  Option, Bool, List, Result, Text, [], app, codes, err, forbidden, guard, if◌then◌else◌, nat_beq,
  nat_eq, none, not, not_found, ok, or_throw, some, text_eq, unauthorized, ℕ, ◌==◌, ◌>>=◌, ◌>>◌,
  ◌∷◌,
}
use res_q_server.Db.Rows.{
  Db, Role, User, UserStatus, assignment_status_eq, hospital_status_eq, incident_status_eq,
  level_eq, resource_status_eq, role_eq, user_status_eq,
}
use res_q_server.Db.Tables.{
  assignment_row, find_unique, hospital_row, incident_row, outbox_row, resource_row, user_row,
}
use res_q_server.User.{
  SafeUser, check_email, find_by_email, insert_user, new_user, reject_known, to_safe_user,
  write_user,
}
use res_q_server.Access.{AuthUser}
use res_q_server.Incident.Defs.{default}
pub mod Tokens
pub mod Accounts
pub mod Roles

-- bcrypt.hash and bcrypt.compare
pub record Bcrypt : Type 0 where
  pub hash : Text → Text
  pub compare : Text → Text → Bool

-- What jwt.verify comes to.
pub data Verified : Type 0 where
  decoded : AuthUser → Verified
  expired : Verified
  invalid : Verified

-- jwt.sign and jwt.verify, with the configured secret and life time, at a time
pub record Jwt : Type 0 where
  pub sign : (now : ℕ) → AuthUser → Text
  pub verify : (now : ℕ) → Text → Verified
  pub lifetime : ℕ

-- signToken; without a secret it throws.
abbrev pub sign_token : Jwt → (has_secret : Bool) (now : ℕ) → AuthUser → Result Text
sign_token jwt has_secret now payload = do guard has_secret (app 500); ok (jwt.sign now payload)

abbrev pub read_verified : Verified → Result AuthUser
read_verified (Verified.decoded user) = ok user
read_verified Verified.expired = err (app unauthorized)
read_verified Verified.invalid = err (app unauthorized)

-- verifyToken
unfoldable pub verify_token : Jwt → (has_secret : Bool) (now : ℕ) → Text → Result AuthUser
verify_token jwt has_secret now token = do
  guard has_secret (app 500)
  read_verified (jwt.verify now token)

-- The text up to the first space.
abbrev pub first_word : Text → Text
first_word [] = []
first_word (c ∷ s) = let rest = first_word s in if nat_beq c 32 then [] else c ∷ rest

-- What follows a prefix, where it stands.
abbrev pub strip_prefix : Text → Text → Option Text
strip_prefix [] s = some s
strip_prefix (c ∷ cs) [] = none
strip_prefix (c ∷ cs) (a ∷ s) = if nat_beq a c then strip_prefix cs s else none

abbrev pub bearer : Text
bearer = codes "Bearer "

abbrev pub check_token : Text → Result Text
check_token [] = err (app unauthorized)
check_token (c ∷ s) = ok (c ∷ s)

-- authenticate: what it sets `req.user` to. `split(' ')[1]` is the word after the prefix.
unfoldable pub authenticate :
    Jwt → (has_secret : Bool) (now : ℕ) → (header : Option Text) → Result AuthUser
unfolding verify_token
authenticate jwt has_secret now header = do
  value ← or_throw header (app unauthorized)
  rest ← or_throw (strip_prefix bearer value) (app unauthorized)
  token ← check_token (first_word rest)
  verify_token jwt has_secret now token

pub record RegisterInput : Type 0 where
  pub name : Text
  pub email : Text
  pub password : Text

-- register: the new account is always a CITIZEN's.
unfoldable pub register :
    (hash : Text → Text) (id : ℕ) (seen met : Db) → RegisterInput → Result (User × Db)
unfolding find_by_email insert_user
register hash id seen met input = do
  reject_known input.email seen.users
  let user = new_user id input.name input.email (hash input.password) Role.citizen
  users ← insert_user user met.users
  ok (user, record met { users = users })

-- The user whose email and password these are. Where no user has the email, a stand-in is compared,
-- for the time that it takes, and its result is not used.
unfoldable pub check_credentials : Bcrypt → (email password : Text) → List User → Result User
unfolding find_by_email
check_credentials bcrypt email password users = elim (find_by_email email users) [
  | none ↦ err (app unauthorized)
  | some user ↦ do guard (bcrypt.compare password user.password) (app unauthorized); ok user
]

pub record LoginResponse : Type 0 where
  pub token : Text
  pub user : SafeUser

-- login
unfoldable pub login :
    Bcrypt → Jwt → (has_secret : Bool) (now : ℕ) (email password : Text) → Db → Result LoginResponse
unfolding check_credentials
login bcrypt jwt has_secret now email password db = do
  user ← check_credentials bcrypt email password db.users
  guard (not (user.status == UserStatus.inactive)) (app forbidden)
  token ← sign_token jwt has_secret now (record { user_id = user.id; role = user.role })
  ok (record { token = token; user = to_safe_user user })

-- getMe
unfoldable pub get_me : Db → ℕ → Result SafeUser
get_me db user_id = do
  user ← or_throw (find_unique user_id db.users) (app not_found)
  ok (to_safe_user user)

pub record UpdateProfileInput : Type 0 where
  pub name : Option Text
  pub email : Option Text
  pub password : Option Text

abbrev pub apply_profile : (hash : Text → Text) → UpdateProfileInput → User → User
apply_profile hash input u = record u {
  name = default input.name u.name;
  email = default input.email u.email;
  password = default (Option.map hash input.password) u.password;
}

-- updateMe
unfoldable pub update_me : (hash : Text → Text) (seen met : Db) → ℕ → UpdateProfileInput → Result Db
unfolding find_by_email write_user
update_me hash seen met user_id input = do
  user ← or_throw (find_unique user_id seen.users) (app not_found)
  check_email input.email user seen.users
  users ← write_user user_id input.email (apply_profile hash input) met.users
  ok (record met { users = users })
