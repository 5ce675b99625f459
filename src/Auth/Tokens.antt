-- ===== src/Auth/Tokens.antt =====
-- From login to authenticate.
use mathlib.Core.Path.{subst}
use res_q_server.Common.{
  Text, [], nat_beq_iff, ok, refl, some, true, ℕ, ◌++◌, ◌+◌, ◌<◌, ◌∷◌, ◌≡◌, ◌≢◌, >>=-ok, List,
  Option-cases, ap, app, forbidden, guard, guard-ok, inl, inr, nat_eq, not, sym, text_eq,
  unauthorized, ◌==◌,
}
use res_q_server.Auth.{
  Bcrypt, Jwt, LoginResponse, Verified, authenticate, bearer, check_credentials, check_token,
  first_word, login, strip_prefix, verify_token,
}
use res_q_server.User.{find_by_email, to_safe_user}
use res_q_server.Db.Rows.{
  Db, User, UserStatus, assignment_status_eq, hospital_status_eq, incident_status_eq, level_eq,
  resource_status_eq, role_eq, user_status_eq,
}
use res_q_server.Access.{AuthUser}
use res_q_server.Db.Tables.{
  assignment_row, hospital_row, incident_row, outbox_row, resource_row, user_row,
}

-- What jsonwebtoken documents: a token of `sign` is decoded to its payload until its life time has
-- passed, and is a text of at least one character, without spaces.
pub record SignsTokens (jwt : Jwt) : Type 0 where
  pub decodes :
      (now later : ℕ) (user : AuthUser)
      → later < now + jwt.lifetime
      → jwt.verify later (jwt.sign now user) ≡ Verified.decoded user
  pub is_word : (now : ℕ) (user : AuthUser) → first_word (jwt.sign now user) ≡ jwt.sign now user
  pub is_text : (now : ℕ) (user : AuthUser) → jwt.sign now user ≢ []

strip_prefix-append : (p s : Text) → strip_prefix p (p ++ s) ≡ some s
strip_prefix-append [] s = refl
strip_prefix-append (c ∷ p) s = rw ((nat_beq_iff c c).1 refl) (strip_prefix-append p s)

check_token-ne_nil : (s : Text) → s ≢ [] → check_token s ≡ ok s
check_token-ne_nil [] h = absurd (h refl)
check_token-ne_nil (c ∷ s) h = refl

-- The payload of a user's token.
abbrev pub payload_of : User → AuthUser
payload_of u = record { user_id = u.id; role = u.role }

authenticate-sign :
    (jwt : Jwt) (now later : ℕ) (user : AuthUser)
    → SignsTokens jwt
    → later < now + jwt.lifetime
    → authenticate jwt true later (some (bearer ++ jwt.sign now user)) ≡ ok user
unfolding authenticate verify_token
authenticate-sign jwt now later user laws h =
    rw (laws.is_word now user, check_token-ne_nil _ (laws.is_text now user))
      (rw (laws.decodes now later user h) refl)

credentials-ok :
    (bcrypt : Bcrypt) (email password : Text) (users : List User) {u : User}
    → check_credentials bcrypt email password users ≡ ok u
    → (find_by_email email users ≡ some u) × (bcrypt.compare password u.password ≡ true)
unfolding check_credentials
credentials-ok bcrypt email password users {u} e = elim (Option-cases (find_by_email email users)) [
  | inl absent ↦ let refused = rw (absent, check_credentials) at e in cc
  | inr (v, found) ↦
      let (passed, g, same) =
        >>=-ok (guard (bcrypt.compare password v.password) (app unauthorized)) _
          (rw (found, check_credentials) at e) in
      let same' : v ≡ u = cc in
      subst
        (λ w. (find_by_email email users ≡ some w) × (bcrypt.compare password w.password ≡ true))
        same' (found, guard-ok _ _ g)
]

not_inactive :
    (status : UserStatus) → not (status == UserStatus.inactive) ≡ true → status ≡ UserStatus.active
not_inactive UserStatus.active h = refl
not_inactive UserStatus.inactive h = cc

-- A login succeeds only for a listed ACTIVE user with that email, whose password's hash bcrypt takes
-- for the password. Until the token's life time has passed, a request with the header
-- `Bearer <token>` is then taken for that user, with the role that the user had at the login: no
-- table is read again, so a later deactivation or change of role has no effect on it.
pub login-authenticate :
    (bcrypt : Bcrypt) (jwt : Jwt) (now later : ℕ) (email password : Text) (db : Db)
    {response : LoginResponse}
    → SignsTokens jwt
    → later < now + jwt.lifetime
    → login bcrypt jwt true now email password db ≡ ok response
    → (u : User) × (find_by_email email db.users ≡ some u)
      × (bcrypt.compare password u.password ≡ true)
      × (u.status ≡ UserStatus.active)
      × (response.user ≡ to_safe_user u)
      × (authenticate jwt true later (some (bearer ++ response.token)) ≡ ok (payload_of u))
unfolding login check_credentials
login-authenticate bcrypt jwt now later email password db {response} laws h e =
    let (u, credentials, e1) = >>=-ok (check_credentials bcrypt email password db.users) _ e in
    let (found, matched) = credentials-ok bcrypt email password db.users credentials in
    let (passed, g, e2) =
      >>=-ok (guard (not (u.status == UserStatus.inactive)) (app forbidden)) _ e1 in
    let answer : record { token = jwt.sign now (payload_of u); user = to_safe_user u } ≡ response =
      cc in
    (
      u,
      found,
      matched,
      not_inactive u.status (guard-ok _ _ g),
      ap (λ (r : LoginResponse). r.user) (sym answer),
      subst
          (λ (r : LoginResponse).
            authenticate jwt true later (some (bearer ++ r.token)) ≡ ok (payload_of u))
          answer (authenticate-sign jwt now later (payload_of u) laws h),
    )
