-- ===== src/ErrorHandler/Emails.antt =====
-- The answer to a taken email.
use res_q_server.Auth.{RegisterInput, register}
use res_q_server.Db.Rows.{Db, Role, User}
use res_q_server.Common.{
  Error, List, Option-cases, Result, Text, any, app, conflict, email_index, err, inl, inr, refl,
  true, unique_violation, ℕ, ◌>>=◌, ◌≡◌,
}
use res_q_server.ErrorHandler.{ErrorCode, Thrown, handle_error}
use res_q_server.User.{
  CreateUserInput, create_user, find_by_email, has_email, insert_user, new_user, reject_known,
}

-- The answer to a call that threw.
abbrev pub Answers409 : {A : Type 0} → Result A → Type 0
Answers409 {A} r =
    (e : Error) × (r ≡ err e)
    × (handle_error (Thrown.service e) ≡ (conflict, ErrorCode.conflict_error))

insert_taken :
    (u : User) (users : List User)
    → any (has_email u.email) users ≡ true
    → insert_user u users ≡ err (unique_violation email_index)
unfolding insert_user
insert_taken u users taken = rw taken refl

-- The check of the service, or the index where the check missed it.
known-or-inserted :
    {A : Type 0} (email : Text) (seen : List User) (next : Unit {0} → Result A)
    → next tt ≡ err (unique_violation email_index)
    → Answers409 (reject_known email seen >>= next)
unfolding handle_error
known-or-inserted email seen next refused = elim (Option-cases (find_by_email email seen)) [
  | inl unknown ↦ (unique_violation email_index, rw (unknown, ◌>>=◌) refused, refl)
  | inr (u, known) ↦ (app conflict, rw (known, ◌>>=◌) refl, refl)
]

-- If a row of the users table has the email when the new row is inserted, createUser and register are
-- answered with 409 CONFLICT, also where their check read the table before that row was there.
pub create_user-conflict :
    (hash : Text → Text) (id : ℕ) (seen met : Db) (input : CreateUserInput) (form : RegisterInput)
    → any (has_email input.email) met.users ≡ true
    → any (has_email form.email) met.users ≡ true
    → Answers409 (create_user hash id seen met input) × Answers409 (register hash id seen met form)
unfolding create_user register
create_user-conflict hash id seen met input form taken taken' = (
  known-or-inserted input.email seen.users _ (
      rw
        (insert_taken (new_user id input.name input.email (hash input.password) input.role)
          met.users taken)
        refl),
  known-or-inserted form.email seen.users _ (
      rw
        (insert_taken (new_user id form.name form.email (hash form.password) Role.citizen) met.users
          taken')
        refl),
)
