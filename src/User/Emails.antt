-- ===== src/User/Emails.antt =====
-- The unique columns of the users table along one account operation.
use mathlib.Core.Path.{subst}
use res_q_server.User.{has_email, insert_user, write_user, is_taken_by_other}
use res_q_server.Common.{
  Bool, List, Option, Text, [], any, arith, count_if, false, nat_eq, not, ok, refl, text_eq, true,
  ℕ, ◌&&◌, ◌==◌, ◌∷◌, ◌≡◌, ◌≤◌, Bool-cases, count_if-eq_zero, inl, inr, nat_beq_iff, none, some,
  text_beq_iff, sym,
}
use res_q_server.Incident.Defs.{default}
use res_q_server.Db.Tables.{
  assignment_row, hospital_row, incident_row, outbox_row, resource_row, set_row, user_row,
  update_row,
}
use res_q_server.Db.Rows.{
  User, assignment_status_eq, hospital_status_eq, incident_status_eq, level_eq, resource_status_eq,
  role_eq, user_status_eq,
}

-- The two unique columns of the users table.
pub record HasUniqueKeys (users : List User) : Type 0 where
  pub emails : (email : Text) → count_if (has_email email) users ≤ 1
  pub ids : (id : ℕ) → count_if (λ u. u.id == id) users ≤ 1

-- An update that gives no row an email that it did not have.
count_if-set_row_weaker :
    (p : User → Bool) (k : ℕ) (f : User → User) (users : List User)
    → ((u : User) → p (f u) ≡ true → p u ≡ true)
    → count_if p (set_row k f users) ≤ count_if p users
unfolding set_row
count_if-set_row_weaker p k f [] weaker = omega arith
count_if-set_row_weaker p k f (u ∷ users) weaker =
    ground (arith, weaker u, count_if-set_row_weaker p k f users weaker)

-- An update that writes an email which no other row has.
count_if-set_row_others :
    (p : User → Bool) (k : ℕ) (f : User → User) (users : List User)
    → any (λ u. p u && not (u.id == k)) users ≡ false
    → count_if p (set_row k f users) ≤ count_if (λ u. u.id == k) users
unfolding set_row
count_if-set_row_others p k f [] free = omega arith
count_if-set_row_others p k f (u ∷ users) free = ground (arith, count_if-set_row_others p k f users)

count_if-set_row_ids :
    (k id : ℕ) (f : User → User) (users : List User)
    → ((u : User) → (f u).id ≡ u.id)
    → count_if (λ u. u.id == id) (set_row k f users) ≡ count_if (λ u. u.id == id) users
unfolding set_row
count_if-set_row_ids k id f [] keeps = refl
count_if-set_row_ids k id f (u ∷ users) keeps =
    ground (arith, keeps u, count_if-set_row_ids k id f users keeps)

count_if-cons-le :
    (p : User → Bool) (u : User) (users : List User)
    → count_if p users ≤ 1
    → (p u ≡ true → count_if p users ≡ 0)
    → count_if p (u ∷ users) ≤ 1
count_if-cons-le p u users least alone = ground (arith, alone)

-- The INSERT keeps the keys unique, with an id that no row has.
pub insert_user-HasUniqueKeys :
    (u : User) (users : List User) {users' : List User}
    → HasUniqueKeys users
    → count_if (λ v. v.id == u.id) users ≡ 0
    → insert_user u users ≡ ok users'
    → HasUniqueKeys users'
unfolding insert_user
insert_user-HasUniqueKeys u users {users'} unique fresh e =
    elim (Bool-cases (any (has_email u.email) users)) [
      | inl taken ↦ let refused = rw taken at e in cc
      | inr free ↦
          let added : u ∷ users ≡ users' = let kept = rw free at e in cc in
          subst HasUniqueKeys added (record {
            emails = λ email.
                count_if-cons-le (has_email email) u users (unique.emails email) (λ same.
                  rw (← (text_beq_iff u.email email).0 same)
                    (count_if-eq_zero (has_email u.email) users free));
            ids = λ id.
                count_if-cons-le (λ v. v.id == id) u users (unique.ids id)
                  (λ same.
                    subst (λ k. count_if (λ (v : User). v.id == k) users ≡ 0)
                      ((nat_beq_iff u.id id).0 same) fresh);
          })
    ]

-- What an update writes: the email if one is given, and never the id.
abbrev pub Writes : Option Text → (User → User) → Type 0
Writes given f = (u : User) → ((f u).email ≡ default given u.email) × ((f u).id ≡ u.id)

pub write_user-ok :
    (id : ℕ) (given : Option Text) (f : User → User) (users : List User) {users' : List User}
    → write_user id given f users ≡ ok users'
    → (users' ≡ set_row id f users) × (is_taken_by_other id given users ≡ false)
unfolding write_user update_row
write_user-ok id given f users e = ground arith

set_row-emails :
    (id : ℕ) (given : Option Text) (f : User → User) (users : List User)
    → HasUniqueKeys users
    → Writes given f
    → is_taken_by_other id given users ≡ false
    → (email : Text) → count_if (has_email email) (set_row id f users) ≤ 1
set_row-emails id none f users unique writes free email =
    let weaker =
      count_if-set_row_weaker (has_email email) id f users (λ u h. rw (sym (writes u).0) h) in
    omega (arith, weaker, unique.emails email)
set_row-emails id (some e) f users unique writes free email = elim (Bool-cases (e == email)) [
  | inl same ↦
      let bound = count_if-set_row_others (has_email email) id f users (
        subst (λ k. any (λ (u : User). u.email == k && not (u.id == id)) users ≡ false)
          ((text_beq_iff e email).0 same) free) in
      omega (arith, bound, unique.ids id)
  | inr other ↦
      let weaker =
        count_if-set_row_weaker (has_email email) id f users
          (λ u h. let e' : e == email ≡ true = rw (← (writes u).0) h in cc) in
      omega (arith, weaker, unique.emails email)
]

pub write_user-HasUniqueKeys :
    (id : ℕ) (given : Option Text) (f : User → User) (users : List User) {users' : List User}
    → HasUniqueKeys users
    → Writes given f
    → write_user id given f users ≡ ok users'
    → HasUniqueKeys users'
write_user-HasUniqueKeys id given f users unique writes e =
    let (written, free) = write_user-ok id given f users e in
    subst HasUniqueKeys (sym written) (record {
      emails = set_row-emails id given f users unique writes free;
      ids = λ k. omega (arith, count_if-set_row_ids id k f users (λ u. (writes u).1), unique.ids k);
    })
