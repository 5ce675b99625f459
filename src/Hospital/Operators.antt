-- ===== src/Hospital/Operators.antt =====
-- What an OPERATOR may change.
use mathlib.Core.Option
use mathlib.Core.Path.{subst}
use res_q_server.Common.{
  Option, Text, arith, false, nat_eq, none, ok, refl, some, text_eq, ℕ, ◌≡◌, >>=-ok, Bool,
  Bool-cases, ap, app, forbidden, guard, guard-ok, if◌then◌else◌, inl, inr, nat_beq, nat_beq_iff,
  not, true, ◌∙◌,
}
use res_q_server.Hospital.Defs.{
  UpdateHospitalInput, apply_hospital_update, has_disallowed_field, update_hospital_row,
  check_hospital_update,
}
use res_q_server.Db.Rows.{
  Db, Hospital, Place, Role, assignment_status_eq, hospital_status_eq, incident_status_eq, level_eq,
  resource_status_eq, role_eq, user_status_eq,
}
use res_q_server.Hospital.Beds.{update_hospital_row-IsUpdated}
use res_q_server.Access.{AuthUser}
use res_q_server.Incident.Defs.{default, is_defined}
use res_q_server.Db.Tables.{
  assignment_row, find_unique, hospital_row, incident_row, outbox_row, resource_row, user_row,
  find_unique-set_row,
}
use res_q_server.Resource.{is_operator}

-- What an OPERATOR may not touch.
abbrev pub Fixed : Hospital → Text × Place × Option ℕ
Fixed h = (h.name, h.place, h.assigned_operator_id)

default-undefined : {A : Type 0} (o : Option A) (a : A) → is_defined o ≡ false → default o a ≡ a
default-undefined none a e = refl
default-undefined (some b) a e = cc

allowed-Fixed :
    (input : UpdateHospitalInput) (h : Hospital)
    → has_disallowed_field input ≡ false
    → Fixed (apply_hospital_update input h) ≡ Fixed h
unfolding has_disallowed_field
allowed-Fixed input h e =
    let name = default-undefined input.name h.name (ground arith) in
    let latitude = default-undefined input.latitude h.place.latitude (ground arith) in
    let longitude = default-undefined input.longitude h.place.longitude (ground arith) in
    let operator =
      default-undefined input.assigned_operator_id h.assigned_operator_id (ground arith) in
    λ i. (name i, record { latitude = latitude i; longitude = longitude i }, operator i)

is_operator-some : (user_id : ℕ) (o : Option ℕ) → is_operator user_id o ≡ true → o ≡ some user_id
is_operator-some user_id none e = cc
is_operator-some user_id (some operator_id) e = ap some ((nat_beq_iff operator_id user_id).0 e)

operator-allowed :
    (h : Hospital) (user_id : ℕ) (input : UpdateHospitalInput)
    → check_hospital_update h user_id Role.operator input ≡ ok tt
    → (h.assigned_operator_id ≡ some user_id) × (has_disallowed_field input ≡ false)
unfolding check_hospital_update
operator-allowed h user_id input e =
    let (u, own, e') =
      >>=-ok (guard (is_operator user_id h.assigned_operator_id) (app forbidden)) _ e in
    let allowed = guard-ok (not (has_disallowed_field input)) (app forbidden) e' in
    (
      is_operator-some user_id h.assigned_operator_id (guard-ok _ _ own),
      elim (Bool-cases (has_disallowed_field input)) [
        | inl b ↦ let refused = rw b at allowed in cc
        | inr b ↦ b
      ],
    )

fixed-if :
    (input : UpdateHospitalInput) (b : Bool) (o : Option Hospital)
    → has_disallowed_field input ≡ false
    → Option.map Fixed (if b then Option.map (apply_hospital_update input) o else o)
      ≡ Option.map Fixed o
fixed-if input true none e = refl
fixed-if input false none e = refl
fixed-if input true (some h) e = ap some (allowed-Fixed input h e)
fixed-if input false (some h) e = refl

-- An update by an OPERATOR that succeeds is one of a hospital that is assigned to the caller, and
-- leaves the name, the place and the operator of every hospital as they are.
pub update_hospital_row-operator :
    (seen met : Db) (id : ℕ) (input : UpdateHospitalInput) (user : AuthUser) {after : Db}
    → user.role ≡ Role.operator
    → update_hospital_row seen met id input user ≡ ok after
    → ((h : Hospital) × (find_unique id seen.hospitals ≡ some h)
        × (h.assigned_operator_id ≡ some user.user_id))
      × ((k : ℕ)
          → Option.map Fixed (find_unique k after.hospitals)
            ≡ Option.map Fixed (find_unique k met.hospitals))
update_hospital_row-operator seen met id input user role e =
    let done = update_hospital_row-IsUpdated seen met id input user e in
    let (own, allowed) = operator-allowed done.hospital user.user_id input (
      subst (λ r. check_hospital_update done.hospital user.user_id r input ≡ ok tt) role
        done.allowed) in
    (
      (done.hospital, done.found, own),
      λ k. rw done.hospitals (
          ap (Option.map Fixed)
            (find_unique-set_row id k (apply_hospital_update input) met.hospitals (λ h. refl))
          ∙ fixed-if input (nat_beq id k) (find_unique k met.hospitals) allowed),
    )
