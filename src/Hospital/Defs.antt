-- ===== src/Hospital/Defs.antt =====
-- src/modules/hospital/hospital.service.ts: the writes up to the invalidation of the cache. A write
-- takes the tables that its checks read and those that it meets.
use res_q_server.Db.Tables.{
  assignment_row, find_unique, hospital_row, incident_row, outbox_row, resource_row, update_row,
  user_row,
}
use res_q_server.Common.{
  Bool, Option, Result, Text, app, bad_request, forbidden, guard, ltb, nat_eq, none, not, not_found,
  ok, or_throw, some, text_eq, ℕ, ◌==◌, ◌>>=◌, ◌>>◌, ◌||◌, ◌∷◌,
}
use res_q_server.Db.Rows.{
  Db, Degrees, Hospital, HospitalStatus, Place, Role, assignment_status_eq, hospital_status_eq,
  incident_status_eq, level_eq, resource_status_eq, role_eq, user_status_eq,
}
use res_q_server.Resource.{is_operator}
use res_q_server.Incident.Defs.{default, is_defined}
use res_q_server.Access.{AuthUser}

pub record CreateHospitalInput : Type 0 where
  pub name : Text
  pub place : Place
  pub bed_capacity : ℕ
  pub available_beds : ℕ
  pub icu_capacity : ℕ
  pub available_icu_beds : ℕ
  pub status : Option HospitalStatus
  pub assigned_operator_id : Option ℕ

pub record UpdateHospitalInput : Type 0 where
  pub name : Option Text
  pub latitude : Option Degrees
  pub longitude : Option Degrees
  pub bed_capacity : Option ℕ
  pub available_beds : Option ℕ
  pub icu_capacity : Option ℕ
  pub available_icu_beds : Option ℕ
  pub status : Option HospitalStatus
  pub assigned_operator_id : Option (Option ℕ)  -- `null` removes the operator

-- createHospital, up to the invalidation; a hospital is OPERATIONAL where no status is given
unfoldable pub insert_hospital : (id : ℕ) → CreateHospitalInput → Db → Hospital × Db
insert_hospital id input db =
    let hospital : Hospital = record {
      id = id;
      name = input.name;
      place = input.place;
      bed_capacity = input.bed_capacity;
      available_beds = input.available_beds;
      icu_capacity = input.icu_capacity;
      available_icu_beds = input.available_icu_beds;
      status = default input.status HospitalStatus.operational;
      assigned_operator_id = input.assigned_operator_id;
    } in
    (hospital, record db { hospitals = hospital ∷ db.hospitals })

-- The fields of the request that an OPERATOR may not send.
unfoldable pub has_disallowed_field : UpdateHospitalInput → Bool
has_disallowed_field input =
    is_defined input.name
    || is_defined input.latitude
    || is_defined input.longitude
    || is_defined input.assigned_operator_id

unfoldable pub check_hospital_update :
    Hospital → (user_id : ℕ) → Role → UpdateHospitalInput → Result (Unit {0})
unfolding has_disallowed_field
check_hospital_update hospital user_id Role.operator input =
    guard (is_operator user_id hospital.assigned_operator_id) (app forbidden)
    >> guard (not (has_disallowed_field input)) (app forbidden)
check_hospital_update hospital user_id _ input = ok tt

-- The capacity rules, on the values that the update would leave.
unfoldable pub check_beds : Hospital → UpdateHospitalInput → Result (Unit {0})
check_beds hospital input = do
  let final_bed_capacity = default input.bed_capacity hospital.bed_capacity
  let final_available_beds = default input.available_beds hospital.available_beds
  let final_icu_capacity = default input.icu_capacity hospital.icu_capacity
  let final_available_icu_beds = default input.available_icu_beds hospital.available_icu_beds
  guard (not (ltb final_bed_capacity final_available_beds)) (app bad_request)
  guard (not (ltb final_icu_capacity final_available_icu_beds)) (app bad_request)

abbrev pub apply_hospital_update : UpdateHospitalInput → Hospital → Hospital
apply_hospital_update input h = record h {
  name = default input.name h.name;
  place = record {
    latitude = default input.latitude h.place.latitude;
    longitude = default input.longitude h.place.longitude;
  };
  bed_capacity = default input.bed_capacity h.bed_capacity;
  available_beds = default input.available_beds h.available_beds;
  icu_capacity = default input.icu_capacity h.icu_capacity;
  available_icu_beds = default input.available_icu_beds h.available_icu_beds;
  status = default input.status h.status;
  assigned_operator_id = default input.assigned_operator_id h.assigned_operator_id;
}

-- prisma.hospital.update({ where: { id }, data })
abbrev pub write_hospital : ℕ → (Hospital → Hospital) → Db → Result Db
write_hospital id f db = do
  hospitals ← update_row id f db.hospitals
  ok (record db { hospitals = hospitals })

-- updateHospital, up to the invalidation
unfoldable pub update_hospital_row :
    (seen met : Db) → ℕ → UpdateHospitalInput → AuthUser → Result Db
unfolding check_hospital_update check_beds update_row
update_hospital_row seen met id input user = do
  hospital ← or_throw (find_unique id seen.hospitals) (app not_found)
  check_hospital_update hospital user.user_id user.role input
  check_beds hospital input
  write_hospital id (apply_hospital_update input) met

abbrev pub set_hospital_operator : Option ℕ → Hospital → Hospital
set_hospital_operator operator_id h = record h { assigned_operator_id = operator_id }

-- assignOperator, up to the invalidation
unfoldable pub assign_hospital_operator_row : (seen met : Db) → (id operator_id : ℕ) → Result Db
unfolding update_row
assign_hospital_operator_row seen met id operator_id = do
  hospital ← or_throw (find_unique id seen.hospitals) (app not_found)
  operator ← or_throw (find_unique operator_id seen.users) (app not_found)
  guard (operator.role == Role.operator) (app bad_request)
  write_hospital id (set_hospital_operator (some operator_id)) met

-- removeOperator and deactivateHospital, up to the invalidation
unfoldable pub remove_hospital_operator_row : (seen met : Db) → (id : ℕ) → Result Db
unfolding update_row
remove_hospital_operator_row seen met id = do
  hospital ← or_throw (find_unique id seen.hospitals) (app not_found)
  write_hospital id (set_hospital_operator none) met

abbrev pub close_hospital : Hospital → Hospital
close_hospital h = record h { status = HospitalStatus.closed }

unfoldable pub deactivate_hospital_row : (seen met : Db) → (id : ℕ) → Result Db
unfolding update_row
deactivate_hospital_row seen met id = do
  hospital ← or_throw (find_unique id seen.hospitals) (app not_found)
  write_hospital id close_hospital met
