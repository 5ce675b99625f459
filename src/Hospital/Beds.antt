-- ===== src/Hospital/Beds.antt =====
-- Bed counts within their capacities.
use mathlib.Core.Path.{subst}
use res_q_server.Common.{
  >>=-ok, All, All-zip, ap, app, arith, nat_eq, none, not_found, ok, or_throw, or_throw-ok, some,
  sym, text_eq, ℕ, ◌<◌, ◌∙◌, ◌≡◌, ◌≤◌, List, nat_beq_iff, refl,
}
use res_q_server.Db.Tables.{
  All-set_row_at, assignment_row, find_unique, hospital_row, incident_row, outbox_row, resource_row,
  set_row, update_row, update_row-ok, user_row, find_unique-set_row, update_row_listed,
}
use res_q_server.Db.Rows.{
  Db, Hospital, Role, assignment_status_eq, hospital_status_eq, incident_status_eq, level_eq,
  resource_status_eq, role_eq, user_status_eq,
}
use res_q_server.Hospital.Defs.{
  UpdateHospitalInput, apply_hospital_update, check_beds, check_hospital_update,
  update_hospital_row,
}
use res_q_server.Access.{AuthUser}

-- No more free beds than beds, of both kinds.
pub record HasBeds (h : Hospital) : Type 0 where
  pub beds : h.available_beds ≤ h.bed_capacity
  pub icu : h.available_icu_beds ≤ h.icu_capacity

abbrev pub HospitalsHaveBeds : Db → Type 0
HospitalsHaveBeds db = All HasBeds db.hospitals

-- Every row is the one that its id finds.
abbrev pub HospitalsHaveUniqueIds : Db → Type 0
HospitalsHaveUniqueIds db = All (λ h. find_unique h.id db.hospitals ≡ some h) db.hospitals

-- The steps of an update that succeeded.
pub record IsUpdated (seen met after : Db) (id : ℕ) (input : UpdateHospitalInput) (user : AuthUser)
    : Type 0 where
  pub hospital : Hospital
  pub found : find_unique id seen.hospitals ≡ some hospital
  pub allowed : check_hospital_update hospital user.user_id user.role input ≡ ok tt
  pub fits : check_beds hospital input ≡ ok tt
  pub hospitals : after.hospitals ≡ set_row id (apply_hospital_update input) met.hospitals

pub update_hospital_row-IsUpdated :
    (seen met : Db) (id : ℕ) (input : UpdateHospitalInput) (user : AuthUser) {after : Db}
    → update_hospital_row seen met id input user ≡ ok after
    → IsUpdated seen met after id input user
unfolding update_hospital_row
update_hospital_row-IsUpdated seen met id input user {after} e =
    let (h, found, e1) = >>=-ok (or_throw (find_unique id seen.hospitals) (app not_found)) _ e in
    let (u, checked, e2) = >>=-ok (check_hospital_update h user.user_id user.role input) _ e1 in
    let (v, beds, e3) = >>=-ok (check_beds h input) _ e2 in
    let (rows, written, e4) =
      >>=-ok (update_row id (apply_hospital_update input) met.hospitals) _ e3 in
    let same : record met { hospitals = rows } ≡ after = cc in
    record {
      hospital = h;
      found = or_throw-ok _ _ found;
      allowed = checked;
      fits = beds;
      hospitals =
          ap (λ (db : Db). db.hospitals) (sym same)
          ∙ update_row-ok id (apply_hospital_update input) met.hospitals written;
    }

check_beds-HasBeds :
    (h : Hospital) (input : UpdateHospitalInput)
    → check_beds h input ≡ ok tt
    → HasBeds (apply_hospital_update input h)
unfolding check_beds
check_beds-HasBeds h input e = record { beds = ground arith; icu = ground arith }

-- An update with no other write between its checks and its write keeps the free beds of every
-- hospital, of both kinds, within the capacities, if ids are unique: it is refused where the values
-- that it would leave do not fit.
pub update_hospital_row-HasBeds :
    (db : Db) (id : ℕ) (input : UpdateHospitalInput) (user : AuthUser) {after : Db}
    → HospitalsHaveUniqueIds db
    → HospitalsHaveBeds db
    → update_hospital_row db db id input user ≡ ok after
    → HospitalsHaveBeds after
update_hospital_row-HasBeds db id input user unique beds e =
    let done = update_hospital_row-IsUpdated db db id input user e in
    rw done.hospitals (
      All-set_row_at (λ h. HasBeds h × (find_unique h.id db.hospitals ≡ some h)) HasBeds id _
        db.hospitals
        (λ h at p.
          subst (λ x. HasBeds (apply_hospital_update input x))
            (let there = done.found in
              let here : find_unique id db.hospitals ≡ some h =
                subst (λ k. find_unique k db.hospitals ≡ some h) at p.1 in
              cc)
            (check_beds-HasBeds done.hospital input done.fits))
        (λ h p. p.0) (All-zip HasBeds _ db.hospitals beds unique))

abbrev pub no_change : UpdateHospitalInput
no_change = record {
  name = none;
  latitude = none;
  longitude = none;
  bed_capacity = none;
  available_beds = none;
  icu_capacity = none;
  available_icu_beds = none;
  status = none;
  assigned_operator_id = none;
}

abbrev pub set_capacity : ℕ → UpdateHospitalInput
set_capacity n = record no_change { bed_capacity = some n }

abbrev pub set_free : ℕ → UpdateHospitalInput
set_free n = record no_change { available_beds = some n }

update_by_admin :
    (seen met : Db) (id : ℕ) (input : UpdateHospitalInput) (admin : AuthUser) (h g : Hospital)
    → find_unique id seen.hospitals ≡ some h
    → find_unique id met.hospitals ≡ some g
    → admin.role ≡ Role.admin
    → check_beds h input ≡ ok tt
    → update_hospital_row seen met id input admin
      ≡ ok (record met { hospitals = set_row id (apply_hospital_update input) met.hospitals })
unfolding update_hospital_row check_hospital_update
update_by_admin seen met id input admin h g found there role fits =
    rw (found, role, fits, update_row_listed id (apply_hospital_update input) met.hospitals g there)
      refl

set_own_row :
    (id : ℕ) (f : Hospital → Hospital) (h : Hospital) (rows : List Hospital)
    → ((x : Hospital) → (f x).id ≡ x.id)
    → find_unique id rows ≡ some h
    → find_unique id (set_row id f rows) ≡ some (f h)
set_own_row id f h rows keeps found =
    find_unique-set_row id id f rows keeps ∙ rw ((nat_beq_iff id id).1 refl, found) refl

check_beds-ok :
    (h : Hospital) (input : UpdateHospitalInput)
    → HasBeds (apply_hospital_update input h)
    → check_beds h input ≡ ok tt
unfolding check_beds
check_beds-ok h input fits = ground arith

-- Two updates whose checks read the same row can leave more free beds than beds: if `free` beds fit
-- the old capacity, the old free beds fit the capacity `beds`, and `free` is more than `beds`, then
-- an ADMIN's update of the capacity and one of the free beds both succeed, and the row that they
-- leave has `free` free beds and `beds` beds.
pub update_hospital_row-race :
    (db : Db) (id : ℕ) (h : Hospital) (admin : AuthUser) (beds free : ℕ)
    → find_unique id db.hospitals ≡ some h
    → HasBeds h
    → admin.role ≡ Role.admin
    → h.available_beds ≤ beds
    → free ≤ h.bed_capacity
    → beds < free
    → (middle : Db) × (after : Db) × (update_hospital_row db db id (set_capacity beds) admin
        ≡ ok middle)
      × (update_hospital_row db middle id (set_free free) admin ≡ ok after)
      × (find_unique id after.hospitals
          ≡ some (record h { bed_capacity = beds; available_beds = free }))
      × ¬ HasBeds (record h { bed_capacity = beds; available_beds = free })
update_hospital_row-race db id h admin beds free found fits role old new more =
    let narrow = apply_hospital_update (set_capacity beds) in
    let rows = set_row id narrow db.hospitals in
    let middle : Db = record db { hospitals = rows } in
    let there = set_own_row id narrow h db.hospitals (λ x. refl) found in
    (
      middle,
      record middle { hospitals = set_row id (apply_hospital_update (set_free free)) rows },
      update_by_admin db db id (set_capacity beds) admin h h found found role
          (check_beds-ok h (set_capacity beds) (record { beds = old; icu = fits.icu })),
      update_by_admin db middle id (set_free free) admin h (narrow h) found there role
          (check_beds-ok h (set_free free) (record { beds = new; icu = fits.icu })),
      set_own_row id (apply_hospital_update (set_free free)) (narrow h) rows (λ x. refl) there,
      λ impossible. absurd (let b = impossible.beds in omega arith),
    )
