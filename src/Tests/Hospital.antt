-- ===== src/Tests/Hospital.antt =====
-- Updates of the clinic.
use mathlib.Core.Option
use res_q_server.Db.Tables.{
  assignment_row, find_unique, hospital_row, incident_row, outbox_row, resource_row, set_row,
  user_row,
}
use res_q_server.Hospital.Operators.{Fixed, update_hospital_row-operator}
use res_q_server.Db.Rows.{
  Db, Hospital, Role, assignment_status_eq, hospital_status_eq, incident_status_eq, level_eq,
  resource_status_eq, role_eq, user_status_eq,
}
use res_q_server.Common.{[], arith, nat_eq, ok, refl, some, text_eq, ℕ, ◌∷◌, ◌≡◌}
use res_q_server.Hospital.Defs.{update_hospital_row}
use res_q_server.Hospital.Beds.{
  HospitalsHaveBeds, HospitalsHaveUniqueIds, set_capacity, set_free, update_hospital_row-HasBeds,
  update_hospital_row-race, HasBeds,
}
use res_q_server.Tests.Fixtures.{admin, clinic, three_left, town}
use res_q_server.Access.{AuthUser}

abbrev operator : AuthUser
operator = record { user_id = 3; role = Role.operator }

town_unique : HospitalsHaveUniqueIds town
unfolding find_unique
town_unique = (refl, tt)

town-beds : HospitalsHaveBeds town
town-beds = (record { beds = omega arith; icu = omega arith }, tt)

abbrev after_update : Db
after_update = record town { hospitals = record clinic { available_beds = 3 } ∷ [] }

three_taken : update_hospital_row town town 50 three_left operator ≡ ok after_update
unfolding update_hospital_row find_unique set_row
three_taken = refl

update_hospital_row-HasBeds_example : HospitalsHaveBeds after_update
update_hospital_row-HasBeds_example =
    update_hospital_row-HasBeds town 50 three_left operator town_unique town-beds three_taken

update_hospital_row-operator_example :
    ((h : Hospital) × (find_unique 50 town.hospitals ≡ some h) × (h.assigned_operator_id ≡ some 3))
    × ((k : ℕ)
        → Option.map Fixed (find_unique k after_update.hospitals)
          ≡ Option.map Fixed (find_unique k town.hospitals))
update_hospital_row-operator_example =
    update_hospital_row-operator town town 50 three_left operator refl three_taken

-- Six beds while four are free, and eight free beds while there are ten.
update_hospital_row-race_example :
    (middle : Db) × (after : Db) × (update_hospital_row town town 50 (set_capacity 6) admin
      ≡ ok middle)
    × (update_hospital_row town middle 50 (set_free 8) admin ≡ ok after)
    × (find_unique 50 after.hospitals
        ≡ some (record clinic { bed_capacity = 6; available_beds = 8 }))
    × ¬ HasBeds (record clinic { bed_capacity = 6; available_beds = 8 })
unfolding find_unique
update_hospital_row-race_example =
    update_hospital_row-race town 50 clinic admin 6 8 refl
      (record { beds = omega arith; icu = omega arith }) refl (omega arith) (omega arith)
      (omega arith)
