-- ===== src/Caching/Writes.antt =====
-- What the writes of the two services do to the two tables that are cached.
use res_q_server.Hospital.Defs.{
  UpdateHospitalInput, apply_hospital_update, assign_hospital_operator_row, check_beds,
  check_hospital_update, close_hospital, deactivate_hospital_row, remove_hospital_operator_row,
  set_hospital_operator, update_hospital_row, write_hospital,
}
use res_q_server.Db.Tables.{
  assignment_row, find_unique, hospital_row, incident_row, outbox_row, resource_row, set_row,
  update_row, update_row-ok, user_row,
}
use res_q_server.Common.{
  >>=-ok, List, Option, ap, app, bad_request, guard, if-cases, nat_eq, none, not_found, ok,
  or_throw, refl, some, sym, text_eq, ℕ, ◌==◌, ◌>>=◌, ◌∙◌, ◌≡◌,
}
use res_q_server.Db.Rows.{
  Db, Hospital, Resource, ResourceStatus, Role, assignment_status_eq, hospital_status_eq,
  incident_status_eq, level_eq, resource_status_eq, role_eq, user_status_eq,
}
use res_q_server.Resource.{
  UpdateResourceInput, apply_resource_update, assign_operator, check_resource_update,
  deactivate_resource, notify_status, remove_operator, update_resource, write_status_events,
}
use res_q_server.Access.{AuthUser}

-- A write of the hospital with the id: one row is changed under its id, and no resource is.
pub record WritesHospital (id : ℕ) (met after : Db) : Type 0 where
  pub change : Hospital → Hospital
  pub keeps_id : (h : Hospital) → (change h).id ≡ h.id
  pub hospitals : after.hospitals ≡ set_row id change met.hospitals
  pub resources : after.resources ≡ met.resources

pub record WritesResource (id : ℕ) (met after : Db) : Type 0 where
  pub change : Resource → Resource
  pub keeps_id : (r : Resource) → (change r).id ≡ r.id
  pub resources : after.resources ≡ set_row id change met.resources
  pub hospitals : after.hospitals ≡ met.hospitals

write_hospital-Writes :
    (id : ℕ) (f : Hospital → Hospital) (met : Db) {after : Db}
    → ((h : Hospital) → (f h).id ≡ h.id)
    → write_hospital id f met ≡ ok after
    → WritesHospital id met after
write_hospital-Writes id f met {after} keeps e =
    let (rows, written, e') = >>=-ok (update_row id f met.hospitals) _ e in
    let same : record met { hospitals = rows } ≡ after = cc in
    record {
      change = f;
      keeps_id = keeps;
      hospitals =
          ap (λ (db : Db). db.hospitals) (sym same) ∙ update_row-ok id f met.hospitals written;
      resources = ap (λ (db : Db). db.resources) (sym same);
    }

pub update_hospital_row-Writes :
    (seen met : Db) (id : ℕ) (input : UpdateHospitalInput) (user : AuthUser) {after : Db}
    → update_hospital_row seen met id input user ≡ ok after
    → WritesHospital id met after
unfolding update_hospital_row
update_hospital_row-Writes seen met id input user e =
    let (h, found, e1) = >>=-ok (or_throw (find_unique id seen.hospitals) (app not_found)) _ e in
    let (u, checked, e2) = >>=-ok (check_hospital_update h user.user_id user.role input) _ e1 in
    let (v, beds, e3) = >>=-ok (check_beds h input) _ e2 in
    write_hospital-Writes id (apply_hospital_update input) met (λ x. refl) e3

pub assign_hospital_operator_row-Writes :
    (seen met : Db) (id operator_id : ℕ) {after : Db}
    → assign_hospital_operator_row seen met id operator_id ≡ ok after
    → WritesHospital id met after
unfolding assign_hospital_operator_row
assign_hospital_operator_row-Writes seen met id operator_id e =
    let (h, found, e1) = >>=-ok (or_throw (find_unique id seen.hospitals) (app not_found)) _ e in
    let (o, there, e2) =
      >>=-ok (or_throw (find_unique operator_id seen.users) (app not_found)) _ e1 in
    let (v, passed, e3) = >>=-ok (guard (o.role == Role.operator) (app bad_request)) _ e2 in
    write_hospital-Writes id (set_hospital_operator (some operator_id)) met (λ x. refl) e3

pub remove_hospital_operator_row-Writes :
    (seen met : Db) (id : ℕ) {after : Db}
    → remove_hospital_operator_row seen met id ≡ ok after
    → WritesHospital id met after
unfolding remove_hospital_operator_row
remove_hospital_operator_row-Writes seen met id e =
    let (h, found, e1) = >>=-ok (or_throw (find_unique id seen.hospitals) (app not_found)) _ e in
    write_hospital-Writes id (set_hospital_operator none) met (λ x. refl) e1

pub deactivate_hospital_row-Writes :
    (seen met : Db) (id : ℕ) {after : Db}
    → deactivate_hospital_row seen met id ≡ ok after
    → WritesHospital id met after
unfolding deactivate_hospital_row
deactivate_hospital_row-Writes seen met id e =
    let (h, found, e1) = >>=-ok (or_throw (find_unique id seen.hospitals) (app not_found)) _ e in
    write_hospital-Writes id close_hospital met (λ x. refl) e1

-- prisma.resource.update, and what the status events leave alone.
write_resource-Writes :
    (id : ℕ) (f : Resource → Resource) (met : Db) (finish : List Resource → Db) {after : Db}
    → ((r : Resource) → (f r).id ≡ r.id)
    → ((rows : List Resource)
        → ((finish rows).resources ≡ rows) × ((finish rows).hospitals ≡ met.hospitals))
    → (update_row id f met.resources >>= λ rows. ok (finish rows)) ≡ ok after
    → WritesResource id met after
write_resource-Writes id f met finish {after} keeps finishes e =
    let (rows, written, e') = >>=-ok (update_row id f met.resources) _ e in
    let same : finish rows ≡ after = cc in
    record {
      change = f;
      keeps_id = keeps;
      resources =
          ap (λ (db : Db). db.resources) (sym same)
          ∙ (finishes rows).0
          ∙ update_row-ok id f met.resources written;
      hospitals = ap (λ (db : Db). db.hospitals) (sym same) ∙ (finishes rows).1;
    }

notify_status-keeps :
    (event_id failure_event_id : ℕ) (r : Resource) (status : Option ResourceStatus) (db : Db)
    → ((notify_status event_id failure_event_id r status db).resources ≡ db.resources)
      × ((notify_status event_id failure_event_id r status db).hospitals ≡ db.hospitals)
unfolding notify_status write_status_events
notify_status-keeps event_id failure_event_id r none db = (refl, refl)
notify_status-keeps event_id failure_event_id r (some status) db =
    if-cases (λ (after : Db). (after.resources ≡ db.resources) × (after.hospitals ≡ db.hospitals))
      (status == r.status) (λ same. (refl, refl)) (λ changed. (refl, refl))

pub update_resource-Writes :
    (event_id failure_event_id : ℕ) (seen met : Db) (id : ℕ) (input : UpdateResourceInput)
    (user_id : ℕ) (role : Role) {after : Db}
    → update_resource event_id failure_event_id seen met id input user_id role ≡ ok after
    → WritesResource id met after
unfolding update_resource
update_resource-Writes event_id failure_event_id seen met id input user_id role e =
    let (r, found, e1) = >>=-ok (or_throw (find_unique id seen.resources) (app not_found)) _ e in
    let (v, checked, e2) = >>=-ok (check_resource_update r user_id role input) _ e1 in
    write_resource-Writes id (apply_resource_update input) met _ (λ x. refl)
      (λ rows.
        notify_status-keeps event_id failure_event_id r input.status
          (record met { resources = rows }))
      e2

pub assign_operator-Writes :
    (seen met : Db) (id operator_id : ℕ) {after : Db}
    → assign_operator seen met id operator_id ≡ ok after
    → WritesResource id met after
unfolding assign_operator
assign_operator-Writes seen met id operator_id e =
    let (r, found, e1) = >>=-ok (or_throw (find_unique id seen.resources) (app not_found)) _ e in
    let (o, there, e2) =
      >>=-ok (or_throw (find_unique operator_id seen.users) (app not_found)) _ e1 in
    let (v, passed, e3) = >>=-ok (guard (o.role == Role.operator) (app bad_request)) _ e2 in
    write_resource-Writes id _ met _ (λ x. refl) (λ rows. (refl, refl)) e3

pub remove_operator-Writes :
    (seen met : Db) (id : ℕ) {after : Db}
    → remove_operator seen met id ≡ ok after
    → WritesResource id met after
unfolding remove_operator
remove_operator-Writes seen met id e =
    let (r, found, e1) = >>=-ok (or_throw (find_unique id seen.resources) (app not_found)) _ e in
    write_resource-Writes id _ met _ (λ x. refl) (λ rows. (refl, refl)) e1

pub deactivate_resource-Writes :
    (seen met : Db) (id : ℕ) {after : Db}
    → deactivate_resource seen met id ≡ ok after
    → WritesResource id met after
unfolding deactivate_resource
deactivate_resource-Writes seen met id e =
    let (r, found, e1) = >>=-ok (or_throw (find_unique id seen.resources) (app not_found)) _ e in
    write_resource-Writes id _ met _ (λ x. refl) (λ rows. (refl, refl)) e1
