-- ===== src/Hospital/Service.antt =====
-- src/modules/hospital/hospital.service.ts: the reads, and the writes with the invalidation.
use res_q_server.Db.Tables.{
  assignment_row, find_unique, hospital_row, incident_row, outbox_row, resource_row, user_row,
}
use res_q_server.Common.{
  Bool, List, Option, Result, [], app, err, filter, max, nat_eq, none, not_found, ok, or_throw,
  some, text_eq, ℕ, ◌&&◌, ◌/◌, ◌>>=◌, ◌∷◌,
}
use res_q_server.Db.Rows.{
  Db, Hospital, HospitalStatus, Role, assignment_status_eq, hospital_status_eq, incident_status_eq,
  level_eq, resource_status_eq, role_eq, user_status_eq,
}
use res_q_server.Resource.{serves_operator}
use res_q_server.Hospital.Defs.{
  CreateHospitalInput, UpdateHospitalInput, assign_hospital_operator_row, deactivate_hospital_row,
  insert_hospital, remove_hospital_operator_row, update_hospital_row,
}
use res_q_server.Caching.{
  Availability, CacheKey, Cached, Pattern, Redis, invalidate, read_through, RequestId,
  requested_key,
}
use res_q_server.Pagination.{PaginatedResult, PaginationParams, matches, paginate}
use res_q_server.Access.{AuthUser}

-- What the reads select.
abbrev pub to_availability : Hospital → Availability
to_availability h = record {
  id = h.id;
  name = h.name;
  status = h.status;
  bed_capacity = h.bed_capacity;
  available_beds = h.available_beds;
  icu_capacity = h.icu_capacity;
  available_icu_beds = h.available_icu_beds;
}

-- The query of getHospitals, newest first as `orderBy` asks; `none` is no restriction.
unfoldable pub list_hospitals :
    Db
    → Option HospitalStatus
    → (operator_id : Option ℕ) → PaginationParams
    → PaginatedResult Hospital
unfolding paginate
list_hospitals db status operator_id pagination = paginate pagination (
    filter (λ h. matches status h.status && serves_operator operator_id h.assigned_operator_id)
      db.hospitals)

unfoldable pub load_hospital : Db → ℕ → Result Cached
load_hospital db id = do
  h ← or_throw (find_unique id db.hospitals) (app not_found)
  ok (Cached.hospital h)

-- findUnique by the id of a request
unfoldable pub load_requested_hospital : Db → RequestId → Result Cached
unfolding load_hospital
load_requested_hospital db (RequestId.row_id id) = load_hospital db id
load_requested_hospital db (RequestId.alias key) = err (app not_found)

unfoldable pub load_availability : Db → ℕ → Result Cached
load_availability db id = do
  h ← or_throw (find_unique id db.hospitals) (app not_found)
  ok (Cached.availability (to_availability h))

abbrev pub hospital_keys : ℕ → List CacheKey
hospital_keys id =
    CacheKey.hospital_by_id id ∷ CacheKey.hospital_availability id ∷ CacheKey.hospital_list ∷ []

module _ {S : Type 0} (redis : Redis S) (available : Bool) where
  -- The invalidation follows a write that succeeded.
  unfoldable pub after_hospital_write : ℕ → Result Db → S → Result Db × S
  unfolding invalidate
  after_hospital_write id (err e) s = (err e, s)
  after_hospital_write id (ok db) s =
      (ok db, invalidate redis available (hospital_keys id) Pattern.hospital_queries s)

  unfoldable pub create_hospital : (id : ℕ) → CreateHospitalInput → Db → S → Hospital × Db × S
  unfolding insert_hospital invalidate
  create_hospital id input db s =
      let (hospital, db') = insert_hospital id input db in
      (
        hospital,
        db',
        invalidate redis available (CacheKey.hospital_list ∷ []) Pattern.hospital_queries s,
      )

  unfoldable pub update_hospital :
      (seen met : Db) → ℕ → UpdateHospitalInput → AuthUser → S → Result Db × S
  unfolding update_hospital_row after_hospital_write
  update_hospital seen met id input user s =
      after_hospital_write id (update_hospital_row seen met id input user) s

  unfoldable pub assign_hospital_operator :
      (seen met : Db) → (id operator_id : ℕ) → S → Result Db × S
  unfolding assign_hospital_operator_row after_hospital_write
  assign_hospital_operator seen met id operator_id s =
      after_hospital_write id (assign_hospital_operator_row seen met id operator_id) s

  unfoldable pub remove_hospital_operator : (seen met : Db) → (id : ℕ) → S → Result Db × S
  unfolding remove_hospital_operator_row after_hospital_write
  remove_hospital_operator seen met id s =
      after_hospital_write id (remove_hospital_operator_row seen met id) s

  unfoldable pub deactivate_hospital : (seen met : Db) → (id : ℕ) → S → Result Db × S
  unfolding deactivate_hospital_row after_hospital_write
  deactivate_hospital seen met id s =
      after_hospital_write id (deactivate_hospital_row seen met id) s

  -- getHospitals: what an OPERATOR sees is read from the database and not stored.
  abbrev listed_hospitals :
      Role
      → Db
      → Option HospitalStatus
      → PaginationParams
      → ℕ
      → (checked met : S) → Result Cached × S
  listed_hospitals Role.operator db status p user_id checked met =
      (ok (Cached.hospitals (list_hospitals db status (some user_id) p)), met)
  listed_hospitals role db status p user_id checked met =
      read_through redis available (CacheKey.hospital_list_query status p.page p.limit) 300 checked
        (ok (Cached.hospitals (list_hospitals db status none p))) met

  unfoldable pub get_hospitals :
      (checked : S) (seen : Db) (met : S)
      → Option HospitalStatus
      → PaginationParams
      → AuthUser
      → Result Cached × S
  unfolding list_hospitals read_through
  get_hospitals checked seen met status p user =
      listed_hospitals user.role seen status p user.user_id checked met

  unfoldable pub get_hospital_by_id :
      (default_ttl : ℕ) (checked : S) (seen : Db) (met : S) → RequestId → Result Cached × S
  unfolding load_requested_hospital read_through
  get_hospital_by_id default_ttl checked seen met id =
      read_through redis available (requested_key CacheKey.hospital_by_id id) default_ttl checked
        (load_requested_hospital seen id) met

  unfoldable pub get_hospital_availability :
      (default_ttl : ℕ) (checked : S) (seen : Db) (met : S) → ℕ → Result Cached × S
  unfolding load_availability read_through
  get_hospital_availability default_ttl checked seen met id =
      read_through redis available (CacheKey.hospital_availability id) (max 1 (default_ttl / 2))
        checked (load_availability seen id) met
