-- ===== src/Caching/Stale.antt =====
-- Where a read gives what the database no longer holds.
use mathlib.Core.Path.{subst}
use mathlib.Core.Option
use res_q_server.Common.{
  nat_eq, none, ok, refl, some, text_eq, true, ℕ, ◌≡◌, >>=-ok, Result, ap, app, nat_beq_iff,
  not_found, or_throw, sym, ◌∙◌, List, if◌then◌else◌, nat_beq,
}
use res_q_server.Db.Rows.{
  Assignment, Db, Hospital, Resource, ResourceStatus, assignment_status_eq, hospital_status_eq,
  incident_status_eq, level_eq, resource_status_eq, role_eq, user_status_eq,
}
use res_q_server.Assignment.Defs.{CreateInput, Supply, create_tx, set_resource_status}
use res_q_server.Resource.Reads.{get_resource_by_id, load_resource, load_requested_resource}
use res_q_server.Caching.{
  CacheKey, Cached, Redis, cache_get, read_through, cache_set, store_loaded, RequestId,
}
use res_q_server.Hospital.Defs.{
  UpdateHospitalInput, apply_hospital_update, check_beds, check_hospital_update,
  update_hospital_row,
}
use res_q_server.Hospital.Service.{
  get_hospital_by_id, load_hospital, update_hospital, load_requested_hospital,
}
use res_q_server.Access.{AuthUser}
use res_q_server.Db.Tables.{
  assignment_row, find_unique, hospital_row, incident_row, outbox_row, resource_row, user_row,
  set_row, update_row, update_row-ok, find_unique-set_row,
}
use res_q_server.Caching.Entries.{Gives}
use res_q_server.Assignment.Eligibility.{create_tx-IsAssigned, create_tx-IsEligible}
use res_q_server.Caching.Runs.{hospital_write-ok}
use res_q_server.Audit.{given}

cache_get-hit :
    {S : Type 0} (redis : Redis S) (k : CacheKey) (v : Cached) (s : S)
    → Gives redis s k v
    → cache_get redis true k s ≡ some v
unfolding cache_get
cache_get-hit redis k v s given = rw given refl

read_through-hit :
    {S : Type 0} (redis : Redis S) (k : CacheKey) (ttl : ℕ) (s met : S) (loaded : Result Cached)
    (v : Cached)
    → cache_get redis true k s ≡ some v
    → read_through redis true k ttl s loaded met ≡ (ok v, met)
unfolding read_through
read_through-hit redis k ttl s met loaded v hit = rw (hit, read_through) refl

read_through-miss :
    {S : Type 0} (redis : Redis S) (k : CacheKey) (ttl : ℕ) (s met : S) (v : Cached)
    → cache_get redis true k s ≡ none
    → read_through redis true k ttl s (ok v) met ≡ (ok v, (redis.set k v ttl met).1)
unfolding read_through store_loaded cache_set
read_through-miss redis k ttl s met v miss = rw (miss, read_through) refl

self_found :
    (id : ℕ) (f : Hospital → Hospital) (h : Hospital) (rows : List Hospital)
    → find_unique id rows ≡ some h
    → (if nat_beq id id then Option.map f (find_unique id rows) else find_unique id rows)
      ≡ some (f h)
self_found id f h rows found = rw ((nat_beq_iff id id).1 refl, found) refl

updated_row :
    (seen met : Db) (id : ℕ) (input : UpdateHospitalInput) (user : AuthUser) {after : Db}
    → update_hospital_row seen met id input user ≡ ok after
    → after.hospitals ≡ set_row id (apply_hospital_update input) met.hospitals
unfolding update_hospital_row
updated_row seen met id input user {after} e =
    let (h, found, e1) = >>=-ok (or_throw (find_unique id seen.hospitals) (app not_found)) _ e in
    let (u, checked, e2) = >>=-ok (check_hospital_update h user.user_id user.role input) _ e1 in
    let (v, beds, e3) = >>=-ok (check_beds h input) _ e2 in
    let (rows, written, e4) =
      >>=-ok (update_row id (apply_hospital_update input) met.hospitals) _ e3 in
    let same : record met { hospitals = rows } ≡ after = cc in
    ap (λ (db : Db). db.hospitals) (sym same)
    ∙ update_row-ok id (apply_hospital_update input) met.hospitals written

-- The transaction of createAssignment does not touch the cache: where the cache has the AVAILABLE row
-- of the resource, a read of the resource by id after the transaction still gives that row, while
-- the database holds it as BUSY.
pub create_tx-stale :
    {S : Type 0} (redis : Redis S) (ttl : ℕ) (db : Db) (supply : Supply) (input : CreateInput)
    (a : Assignment) (r : Resource) (s : S) {db' : Db}
    → find_unique input.resource_id db.resources ≡ some r
    → Gives redis s (CacheKey.resource_by_id input.resource_id) (Cached.resource r)
    → create_tx db db supply input ≡ ok (a, db')
    → ((get_resource_by_id redis true ttl s db' s (RequestId.row_id input.resource_id)).0
        ≡ ok (Cached.resource r))
      × (r.status ≡ ResourceStatus.available)
      × (load_resource db' input.resource_id
          ≡ ok (Cached.resource (set_resource_status ResourceStatus.busy r)))
unfolding get_resource_by_id load_resource load_requested_resource
create_tx-stale redis ttl db supply input a r s {db'} found given e =
    let eligible = create_tx-IsEligible db db db' supply input a e in
    let same : eligible.resource ≡ r = let there = eligible.resource_found in cc in
    (
      ap (λ p. p.0)
          (read_through-hit redis _ ttl s s _ (Cached.resource r)
            (cache_get-hit redis _ _ s given)),
      subst (λ (x : Resource). x.status ≡ ResourceStatus.available) same eligible.is_available,
      rw
          (
            (create_tx-IsAssigned db db db' supply input a e).resources input.resource_id,
            (nat_beq_iff input.resource_id input.resource_id).1 refl,
            found,
          )
          refl,
    )

-- A slow read may undo an invalidation: if it missed and read the row before an update, and its SET
-- arrives after the invalidation of that update, then the next read gives the old row, if the store
-- keeps it, whatever the update wrote.
pub update_hospital-late_fill :
    {S : Type 0} (redis : Redis S) (ttl : ℕ) (before after : Db) (id : ℕ) (h : Hospital)
    (input : UpdateHospitalInput) (user : AuthUser) (s s' : S)
    → find_unique id before.hospitals ≡ some h
    → cache_get redis true (CacheKey.hospital_by_id id) s ≡ none
    → update_hospital redis true before before id input user s ≡ (ok after, s')
    → Gives redis
        (redis.set (CacheKey.hospital_by_id id) (Cached.hospital h) ttl s').1
        (CacheKey.hospital_by_id id)
        (Cached.hospital h)
    → let late = (get_hospital_by_id redis true ttl s before s' (RequestId.row_id id)).1 in
      ((get_hospital_by_id redis true ttl late after late (RequestId.row_id id)).0
        ≡ ok (Cached.hospital h))
      × (load_hospital after id ≡ ok (Cached.hospital (apply_hospital_update input h)))
unfolding get_hospital_by_id load_hospital load_requested_hospital update_hospital
update_hospital-late_fill redis ttl before after id h input user s s' found miss e kept =
    let key = CacheKey.hospital_by_id id in
    let (written, invalidated) = hospital_write-ok redis id _ s e in
    let late = (redis.set key (Cached.hospital h) ttl s').1 in
    let row : find_unique id after.hospitals ≡ some (apply_hospital_update input h) =
      rw (updated_row before before id input user written) (
        find_unique-set_row id id (apply_hospital_update input) before.hospitals (λ x. refl)
        ∙ self_found id (apply_hospital_update input) h before.hospitals found) in
    (
      rw (found, read_through-miss redis key ttl s s' (Cached.hospital h) miss)
          (ap (λ p. p.0)
            (read_through-hit redis key ttl late late _ (Cached.hospital h)
              (cache_get-hit redis key _ late kept))),
      rw row refl,
    )
