-- ===== src/Caching/Runs.antt =====
-- The services with the cache, and the database alone, seen by a client.
use mathlib.Core.Path.{subst}
use res_q_server.Common.{Bool, Result, [], ap, err, nat_eq, none, ok, text_eq, true, ℕ, ◌∷◌, ◌≡◌}
use res_q_server.Caching.{CacheKey, Cached, Pattern, Redis, invalidate}
use res_q_server.Hospital.Service.{
  after_hospital_write, assign_hospital_operator, create_hospital, deactivate_hospital,
  hospital_keys, remove_hospital_operator, update_hospital,
}
use res_q_server.Db.Rows.{
  Db, Hospital, Resource, Role, assignment_status_eq, hospital_status_eq, incident_status_eq,
  level_eq, resource_status_eq, role_eq, user_status_eq,
}
use res_q_server.Hospital.Defs.{CreateHospitalInput, UpdateHospitalInput}
use res_q_server.Caching.Entries.{Answers, Gives, KeepsEntries}
use res_q_server.Resource.{
  CreateResourceInput, UpdateResourceInput, assign_operator, create_resource, deactivate_resource,
  remove_operator, update_resource,
}
use res_q_server.Caching.Fresh.{IsFresh, Read, cached_read}
use res_q_server.Access.{AuthUser}
use res_q_server.Resource.Reads.{after_resource_write, resource_keys}
use res_q_server.Caching.Writes.{WritesHospital, WritesResource}
use res_q_server.Caching.Coherent.{invalidate-IsFresh, load-hospital, load-resource}
use res_q_server.Db.Tables.{
  assignment_row, find_unique, hospital_row, incident_row, outbox_row, resource_row, user_row,
}

-- One call, or something else that happens, between two states of the tables and of the store. The
-- checks of a write may have read other tables. A call that fails changes neither.
pub data ServiceStep {S : Type 0} (redis : Redis S) : Db → S → Db → S → Type 0 where
  reads :
      (available : Bool) (ttl : ℕ) (db : Db) (s : S) (r : Read) {s' : S}
      → (cached_read redis available ttl s db s r).1 ≡ s'
      → ServiceStep redis db s db s'
  creates_hospital :
      (db : Db) (s : S) (id : ℕ) (input : CreateHospitalInput) {new : Hospital} {after : Db}
      {s' : S}
      → find_unique id db.hospitals ≡ none
      → create_hospital redis true id input db s ≡ (new, after, s')
      → ServiceStep redis db s after s'
  updates_hospital :
      (seen db : Db) (s : S) (id : ℕ) (input : UpdateHospitalInput) (user : AuthUser) {after : Db}
      {s' : S}
      → update_hospital redis true seen db id input user s ≡ (ok after, s')
      → ServiceStep redis db s after s'
  assigns_hospital :
      (seen db : Db) (s : S) (id operator_id : ℕ) {after : Db} {s' : S}
      → assign_hospital_operator redis true seen db id operator_id s ≡ (ok after, s')
      → ServiceStep redis db s after s'
  frees_hospital :
      (seen db : Db) (s : S) (id : ℕ) {after : Db} {s' : S}
      → remove_hospital_operator redis true seen db id s ≡ (ok after, s')
      → ServiceStep redis db s after s'
  closes_hospital :
      (seen db : Db) (s : S) (id : ℕ) {after : Db} {s' : S}
      → deactivate_hospital redis true seen db id s ≡ (ok after, s')
      → ServiceStep redis db s after s'
  creates_resource :
      (db : Db) (s : S) (id : ℕ) (input : CreateResourceInput) {new : Resource} {after : Db}
      {s' : S}
      → find_unique id db.resources ≡ none
      → create_resource id input db ≡ (new, after)
      → invalidate redis true (CacheKey.resource_list ∷ []) Pattern.resource_queries s ≡ s'
      → ServiceStep redis db s after s'
  updates_resource :
      (event_id failure_event_id : ℕ) (seen db : Db) (s : S) (id : ℕ) (input : UpdateResourceInput)
      (user_id : ℕ) (role : Role) {after : Db} {s' : S}
      → after_resource_write redis true id
          (update_resource event_id failure_event_id seen db id input user_id role)
          s
        ≡ (ok after, s')
      → ServiceStep redis db s after s'
  assigns_resource :
      (seen db : Db) (s : S) (id operator_id : ℕ) {after : Db} {s' : S}
      → after_resource_write redis true id (assign_operator seen db id operator_id) s
        ≡ (ok after, s')
      → ServiceStep redis db s after s'
  frees_resource :
      (seen db : Db) (s : S) (id : ℕ) {after : Db} {s' : S}
      → after_resource_write redis true id (remove_operator seen db id) s ≡ (ok after, s')
      → ServiceStep redis db s after s'
  deactivates_resource :
      (seen db : Db) (s : S) (id : ℕ) {after : Db} {s' : S}
      → after_resource_write redis true id (deactivate_resource seen db id) s ≡ (ok after, s')
      → ServiceStep redis db s after s'
  elsewhere :
      (db after : Db) (s : S)
      → after.hospitals ≡ db.hospitals
      → after.resources ≡ db.resources
      → ServiceStep redis db s after s
  expires :
      (db : Db) (s s' : S)
      → ((k : CacheKey) (v : Cached) → Gives redis s' k v → Gives redis s k v)
      → ServiceStep redis db s db s'

pub data ServiceRun {S : Type 0} (redis : Redis S) (start : Db) (s : S) : Db → S → Type 0 where
  here : ServiceRun redis start s start s
  next :
      {before after : Db} {t u : S}
      → ServiceRun redis start s before t
      → ServiceStep redis before t after u
      → ServiceRun redis start s after u

module _ {S : Type 0} (redis : Redis S) where
  pub hospital_write-ok :
      (id : ℕ) (r : Result Db) (s : S) {after : Db} {s' : S}
      → after_hospital_write redis true id r s ≡ (ok after, s')
      → (r ≡ ok after) × (invalidate redis true (hospital_keys id) Pattern.hospital_queries s ≡ s')
  unfolding after_hospital_write
  hospital_write-ok id (err e) s h = cc (ap (λ p. p.0) h)
  hospital_write-ok id (ok db) s h = (ap (λ p. p.0) h, ap (λ p. p.1) h)

  resource_write-ok :
      (id : ℕ) (r : Result Db) (s : S) {after : Db} {s' : S}
      → after_resource_write redis true id r s ≡ (ok after, s')
      → (r ≡ ok after) × (invalidate redis true (resource_keys id) Pattern.resource_queries s ≡ s')
  unfolding after_resource_write
  resource_write-ok id (err e) s h = cc (ap (λ p. p.0) h)
  resource_write-ok id (ok db) s h = (ap (λ p. p.0) h, ap (λ p. p.1) h)

module _ {S : Type 0} (redis : Redis S) (laws : KeepsEntries redis) (answers : Answers redis) where
  pub hospital-step :
      (id : ℕ) (before : Db) (r : Result Db) (s : S) {after : Db} {s' : S}
      → after_hospital_write redis true id r s ≡ (ok after, s')
      → (r ≡ ok after → WritesHospital id before after)
      → IsFresh redis before s
      → IsFresh redis after s'
  hospital-step id before r s {after} h writes fresh =
      let (e, invalidated) = hospital_write-ok redis id r s h in
      subst (IsFresh redis after) invalidated (
        invalidate-IsFresh redis laws answers (hospital_keys id) Pattern.hospital_queries before
          after s (load-hospital redis laws answers id before after (writes e)) fresh)

  pub resource-step :
      (id : ℕ) (before : Db) (r : Result Db) (s : S) {after : Db} {s' : S}
      → after_resource_write redis true id r s ≡ (ok after, s')
      → (r ≡ ok after → WritesResource id before after)
      → IsFresh redis before s
      → IsFresh redis after s'
  resource-step id before r s {after} h writes fresh =
      let (e, invalidated) = resource_write-ok redis id r s h in
      subst (IsFresh redis after) invalidated (
        invalidate-IsFresh redis laws answers (resource_keys id) Pattern.resource_queries before
          after s (load-resource redis laws answers id before after (writes e)) fresh)
