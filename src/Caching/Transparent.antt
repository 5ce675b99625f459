-- ===== src/Caching/Transparent.antt =====
-- The cached services next to the database alone.
use mathlib.Core.Path.{subst}
use res_q_server.Hospital.Defs.{CreateHospitalInput, insert_hospital}
use res_q_server.Common.{Bool, [], ap, nat_eq, none, refl, text_eq, true, ℕ, ◌∙◌, ◌∷◌, ◌≡◌}
use res_q_server.Caching.{CacheKey, Pattern, Redis, invalidate}
use res_q_server.Caching.Writes.{
  assign_hospital_operator_row-Writes, assign_operator-Writes, deactivate_hospital_row-Writes,
  deactivate_resource-Writes, remove_hospital_operator_row-Writes, remove_operator-Writes,
  update_hospital_row-Writes, update_resource-Writes,
}
use res_q_server.Caching.Fresh.{
  IsFresh, Read, cached_read, cached_read-IsFresh, direct_read, load, HasRowId,
}
use res_q_server.Caching.Created.{load-created_hospital, load-created_resource}
use res_q_server.Caching.Runs.{ServiceRun, ServiceStep, hospital-step, resource-step}
use res_q_server.Hospital.Service.{
  assign_hospital_operator, create_hospital, deactivate_hospital, list_hospitals, load_availability,
  load_hospital, remove_hospital_operator, update_hospital,
}
use res_q_server.Db.Tables.{
  assignment_row, find_unique, hospital_row, incident_row, outbox_row, resource_row, user_row,
}
use res_q_server.Resource.Reads.{list_resources, load_resource}
use res_q_server.Resource.{CreateResourceInput, create_resource}
use res_q_server.Caching.Entries.{Answers, KeepsEntries}
use res_q_server.Db.Rows.{
  Db, Hospital, Resource, assignment_status_eq, hospital_status_eq, incident_status_eq, level_eq,
  resource_status_eq, role_eq, user_status_eq,
}
use res_q_server.Caching.Coherent.{invalidate-IsFresh}

module _ {S : Type 0} (redis : Redis S) (laws : KeepsEntries redis) (answers : Answers redis) where
  created_hospital :
      (db : Db) (s : S) (id : ℕ) (input : CreateHospitalInput) {new : Hospital} {after : Db}
      {s' : S}
      → find_unique id db.hospitals ≡ none
      → create_hospital redis true id input db s ≡ (new, after, s')
      → IsFresh redis db s
      → IsFresh redis after s'
  unfolding create_hospital insert_hospital
  created_hospital db s id input {new} {after} {s'} absent e fresh =
      let made : Hospital × Db = insert_hospital id input db in
      subst (IsFresh redis after) (ap (λ p. p.2) e) (
        subst
          (λ d.
            IsFresh redis d
              (invalidate redis true (CacheKey.hospital_list ∷ []) Pattern.hospital_queries s))
          (ap (λ p. p.1) e)
          (invalidate-IsFresh redis laws answers (CacheKey.hospital_list ∷ [])
            Pattern.hospital_queries db made.1 s
            (λ k v unlisted unmatched.
              load-created_hospital made.0 db made.1 absent refl refl k v unmatched)
            fresh))

  created_resource :
      (db : Db) (s : S) (id : ℕ) (input : CreateResourceInput) {new : Resource} {after : Db}
      → find_unique id db.resources ≡ none
      → create_resource id input db ≡ (new, after)
      → IsFresh redis db s
      → IsFresh redis after
          (invalidate redis true (CacheKey.resource_list ∷ []) Pattern.resource_queries s)
  unfolding create_resource
  created_resource db s id input {new} {after} absent e fresh =
      let made : Resource × Db = create_resource id input db in
      subst
        (λ d.
          IsFresh redis d
            (invalidate redis true (CacheKey.resource_list ∷ []) Pattern.resource_queries s))
        (ap (λ p. p.1) e)
        (invalidate-IsFresh redis laws answers (CacheKey.resource_list ∷ [])
          Pattern.resource_queries db made.1 s
          (λ k v unlisted unmatched.
            load-created_resource made.0 db made.1 absent refl refl k v unmatched)
          fresh)

  load-same :
      (before after : Db)
      → after.hospitals ≡ before.hospitals
      → after.resources ≡ before.resources
      → (k : CacheKey) → load after k ≡ load before k
  unfolding load load_hospital load_availability load_resource list_hospitals list_resources
  load-same before after h r CacheKey.resource_list = refl
  load-same before after h r (CacheKey.resource_list_query t st p l) = rw r refl
  load-same before after h r (CacheKey.resource_by_id j) = rw r refl
  load-same before after h r CacheKey.hospital_list = refl
  load-same before after h r (CacheKey.hospital_list_query st p l) = rw h refl
  load-same before after h r (CacheKey.hospital_by_id j) = rw h refl
  load-same before after h r (CacheKey.hospital_availability j) = rw h refl

  step-IsFresh :
      {before after : Db} {s s' : S}
      → ServiceStep redis before s after s'
      → IsFresh redis before s
      → IsFresh redis after s'
  unfolding update_hospital assign_hospital_operator remove_hospital_operator deactivate_hospital
  step-IsFresh (ServiceStep.reads available ttl db s r e) fresh =
      subst (IsFresh redis db) e (cached_read-IsFresh redis laws available ttl db s r fresh).1
  step-IsFresh (ServiceStep.creates_hospital db s id input absent e) fresh =
      created_hospital db s id input absent e fresh
  step-IsFresh (ServiceStep.updates_hospital seen db s id input user e) fresh =
      hospital-step redis laws answers id db _ s e
        (update_hospital_row-Writes seen db id input user) fresh
  step-IsFresh (ServiceStep.assigns_hospital seen db s id operator_id e) fresh =
      hospital-step redis laws answers id db _ s e
        (assign_hospital_operator_row-Writes seen db id operator_id) fresh
  step-IsFresh (ServiceStep.frees_hospital seen db s id e) fresh =
      hospital-step redis laws answers id db _ s e (remove_hospital_operator_row-Writes seen db id)
        fresh
  step-IsFresh (ServiceStep.closes_hospital seen db s id e) fresh =
      hospital-step redis laws answers id db _ s e (deactivate_hospital_row-Writes seen db id) fresh
  step-IsFresh (ServiceStep.creates_resource db s id input {after = after} absent e invalidated)
        fresh =
      subst (IsFresh redis after) invalidated (created_resource db s id input absent e fresh)
  step-IsFresh (ServiceStep.updates_resource ev fe seen db s id input user_id role e) fresh =
      resource-step redis laws answers id db _ s e
        (update_resource-Writes ev fe seen db id input user_id role) fresh
  step-IsFresh (ServiceStep.assigns_resource seen db s id operator_id e) fresh =
      resource-step redis laws answers id db _ s e (assign_operator-Writes seen db id operator_id)
        fresh
  step-IsFresh (ServiceStep.frees_resource seen db s id e) fresh =
      resource-step redis laws answers id db _ s e (remove_operator-Writes seen db id) fresh
  step-IsFresh (ServiceStep.deactivates_resource seen db s id e) fresh =
      resource-step redis laws answers id db _ s e (deactivate_resource-Writes seen db id) fresh
  step-IsFresh (ServiceStep.elsewhere db after s h r) fresh =
      λ k v given. load-same db after h r k ∙ fresh k v given
  step-IsFresh (ServiceStep.expires db s s' vanish) fresh =
      λ k v given. fresh k v (vanish k v given)

  run-IsFresh :
      {start : Db} {s : S} {after : Db} {t : S}
      → ServiceRun redis start s after t
      → IsFresh redis start s
      → IsFresh redis after t
  run-IsFresh ServiceRun.here fresh = fresh
  run-IsFresh (ServiceRun.next calls call) fresh = step-IsFresh call (run-IsFresh calls fresh)

  -- The cache is transparent: after any sequence of calls of the hospital and resource services, one
  -- after the other, and of changes of the other tables, every listing, every availability, and
  -- every read by an id that a row may have gives what the database gives, also when the read meets
  -- a Redis that does not reply. Calls with other ids, whose key is the text of another key, may be
  -- among the calls, but their own results are not covered. It is asked that Redis keeps its
  -- documented laws and replies to every command of an invalidation, that a created row has a new
  -- id, and that the cache was fresh, for instance empty, at the start.
  pub run-cached_read :
      {start : Db} {s : S} {after : Db} {t : S} (available : Bool) (ttl : ℕ) (r : Read)
      → HasRowId r
      → ServiceRun redis start s after t
      → IsFresh redis start s
      → (cached_read redis available ttl t after t r).0 ≡ direct_read after r
  run-cached_read {after = after} {t = t} available ttl r row calls fresh =
      (cached_read-IsFresh redis laws available ttl after t r (run-IsFresh calls fresh)).0 row
