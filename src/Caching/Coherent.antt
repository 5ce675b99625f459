-- ===== src/Caching/Coherent.antt =====
-- The entries of the cache after a write of the two services.
use res_q_server.Caching.Entries.{Answers, KeepsEntries, Lists, invalidate-Gives}
use res_q_server.Hospital.Service.{hospital_keys, list_hospitals, load_availability, load_hospital}
use res_q_server.Caching.{CacheKey, Cached, Pattern, Redis, invalidate, is_match}
use res_q_server.Common.{
  List, ap, false, inl, inr, nat_eq, not-beq, ok, refl, text_eq, true, ℕ, ◌∙◌, ◌≡◌, ◌≢◌,
}
use res_q_server.Caching.Fresh.{IsFresh, load}
use res_q_server.Db.Tables.{
  Row, assignment_row, find_unique, find_unique-set_row, hospital_row, incident_row, outbox_row,
  resource_row, set_row, user_row,
}
use res_q_server.Caching.Writes.{WritesHospital, WritesResource}
use res_q_server.Resource.Reads.{list_resources, load_resource, resource_keys}
use res_q_server.Db.Rows.{
  Db, assignment_status_eq, hospital_status_eq, incident_status_eq, level_eq, resource_status_eq,
  role_eq, user_status_eq,
}

module _ {S : Type 0} (redis : Redis S) (laws : KeepsEntries redis) (answers : Answers redis) where
  -- An invalidation keeps the cache fresh if the write changed only what its keys and its pattern
  -- name.
  pub invalidate-IsFresh :
      (keys : List CacheKey) (pattern : Pattern) (before after : Db) (s : S)
      → ((k : CacheKey) (v : Cached)
          → ¬ Lists keys k
          → is_match pattern k ≡ false
          → load before k ≡ ok v
          → load after k ≡ ok v)
      → IsFresh redis before s
      → IsFresh redis after (invalidate redis true keys pattern s)
  invalidate-IsFresh keys pattern before after s stays fresh k v given =
      let (there, unlisted, unmatched) =
        invalidate-Gives redis laws keys pattern k v s answers given in
      stays k v unlisted unmatched (fresh k v there)

  same_row :
      {A : Type 0} ⦃row : Row A⦄ (id j : ℕ) (f : A → A) (rows : List A)
      → ((a : A) → row.key (f a) ≡ row.key a)
      → id ≢ j
      → find_unique j (set_row id f rows) ≡ find_unique j rows
  same_row id j f rows keeps other =
      find_unique-set_row id j f rows keeps ∙ rw (not-beq id j other) refl

  pub load-hospital :
      (id : ℕ) (before after : Db)
      → WritesHospital id before after
      → (k : CacheKey) (v : Cached) → ¬ Lists (hospital_keys id) k
      → is_match Pattern.hospital_queries k ≡ false
      → load before k ≡ ok v
      → load after k ≡ ok v
  unfolding load load_hospital load_availability load_resource list_resources
  load-hospital id before after w CacheKey.resource_list v unlisted unmatched e = e
  load-hospital id before after w (CacheKey.resource_list_query t st p l) v unlisted unmatched e =
      rw w.resources e
  load-hospital id before after w (CacheKey.resource_by_id j) v unlisted unmatched e =
      rw w.resources e
  load-hospital id before after w CacheKey.hospital_list v unlisted unmatched e = e
  load-hospital id before after w (CacheKey.hospital_list_query st p l) v unlisted unmatched e = cc
  load-hospital id before after w (CacheKey.hospital_by_id j) v unlisted unmatched e =
      rw
        (
          w.hospitals,
          same_row id j w.change before.hospitals w.keeps_id
              (λ same. unlisted (inl (ap CacheKey.hospital_by_id same))),
        )
        e
  load-hospital id before after w (CacheKey.hospital_availability j) v unlisted unmatched e =
      rw
        (
          w.hospitals,
          same_row id j w.change before.hospitals w.keeps_id
              (λ same. unlisted (inr (inl (ap CacheKey.hospital_availability same)))),
        )
        e

  pub load-resource :
      (id : ℕ) (before after : Db)
      → WritesResource id before after
      → (k : CacheKey) (v : Cached) → ¬ Lists (resource_keys id) k
      → is_match Pattern.resource_queries k ≡ false
      → load before k ≡ ok v
      → load after k ≡ ok v
  unfolding load load_hospital load_availability load_resource list_hospitals
  load-resource id before after w CacheKey.resource_list v unlisted unmatched e = e
  load-resource id before after w (CacheKey.resource_list_query t st p l) v unlisted unmatched e =
      cc
  load-resource id before after w (CacheKey.resource_by_id j) v unlisted unmatched e =
      rw
        (
          w.resources,
          same_row id j w.change before.resources w.keeps_id
              (λ same. unlisted (inl (ap CacheKey.resource_by_id same))),
        )
        e
  load-resource id before after w CacheKey.hospital_list v unlisted unmatched e = e
  load-resource id before after w (CacheKey.hospital_list_query st p l) v unlisted unmatched e =
      rw w.hospitals e
  load-resource id before after w (CacheKey.hospital_by_id j) v unlisted unmatched e =
      rw w.hospitals e
  load-resource id before after w (CacheKey.hospital_availability j) v unlisted unmatched e =
      rw w.hospitals e
