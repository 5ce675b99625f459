-- ===== src/Caching/Created.antt =====
-- A new row under a new id, and the entries of the other ids.
use mathlib.Core.Path.{subst}
use res_q_server.Common.{
  Bool-cases, List, Option-cases, app, false, inl, inr, nat_beq, nat_beq_iff, nat_eq, none,
  not_found, ok, or_throw, some, sym, text_eq, ℕ, ◌>>=◌, ◌∷◌, ◌≡◌,
}
use res_q_server.Caching.Fresh.{load}
use res_q_server.Caching.{CacheKey, Cached, Pattern, is_match}
use res_q_server.Db.Tables.{
  Row, assignment_row, find_unique, hospital_row, incident_row, outbox_row, resource_row, user_row,
}
use res_q_server.Db.Rows.{
  Db, Hospital, Resource, assignment_status_eq, hospital_status_eq, incident_status_eq, level_eq,
  resource_status_eq, role_eq, user_status_eq,
}
use res_q_server.Hospital.Service.{
  list_hospitals, load_availability, load_hospital, to_availability,
}
use res_q_server.Resource.Reads.{list_resources, load_resource}

find_unique-cons :
    {A : Type 0} ⦃row : Row A⦄ (j : ℕ) (new : A) (rows : List A) (a : A)
    → find_unique (row.key new) rows ≡ none
    → find_unique j rows ≡ some a
    → find_unique j (new ∷ rows) ≡ some a
unfolding find_unique
find_unique-cons ⦃row⦄ j new rows a fresh found = elim (Bool-cases (nat_beq (row.key new) j)) [
  | inl same ↦
      let there : find_unique (row.key new) rows ≡ some a =
        subst (λ k. find_unique k rows ≡ some a) (sym ((nat_beq_iff (row.key new) j).0 same))
          found in
      cc
  | inr other ↦ rw other found
]

-- What a read by id gives, it gives after the creation too.
load-cons :
    {A : Type 0} ⦃row : Row A⦄ (j : ℕ) (new : A) (rows : List A) (show : A → Cached) (v : Cached)
    → find_unique (row.key new) rows ≡ none
    → (or_throw (find_unique j rows) (app not_found) >>= λ a. ok (show a)) ≡ ok v
    → (or_throw (find_unique j (new ∷ rows)) (app not_found) >>= λ a. ok (show a)) ≡ ok v
load-cons j new rows show v fresh e = elim (Option-cases (find_unique j rows)) [
  | inl absent ↦ let refused = rw absent at e in cc
  | inr (a, found) ↦ rw (find_unique-cons j new rows a fresh found) (rw found at e)
]

-- A created hospital is a new row, and no resource changes; and the other way round.
pub load-created_hospital :
    (new : Hospital) (before after : Db)
    → find_unique new.id before.hospitals ≡ none
    → after.hospitals ≡ new ∷ before.hospitals
    → after.resources ≡ before.resources
    → (k : CacheKey) (v : Cached) → is_match Pattern.hospital_queries k ≡ false
    → load before k ≡ ok v
    → load after k ≡ ok v
unfolding load load_hospital load_availability load_resource list_resources
load-created_hospital new before after fresh h r CacheKey.resource_list v unmatched e = e
load-created_hospital new before after fresh h r (CacheKey.resource_list_query t st p l) v unmatched
      e =
    rw r e
load-created_hospital new before after fresh h r (CacheKey.resource_by_id j) v unmatched e = rw r e
load-created_hospital new before after fresh h r CacheKey.hospital_list v unmatched e = e
load-created_hospital new before after fresh h r (CacheKey.hospital_list_query st p l) v unmatched
      e =
    cc
load-created_hospital new before after fresh h r (CacheKey.hospital_by_id j) v unmatched e =
    rw h (load-cons j new before.hospitals Cached.hospital v fresh e)
load-created_hospital new before after fresh h r (CacheKey.hospital_availability j) v unmatched e =
    rw h (load-cons j new before.hospitals (λ x. Cached.availability (to_availability x)) v fresh e)

pub load-created_resource :
    (new : Resource) (before after : Db)
    → find_unique new.id before.resources ≡ none
    → after.resources ≡ new ∷ before.resources
    → after.hospitals ≡ before.hospitals
    → (k : CacheKey) (v : Cached) → is_match Pattern.resource_queries k ≡ false
    → load before k ≡ ok v
    → load after k ≡ ok v
unfolding load load_hospital load_availability load_resource list_hospitals
load-created_resource new before after fresh r h CacheKey.resource_list v unmatched e = e
load-created_resource new before after fresh r h (CacheKey.resource_list_query t st p l) v unmatched
      e =
    cc
load-created_resource new before after fresh r h (CacheKey.resource_by_id j) v unmatched e =
    rw r (load-cons j new before.resources Cached.resource v fresh e)
load-created_resource new before after fresh r h CacheKey.hospital_list v unmatched e = e
load-created_resource new before after fresh r h (CacheKey.hospital_list_query st p l) v unmatched
      e =
    rw h e
load-created_resource new before after fresh r h (CacheKey.hospital_by_id j) v unmatched e = rw h e
load-created_resource new before after fresh r h (CacheKey.hospital_availability j) v unmatched e =
    rw h e
