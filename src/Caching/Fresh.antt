-- ===== src/Caching/Fresh.antt =====
-- The reads through the cache, next to the same reads of the database.
use mathlib.Core.Path.{subst}
use res_q_server.Common.{
  Bool, Result, app, arith, err, none, not_found, ok, some, ℕ, ◌≡◌, Option, Option-cases, ap,
  if-cases, inl, inr, max, refl, sym, ◌/◌, ◌∙◌, Error,
}
use res_q_server.Resource.Reads.{
  list_resources, load_resource, ResourceFilters, get_resource_by_id, get_resources,
  load_requested_resource,
}
use res_q_server.Caching.Entries.{Gives, KeepsEntries}
use res_q_server.Hospital.Service.{
  list_hospitals, load_availability, load_hospital, get_hospital_availability, get_hospital_by_id,
  get_hospitals, load_requested_hospital,
}
use res_q_server.Caching.{
  CacheKey, Cached, Redis, cache_get, read_through, cache_set, store_loaded, RequestId,
}
use res_q_server.Db.Rows.{Db, HospitalStatus, Role}
use res_q_server.Access.{AuthUser}
use res_q_server.Pagination.{PaginationParams}

-- What a read of the database gives for a key. Nothing is ever stored under the two plain lists.
unfoldable pub load : Db → CacheKey → Result Cached
unfolding list_resources list_hospitals load_resource load_hospital load_availability
load db CacheKey.resource_list = err (app not_found)
load db (CacheKey.resource_list_query type status page limit) = ok (
    Cached.resources (
      list_resources db (record { type = type; status = status }) none
        (record { page = page; limit = limit })))
load db (CacheKey.resource_by_id id) = load_resource db id
load db CacheKey.hospital_list = err (app not_found)
load db (CacheKey.hospital_list_query status page limit) =
    ok (Cached.hospitals (list_hospitals db status none (record { page = page; limit = limit })))
load db (CacheKey.hospital_by_id id) = load_hospital db id
load db (CacheKey.hospital_availability id) = load_availability db id

module _ {S : Type 0} (redis : Redis S) where
  -- Every entry is what the database gives now.
  abbrev pub IsFresh : Db → S → Type 0
  IsFresh db s = (k : CacheKey) (v : Cached) → Gives redis s k v → load db k ≡ ok v

module _ {S : Type 0} (redis : Redis S) (laws : KeepsEntries redis) (available : Bool) where
  cache_get-Gives :
      (k : CacheKey) (v : Cached) (s : S)
      → cache_get redis available k s ≡ some v
      → Gives redis s k v
  unfolding cache_get
  cache_get-Gives k v s h = ground arith

  cache_set-IsFresh :
      (db : Db) (k : CacheKey) (v : Cached) (ttl : ℕ) (s : S)
      → load db k ≡ ok v
      → IsFresh redis db s
      → IsFresh redis db (cache_set redis available k v ttl s)
  unfolding cache_set
  cache_set-IsFresh db k v ttl s e fresh =
      if-cases (IsFresh redis db) available
        (λ up j w given. elim (laws.set_gives k j v w ttl s given) [
          | inl (key, value) ↦ subst (λ j'. load db j' ≡ ok w) (sym key) (e ∙ ap ok (sym value))
          | inr before ↦ fresh j w before
        ])
        (λ down. fresh)

  store_loaded-IsFresh :
      (db : Db) (k : CacheKey) (ttl : ℕ) (s : S) (loaded : Result Cached)
      → load db k ≡ loaded
      → IsFresh redis db s
      → ((store_loaded redis available k ttl loaded s).0 ≡ loaded)
        × IsFresh redis db (store_loaded redis available k ttl loaded s).1
  unfolding store_loaded
  store_loaded-IsFresh db k ttl s (err thrown) e fresh = (refl, fresh)
  store_loaded-IsFresh db k ttl s (ok v) e fresh = (refl, cache_set-IsFresh db k v ttl s e fresh)

  -- A read of one key, with the cache and the tables as they are, gives what the database gives,
  -- and leaves a fresh cache.
  pub read_through-IsFresh :
      (db : Db) (k : CacheKey) (ttl : ℕ) (s : S)
      → IsFresh redis db s
      → ((read_through redis available k ttl s (load db k) s).0 ≡ load db k)
        × IsFresh redis db (read_through redis available k ttl s (load db k) s).1
  unfolding read_through
  read_through-IsFresh db k ttl s fresh = elim (Option-cases (cache_get redis available k s)) [
    | inl miss ↦ rw (miss, read_through) (store_loaded-IsFresh db k ttl s (load db k) refl fresh)
    | inr (v, hit) ↦ rw (hit, read_through) (sym (fresh k v (cache_get-Gives k v s hit)), fresh)
  ]

-- The reads of the two services.
pub data Read : Type 0 where
  hospitals : Option HospitalStatus → PaginationParams → AuthUser → Read
  hospital : RequestId → Read
  availability : ℕ → Read
  resources : ResourceFilters → PaginationParams → AuthUser → Read
  resource : RequestId → Read

-- The id of the read is one that a row may have.
abbrev pub HasRowId : Read → Type 0
HasRowId (Read.hospital (RequestId.alias key)) = ⊥
HasRowId (Read.resource (RequestId.alias key)) = ⊥
HasRowId _ = Unit

-- The same reads without a cache: an OPERATOR is shown the own rows only.
abbrev pub restriction : Role → ℕ → Option ℕ
restriction Role.operator user_id = some user_id
restriction role user_id = none

abbrev pub direct_read : Db → Read → Result Cached
direct_read db (Read.hospitals status p user) =
    ok (Cached.hospitals (list_hospitals db status (restriction user.role user.user_id) p))
direct_read db (Read.hospital id) = load_requested_hospital db id
direct_read db (Read.availability id) = load_availability db id
direct_read db (Read.resources filters p user) =
    ok (Cached.resources (list_resources db filters (restriction user.role user.user_id) p))
direct_read db (Read.resource id) = load_requested_resource db id

module _ {S : Type 0} (redis : Redis S) (available : Bool) where
  abbrev pub cached_read :
      (default_ttl : ℕ) → (checked : S) → Db → (met : S) → Read → Result Cached × S
  cached_read ttl checked db met (Read.hospitals status p user) =
      get_hospitals redis available checked db met status p user
  cached_read ttl checked db met (Read.hospital id) =
      get_hospital_by_id redis available ttl checked db met id
  cached_read ttl checked db met (Read.availability id) =
      get_hospital_availability redis available ttl checked db met id
  cached_read ttl checked db met (Read.resources filters p user) =
      get_resources redis available checked db met filters p user
  cached_read ttl checked db met (Read.resource id) =
      get_resource_by_id redis available ttl checked db met id

module _ {S : Type 0} (redis : Redis S) (laws : KeepsEntries redis) (available : Bool) where
  hospitals-IsFresh :
      (db : Db) (status : Option HospitalStatus) (p : PaginationParams) (role : Role) (user_id : ℕ)
      (s : S)
      → IsFresh redis db s
      → let got =
          get_hospitals redis available s db s status p
            (record { user_id = user_id; role = role }) in
        (got.0 ≡ ok (Cached.hospitals (list_hospitals db status (restriction role user_id) p)))
        × IsFresh redis db got.1
  unfolding get_hospitals load
  hospitals-IsFresh db status p Role.operator user_id s fresh = (refl, fresh)
  hospitals-IsFresh db status p role user_id s fresh =
      read_through-IsFresh redis laws available db
        (CacheKey.hospital_list_query status p.page p.limit) 300 s fresh

  resources-IsFresh :
      (db : Db) (filters : ResourceFilters) (p : PaginationParams) (role : Role) (user_id : ℕ)
      (s : S)
      → IsFresh redis db s
      → let got =
          get_resources redis available s db s filters p
            (record { user_id = user_id; role = role }) in
        (got.0 ≡ ok (Cached.resources (list_resources db filters (restriction role user_id) p)))
        × IsFresh redis db got.1
  unfolding get_resources load
  resources-IsFresh db filters p Role.operator user_id s fresh = (refl, fresh)
  resources-IsFresh db filters p role user_id s fresh =
      read_through-IsFresh redis laws available db
        (CacheKey.resource_list_query filters.type filters.status p.page p.limit) 300 s fresh

  -- A read under the text of another key stores nothing.
  alias-IsFresh :
      (db : Db) (k : CacheKey) (ttl : ℕ) (s : S) (e : Error)
      → IsFresh redis db s
      → IsFresh redis db (read_through redis available k ttl s (err e) s).1
  unfolding read_through store_loaded
  alias-IsFresh db k ttl s e fresh = elim (Option-cases (cache_get redis available k s)) [
    | inl miss ↦ rw (miss, read_through) fresh
    | inr (v, hit) ↦ rw (hit, read_through) fresh
  ]

  -- On a fresh cache every read leaves the cache fresh, and one with the id of a row gives what the
  -- database gives.
  pub cached_read-IsFresh :
      (ttl : ℕ) (db : Db) (s : S) (r : Read)
      → IsFresh redis db s
      → (HasRowId r → (cached_read redis available ttl s db s r).0 ≡ direct_read db r)
        × IsFresh redis db (cached_read redis available ttl s db s r).1
  unfolding get_hospital_by_id get_hospital_availability get_resource_by_id load
      load_requested_hospital load_requested_resource
  cached_read-IsFresh ttl db s (Read.hospitals status p user) fresh =
      let h = hospitals-IsFresh db status p user.role user.user_id s fresh in (λ _. h.0, h.1)
  cached_read-IsFresh ttl db s (Read.hospital (RequestId.row_id id)) fresh =
      let h =
        read_through-IsFresh redis laws available db (CacheKey.hospital_by_id id) ttl s fresh in
      (λ _. h.0, h.1)
  cached_read-IsFresh ttl db s (Read.hospital (RequestId.alias k)) fresh =
      (λ never. absurd never, alias-IsFresh db k ttl s (app not_found) fresh)
  cached_read-IsFresh ttl db s (Read.availability id) fresh =
      let h =
        read_through-IsFresh redis laws available db (CacheKey.hospital_availability id)
          (max 1 (ttl / 2)) s fresh in
      (λ _. h.0, h.1)
  cached_read-IsFresh ttl db s (Read.resources filters p user) fresh =
      let h = resources-IsFresh db filters p user.role user.user_id s fresh in (λ _. h.0, h.1)
  cached_read-IsFresh ttl db s (Read.resource (RequestId.row_id id)) fresh =
      let h =
        read_through-IsFresh redis laws available db (CacheKey.resource_by_id id) ttl s fresh in
      (λ _. h.0, h.1)
  cached_read-IsFresh ttl db s (Read.resource (RequestId.alias k)) fresh =
      (λ never. absurd never, alias-IsFresh db k ttl s (app not_found) fresh)
