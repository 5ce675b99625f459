-- ===== src/Caching.antt =====
-- src/cache/cache.interface.ts and cache.service.ts: the cache that the services share. The client
-- of Redis is an argument, a record of the commands that the program sends.
pub mod Entries
pub mod Fresh
pub mod Writes
pub mod Coherent
pub mod Created
pub mod Runs
pub mod Transparent
pub mod Stale
use res_q_server.Common.{
  Bool, List, Option, Text, [], false, if◌then◌else◌, none, some, true, ℕ, ◌∷◌, Result, err, ok,
}
use res_q_server.Db.Rows.{Hospital, HospitalStatus, Resource, ResourceStatus}
use res_q_server.Pagination.{PaginatedResult}

pub record Availability : Type 0 where
  pub id : ℕ
  pub name : Text
  pub status : HospitalStatus
  pub bed_capacity : ℕ
  pub available_beds : ℕ
  pub icu_capacity : ℕ
  pub available_icu_beds : ℕ

-- CacheKeys. The texts of two keys with the same constructor are the same only for the same
-- arguments. An id that the database has given a row has no colon in it, so the texts of two keys
-- with such ids are the same only if the constructors are; `RequestId` is about the other ids.
pub data CacheKey : Type 0 where
  resource_list : CacheKey
  resource_list_query :
      (type : Option Text) (status : Option ResourceStatus) (page limit : ℕ) → CacheKey
  resource_by_id : ℕ → CacheKey
  hospital_list : CacheKey
  hospital_list_query : (status : Option HospitalStatus) (page limit : ℕ) → CacheKey
  hospital_by_id : ℕ → CacheKey
  hospital_availability : ℕ → CacheKey

-- The id in the path of a request, which may be any text: one that a row may have, or a text with a
-- colon with which `resource:${id}` or `hospital:${id}` is the text of another key, for instance
-- `50:availability` or `list:s:_p:1_l:20`. No row has the latter.
pub data RequestId : Type 0 where
  row_id : ℕ → RequestId
  alias : CacheKey → RequestId

-- The key of a row's kind for the id of a request.
abbrev pub requested_key : (by_id : ℕ → CacheKey) → RequestId → CacheKey
requested_key by_id (RequestId.row_id id) = by_id id
requested_key by_id (RequestId.alias key) = key

-- The values that are stored as JSON.
pub data Cached : Type 0 where
  resource : Resource → Cached
  resources : PaginatedResult Resource → Cached
  hospital : Hospital → Cached
  availability : Availability → Cached
  hospitals : PaginatedResult Hospital → Cached

-- 'resource:list:*' and 'hospital:list:*'
pub data Pattern : Type 0 where
  resource_queries hospital_queries : Pattern

-- What a pattern matches.
abbrev pub is_match : Pattern → CacheKey → Bool
is_match Pattern.resource_queries (CacheKey.resource_list_query t s p l) = true
is_match Pattern.hospital_queries (CacheKey.hospital_list_query s p l) = true
is_match _ _ = false

-- The commands of the client, on the store of the server. A `get` without a reply is `none`; a write
-- says whether it was replied to; `scan` gives the replies of one iteration, up to the cursor '0'.
pub record Redis (S : Type 0) : Type 0 where
  pub get : CacheKey → S → Option (Option Cached)
  pub set : CacheKey → Cached → (ttl : ℕ) → S → Bool × S
  pub del : List CacheKey → S → Bool × S
  pub scan : Pattern → S → List (Option (List CacheKey))

-- RedisCacheService, with the flag `_available`; NullCacheService is a service whose flag is off.
module _ {S : Type 0} (redis : Redis S) (available : Bool) where
  -- get: null on a miss and on an error
  unfoldable pub cache_get : CacheKey → S → Option Cached
  cache_get key s =
      if available then elim (redis.get key s) [ none ↦ none | some reply ↦ reply ] else none

  -- set: an error is only logged
  unfoldable pub cache_set : CacheKey → Cached → (ttl : ℕ) → S → S
  cache_set key value ttl s = if available then (redis.set key value ttl s).1 else s

  -- del
  unfoldable pub cache_del : List CacheKey → S → S
  cache_del [] s = s
  cache_del (k ∷ keys) s = if available then (redis.del (k ∷ keys) s).1 else s

  -- The loop of delPattern over the replies of SCAN; the first error ends it.
  unfoldable pub del_pages : List (Option (List CacheKey)) → S → S
  del_pages [] s = s
  del_pages (none ∷ pages) s = s
  del_pages (some [] ∷ pages) s = del_pages pages s
  del_pages (some (k ∷ keys) ∷ pages) s =
      let (replied, s') = redis.del (k ∷ keys) s in
      let rest = del_pages pages s' in if replied then rest else s'

  -- delPattern
  unfoldable pub cache_del_pattern : Pattern → S → S
  unfolding del_pages
  cache_del_pattern pattern s = if available then del_pages (redis.scan pattern s) s else s

  -- The two deletions that follow every write of a service.
  unfoldable pub invalidate : List CacheKey → Pattern → S → S
  unfolding cache_del cache_del_pattern
  invalidate keys pattern s = cache_del_pattern pattern (cache_del keys s)

  -- What a read stores when it missed.
  unfoldable pub store_loaded : CacheKey → (ttl : ℕ) → Result Cached → S → Result Cached × S
  unfolding cache_set
  store_loaded key ttl (err e) s = (err e, s)
  store_loaded key ttl (ok value) s = (ok value, cache_set key value ttl s)

  -- Cache-aside: the cache that the GET meets, what the database gives after a miss, and the cache
  -- that the SET meets.
  unfoldable pub read_through :
      CacheKey
      → (ttl : ℕ) → (checked : S) → (loaded : Result Cached) → (met : S) → Result Cached × S
  unfolding cache_get store_loaded
  read_through key ttl checked loaded met = elim (cache_get key checked) [
    | some value ↦ (ok value, met)
    | none ↦ store_loaded key ttl loaded met
  ]
