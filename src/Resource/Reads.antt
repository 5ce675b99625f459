-- ===== src/Resource/Reads.antt =====
-- src/modules/resource/resource.service.ts: the reads, and the invalidation after the writes.
use res_q_server.Db.Rows.{
  Db, Resource, ResourceStatus, Role, assignment_status_eq, hospital_status_eq, incident_status_eq,
  level_eq, resource_status_eq, role_eq, user_status_eq,
}
use res_q_server.Db.Tables.{
  assignment_row, find_unique, hospital_row, incident_row, outbox_row, resource_row, user_row,
}
use res_q_server.Common.{
  Bool, List, Option, Result, Text, [], app, err, filter, nat_eq, none, not_found, ok, or_throw,
  some, text_eq, ℕ, ◌&&◌, ◌>>=◌, ◌∷◌,
}
use res_q_server.Caching.{
  CacheKey, Cached, Pattern, Redis, invalidate, read_through, RequestId, requested_key,
}
use res_q_server.Pagination.{PaginatedResult, PaginationParams, matches, paginate}
use res_q_server.Access.{AuthUser}
use res_q_server.Resource.{serves_operator}

-- The query of getResources, newest first as `orderBy` asks; `none` is no restriction.
pub record ResourceFilters : Type 0 where
  pub type : Option Text
  pub status : Option ResourceStatus

unfoldable pub list_resources :
    Db → ResourceFilters → (operator_id : Option ℕ) → PaginationParams → PaginatedResult Resource
unfolding paginate
list_resources db filters operator_id pagination = paginate pagination (
    filter
      (λ (r : Resource).
        matches filters.type r.type
        && matches filters.status r.status
        && serves_operator operator_id r.operator_id)
      db.resources)

unfoldable pub load_resource : Db → ℕ → Result Cached
load_resource db id = do
  r ← or_throw (find_unique id db.resources) (app not_found)
  ok (Cached.resource r)

-- findUnique by the id of a request
unfoldable pub load_requested_resource : Db → RequestId → Result Cached
unfolding load_resource
load_requested_resource db (RequestId.row_id id) = load_resource db id
load_requested_resource db (RequestId.alias key) = err (app not_found)

abbrev pub resource_keys : ℕ → List CacheKey
resource_keys id = CacheKey.resource_by_id id ∷ CacheKey.resource_list ∷ []

module _ {S : Type 0} (redis : Redis S) (available : Bool) where
  -- The invalidation that ends updateResource, assignOperator, removeOperator and
  -- deactivateResource, if the write succeeded.
  unfoldable pub after_resource_write : ℕ → Result Db → S → Result Db × S
  unfolding invalidate
  after_resource_write id (err e) s = (err e, s)
  after_resource_write id (ok db) s =
      (ok db, invalidate redis available (resource_keys id) Pattern.resource_queries s)

  -- getResources: what an OPERATOR sees is read from the database and not stored.
  abbrev listed_resources :
      Role → Db → ResourceFilters → PaginationParams → ℕ → (checked met : S) → Result Cached × S
  listed_resources Role.operator db filters p user_id checked met =
      (ok (Cached.resources (list_resources db filters (some user_id) p)), met)
  listed_resources role db filters p user_id checked met =
      read_through redis available
        (CacheKey.resource_list_query filters.type filters.status p.page p.limit) 300 checked
        (ok (Cached.resources (list_resources db filters none p))) met

  unfoldable pub get_resources :
      (checked : S) (seen : Db) (met : S)
      → ResourceFilters
      → PaginationParams
      → AuthUser
      → Result Cached × S
  unfolding list_resources read_through
  get_resources checked seen met filters p user =
      listed_resources user.role seen filters p user.user_id checked met

  unfoldable pub get_resource_by_id :
      (default_ttl : ℕ) (checked : S) (seen : Db) (met : S) → RequestId → Result Cached × S
  unfolding load_requested_resource read_through
  get_resource_by_id default_ttl checked seen met id =
      read_through redis available (requested_key CacheKey.resource_by_id id) default_ttl checked
        (load_requested_resource seen id) met
