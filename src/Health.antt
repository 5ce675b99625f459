-- ===== src/Health.antt =====
-- src/health/health.service.ts: the readiness check. Whether a ping is answered in time is an
-- argument; latencies and messages are left out.
use res_q_server.Common.{
  Bool, Option, false, if◌then◌else◌, nat_eq, none, refl, some, text_eq, true, ℕ, ◌==◌, ◌||◌, ◌↔◌,
  ◌≡◌, arith,
}
use res_q_server.Db.Rows.{
  assignment_status_eq, hospital_status_eq, incident_status_eq, level_eq, resource_status_eq,
  role_eq, user_status_eq,
}
use res_q_server.Db.Tables.{
  assignment_row, hospital_row, incident_row, outbox_row, resource_row, user_row,
}

pub data DependencyStatus : Type 0 where
  up down degraded : DependencyStatus

pub data ReadinessStatus : Type 0 where
  ready not_ready degraded : ReadinessStatus

pub record ReadinessResult : Type 0 where
  pub status : ReadinessStatus
  pub database : DependencyStatus
  pub redis : DependencyStatus
  pub cache : DependencyStatus

-- checkDatabase
abbrev pub check_database : (answers : Bool) → DependencyStatus
check_database answers = if answers then DependencyStatus.up else DependencyStatus.down

-- checkRedis
abbrev pub check_redis : (answers : Bool) → DependencyStatus
check_redis answers = if answers then DependencyStatus.up else DependencyStatus.degraded

-- checkCache: the number that the cache gives back after `set('health:ping', 1)`
abbrev pub check_cache : (available : Bool) → (pong : Option ℕ) → DependencyStatus
check_cache false pong = DependencyStatus.degraded
check_cache true none = DependencyStatus.degraded
check_cache true (some n) = if n == 1 then DependencyStatus.up else DependencyStatus.degraded

abbrev pub is_down : DependencyStatus → Bool
is_down DependencyStatus.down = true
is_down _ = false

abbrev pub is_degraded : DependencyStatus → Bool
is_degraded DependencyStatus.degraded = true
is_degraded _ = false

-- getReadinessStatus
unfoldable pub get_readiness_status :
    (database_answers redis_answers available : Bool) (pong : Option ℕ) → ReadinessResult
get_readiness_status database_answers redis_answers available pong =
    let database = check_database database_answers in
    let redis = check_redis redis_answers in
    let cache = check_cache available pong in
    record {
      status =
          if is_down database
          then ReadinessStatus.not_ready
          else if is_degraded redis || is_degraded cache
          then ReadinessStatus.degraded
          else ReadinessStatus.ready;
      database = database;
      redis = redis;
      cache = cache;
    }

-- The service is not ready exactly if the database does not answer, whatever Redis and the cache do;
-- and ready exactly if the database, Redis and the cache all answer, the cache with the 1 that was
-- stored.
pub get_readiness_status_iff :
    (database_answers redis_answers available : Bool) (pong : Option ℕ)
    → let r = get_readiness_status database_answers redis_answers available pong in
      ((r.status ≡ ReadinessStatus.not_ready) ↔ (database_answers ≡ false))
      × ((r.status ≡ ReadinessStatus.ready) ↔ (
          (database_answers ≡ true)
          × (redis_answers ≡ true)
          × (available ≡ true)
          × (pong ≡ some 1)))
unfolding get_readiness_status
get_readiness_status_iff false redis_answers available pong =
    ((λ _. refl, λ _. refl), (λ h. cc, λ h. cc (h.0)))
get_readiness_status_iff true redis_answers available pong = (
  (λ h. ground arith, λ h. cc),
  (λ h. (refl, ground arith, ground arith, ground arith), λ h. ground arith),
)
