-- ===== src/RateLimit.antt =====
-- src/middlewares/rateLimit.middleware.ts: the limiter on a Redis counter. The replies of Redis are
-- arguments; the in-process limiter of express-rate-limit is what it falls back to.
pub mod Windows
use res_q_server.Common.{
  Bool, false, if◌then◌else◌, ltb, max, nat_eq, not, text_eq, true, ℕ, ◌&&◌, ◌*◌, ◌-◌, ◌/◌, ◌==◌,
}
use res_q_server.Db.Rows.{
  assignment_status_eq, hospital_status_eq, incident_status_eq, level_eq, resource_status_eq,
  role_eq, user_status_eq,
}
use res_q_server.Db.Tables.{
  assignment_row, hospital_row, incident_row, outbox_row, resource_row, user_row,
}

-- What a request meets: `current` is the reply to INCR and `ttl` that to PTTL; an exception of a
-- command is `failed`.
pub data Reply : Type 0 where
  replied : (current ttl : ℕ) → Reply
  failed : Reply

-- The headers RateLimit-Remaining and, up to the clock, RateLimit-Reset
pub record Headers : Type 0 where
  pub remaining : ℕ
  pub reset_ms : ℕ

pub data LimitVerdict : Type 0 where
  falls_back : LimitVerdict
  passes : Headers → LimitVerdict
  limited : Headers → LimitVerdict

-- distributedRateLimit: the TTL of a new counter is set to the window, and `expire_replied` is
-- whether that command did not fail.
unfoldable pub limit_request :
    (max_requests window_ms : ℕ)
    → (available : Bool) → Reply
    → (expire_replied : Bool) → LimitVerdict
limit_request max_requests window_ms false reply expire_replied = LimitVerdict.falls_back
limit_request max_requests window_ms true Reply.failed expire_replied = LimitVerdict.falls_back
limit_request max_requests window_ms true (Reply.replied current ttl) expire_replied =
    let headers : Headers = record {
      remaining = max_requests - current;
      reset_ms = if current == 1 then window_ms else ttl;
    } in
    if current == 1 && not expire_replied
    then LimitVerdict.falls_back
    else if ltb max_requests current
    then LimitVerdict.limited headers
    else LimitVerdict.passes headers

-- Math.max(1, Math.floor(maxRequests * percent / 100)), of the stricter limiters
abbrev pub share_of : (percent max_requests : ℕ) → ℕ
share_of percent max_requests = max 1 (max_requests * percent / 100)

abbrev pub has_passed : LimitVerdict → Bool
has_passed (LimitVerdict.passes headers) = true
has_passed _ = false

abbrev pub is_limited : LimitVerdict → Bool
is_limited (LimitVerdict.limited headers) = true
is_limited _ = false
