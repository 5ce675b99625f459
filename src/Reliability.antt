-- ===== src/Reliability.antt =====
-- src/reliability: retry, circuit breaker, timeout and idempotency.
pub mod Retry
pub mod CircuitBreaker
pub mod Idempotency
pub mod Timeout
