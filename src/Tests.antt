-- ===== src/Tests.antt =====
-- The models and their theorems at concrete inputs.
mod Fixtures
mod Reliability
mod Breaker
mod Idempotency
mod Decision
mod Assignment
mod Incident
mod Reoptimization
mod Events
mod Caching
mod Hospital
mod Access
mod Accounts
mod Service
