-- ===== src/Decision.antt =====
-- src/modules/decision: the priority engine, the resource allocation engine and the service that
-- recommends a resource.
pub mod Matching
pub mod Priority
pub mod Allocation
pub mod Recommendation
