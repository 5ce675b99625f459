-- ===== src/Incident.antt =====
-- src/modules/incident: the life of an incident as its service operations drive it.
pub mod Defs
pub mod Lifecycle
pub mod Review
pub mod Cancel
pub mod Scoring
pub mod Reads
pub mod Visible
