-- ===== src/Reoptimization.antt =====
-- src/modules/reoptimization: whether an assignment still serves, and its replacement.
pub mod Engine
pub mod Strategy
pub mod Service
pub mod Planning
pub mod Replacing
pub mod Handover
