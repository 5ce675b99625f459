-- ===== src/Hospital.antt =====
-- src/modules/hospital: hospital.service.ts.
pub mod Defs
pub mod Beds
pub mod Service
pub mod Operators
