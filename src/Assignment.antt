-- ===== src/Assignment.antt =====
-- src/modules/assignment: assignment.interface.ts and assignment.service.ts.
-- A transaction is a function from the tables to a result with the new tables, so an error leaves
-- none of its writes. The transactions run under READ COMMITTED: the tables that the checks of one
-- read and those that its writes meet are two arguments.
pub mod Defs
pub mod Release
pub mod Exclusive
pub mod Concurrency
pub mod Eligibility
pub mod Lifecycle
pub mod Undo
pub mod Races
pub mod Reads
pub mod Visible
