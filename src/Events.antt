-- ===== src/Events.antt =====
-- src/events and src/workers/event.worker.ts: the outbox, its publisher, and the event handlers.
pub mod Outbox
pub mod Worker
pub mod Delivery
pub mod Settling
pub mod Processing
