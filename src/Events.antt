-- ===== src/Events.antt =====
-- src/events: how events reach their subscribers.
pub mod EventBus
pub mod SseManager
mod Examples
