-- ===== src/Router.antt =====
-- packages/wft-router/src: the event router.
pub mod SseParser
pub mod RateLimit
pub mod IdempotencyStore
pub mod Debounce
pub mod Shutdown
pub mod Predicate
mod Examples
