-- ===== src/Wsjf.antt =====
-- src/types/wsjf.ts and src/services/wsjf.service.ts: weighted shortest job first.
pub mod Tiers
pub mod Submission
pub mod Samples
pub mod Closure
pub mod Ranking
mod Examples
