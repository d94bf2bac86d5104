-- ===== src/Dependencies.antt =====
-- src/utils/cycle-detector.ts, src/services/dependency.service.ts, and the two classifiers of
-- src/services/topology.service.ts and src/services/dependency-graph.service.ts.
pub mod Trails
pub mod CycleDetector
pub mod Service
pub mod Degrees
pub mod Topology
pub mod Kahn
pub mod Tree
mod Examples
