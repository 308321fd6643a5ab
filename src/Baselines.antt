-- ===== src/Baselines.antt =====
-- coordinator/routing/baselines.py and evaluation/baselines: the allocators that the system is
-- compared with.
pub mod RoundRobin
pub mod LeastConnections
pub mod StaticHash
pub mod Rotation
pub mod Connections
pub mod StaticRing
