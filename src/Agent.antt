-- ===== src/Agent.antt =====
-- The reconcile loop's own decisions (agent.go).
pub mod Routes
pub mod Stale
