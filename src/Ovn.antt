-- ===== src/Ovn.antt =====
-- The agent's view of OVN (ovn.go).
pub mod State
pub mod Rows
pub mod Hosts
pub mod Joins
pub mod Nats
pub mod Refresh
pub mod Loop
