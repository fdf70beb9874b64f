-- ===== src/Simulation.antt =====
-- The inventory of pkg/simulator/core.go: devices, links and hosts, and the ports that they use.
pub mod Ports
pub mod Links
pub mod Hosts
pub mod Exclusive
pub mod Status
pub mod Stats
pub mod Peers
pub mod Lldp
pub mod Arp
pub mod RandomHost
pub mod Attached
pub mod Channel
