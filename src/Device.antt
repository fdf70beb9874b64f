-- ===== src/Device.antt =====
-- pkg/simulator/device.go: one simulated device.
pub mod Pipeline
pub mod Punt
pub mod Stores
pub mod Write
pub mod Read
pub mod Election
pub mod Streams
pub mod State
pub mod Channel
pub mod Packets
pub mod Snapshot
pub mod Service
pub mod IoStats
