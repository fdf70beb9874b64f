-- ===== src/Tests.antt =====
-- Small runs of the definitions, and the theorems at them.
pub mod Data
pub mod Table
pub mod Reads
pub mod Stores
pub mod Device
pub mod Inventory
pub mod Mastership
pub mod Traffic
pub mod Topologies
pub mod Channel
pub mod Stats
