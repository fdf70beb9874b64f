-- ===== src/Entries.antt =====
-- pkg/simulator/entries: the stores of the P4 entities of one device.
pub mod Message
pub mod Sorting
pub mod Key
pub mod Table
pub mod Buffer
pub mod Tables
pub mod Cells
pub mod Profile
pub mod Replication
