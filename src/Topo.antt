-- ===== src/Topo.antt =====
-- The topologies of pkg/topo: their files, the builders that generate them and the loader.
pub mod Schema
pub mod Text
pub mod Position
pub mod Builder
pub mod RackHosts
pub mod Fabrics
pub mod SuperSpines
pub mod Wired
pub mod Loader
pub mod Robot
pub mod Netcfg
