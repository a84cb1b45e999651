-- ===== src/Examples.antt =====
-- A cluster of three nodes over stores in memory, and its runs.
pub mod Cluster
pub mod Witnesses
pub mod Revived
pub mod Overtaken
pub mod Orderly
pub mod Parts
pub mod Lives
pub mod Reports
pub mod Served
pub mod Following
