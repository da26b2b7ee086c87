-- ===== src/Hop.antt =====
-- hop: the choice of a node among those of a hop.
pub mod Node
pub mod Gate
pub mod Scan
pub mod Tier
pub mod Select
pub mod Default
pub mod Group
