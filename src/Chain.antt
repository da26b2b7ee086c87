-- ===== src/Chain.antt =====
-- chain: routes over the nodes that hops choose, and the connection over a route.
pub mod Route
pub mod Path
pub mod Hops
pub mod Group
pub mod Connect
pub mod Resolve
pub mod Dial
