-- ===== src/Matcher.antt =====
-- internal/matcher: the pattern matchers.
pub mod Addr
pub mod CidrTrie
pub mod Cidr
pub mod Ip
pub mod PortRange
pub mod Suffix
pub mod Split
pub mod Domain
pub mod Address
pub mod Wildcard
