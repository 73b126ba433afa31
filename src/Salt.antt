-- ===== src/Salt.antt =====
-- pkg/salt: the client of the Salt API and the matcher of minion identifiers.
pub mod Unicode
pub mod Json
pub mod Client
pub mod Octets
pub mod Matcher
