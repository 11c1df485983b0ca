-- ===== src/Policy.antt =====
-- ctpolicy: the groups of logs that a browser's policy wants SCTs from.
pub mod Groups
pub mod Lifetime
pub mod Listed
pub mod Satisfied
pub mod Given
pub mod Tests
