-- ===== src/Ct.antt =====
-- types.go and serialization.go: the RFC 6962 structures, what is signed, leaves and log entries.
pub mod Types
pub mod X509
pub mod Signed
pub mod Leaves
pub mod Entries
pub mod Layout
pub mod Tagged
pub mod Whole
pub mod Chains
pub mod Separation
pub mod Responses
pub mod Stored
pub mod Accepted
pub mod Tests
