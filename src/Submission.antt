-- ===== src/Submission.antt =====
-- submission/races.go: which SCTs are collected when a certificate is sent to groups of logs.
pub mod State
pub mod Keys
pub mod Needs
pub mod Counted
pub mod Invariant
pub mod Tests
