-- ===== src/Ranges.antt =====
-- ingestor/ranges/tracker.go: how much of a range of log entries has been recorded.
pub mod Tracker
pub mod Coverage
pub mod Invariant
pub mod Added
pub mod Complete
pub mod Tests
