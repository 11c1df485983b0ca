-- ===== src/Multilog.antt =====
-- client/multilog.go: a temporal log, which is a log for each of a row of intervals of expiry dates.
mod Shards
mod Calls
mod Contiguous
mod Made
mod Dispatch
mod Roots
mod Tests
