-- ===== src/Scanner.antt =====
-- scanner/fetcher.go: the ranges that a Fetcher hands out, and the workers that fetch them.
mod Generator
mod Worker
mod Consecutive
mod Ranges
mod Handed
mod Delivered
mod Ended
mod Worked
mod Tests
