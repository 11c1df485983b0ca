-- ===== src/Tls.antt =====
-- tls/tls.go: TLS encoding and decoding (RFC 5246 section 4) driven by Go types and field tags.
pub mod Tag
pub mod Types
pub mod Parse
pub mod Marshal
pub mod Width
pub mod Codable
pub mod Written
pub mod Taken
pub mod Chosen
pub mod Bounds
pub mod Hidden
pub mod Canonical
pub mod Total
pub mod Faults
pub mod Tests
pub mod RoundTrip
pub mod Unique
