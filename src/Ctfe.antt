-- ===== src/Ctfe.antt =====
-- trillian/ctfe: the server of a log, in front of a Trillian backend.
mod Params
mod Bounds
mod Backend
mod Calls
mod Leaves
mod Audit
mod Proofs
mod Inclusion
mod Entry
mod Sorted
mod Checked
mod Slices
mod Modes
mod Signing
mod TreeHeads
mod Served
mod Answers
mod Chains
mod AddChain
mod Allowed
mod Admitted
mod Issued
mod Config
mod MultiConfig
mod Distinct
mod Backends
mod Valid
mod Single
mod Tests
mod AuditTests
mod ConfigTests
mod IssueTests
