-- ===== src/Lib.antt =====
-- A model of the core of a Certificate Transparency library, and what holds of it.
--
-- Parts and how they interact. Package tls (tls/tls.go, tls/types.go) reads and writes Go values in
-- the presentation language of RFC 5246, directed by `tls` tags on struct fields. The root package
-- (types.go, serialization.go) declares the structures of RFC 6962 with such tags, builds the leaves
-- of a log's tree and the bytes that are signed, and parses what a log stores and answers; it calls
-- tls for all encoding. The server of a log (trillian/ctfe, with trillian/util/log_leaf.go) stands in
-- front of a Trillian backend: it checks the chains that are submitted, builds the leaves to queue and
-- the SCTs to answer with, signs tree heads, and serves entries and proofs; it calls the root package
-- and tls. On the other side the temporal client (client/multilog.go) sends a chain to the shard of
-- its expiry date, the fetcher (scanner/fetcher.go) copies a log's entries range by range, and the
-- ingestor (ingestor/ranges/tracker.go) tracks which entries of a range were recorded. Submission
-- (submission/races.go) sends a certificate to the logs of all groups of a policy
-- (ctpolicy/ctpolicy.go) and collects the SCTs.
--
-- Files:
--   Prelude: shared names and lemmas; Prelude/Outcome has how a Go call ends (a value, an error, a
--   panic, an endless loop) and its do blocks, Prelude/Bytes the bytes of a number, Prelude/Text
--   strings and Go maps, Prelude/Int signed integers, Prelude/Int64 their operations on 64 bits.
--   Tls/Tag: fieldInfo, fieldTagToFieldInfo, byteCount, check. Tls/Types: a Go type as what
--   reflection says of it, and its values. Tls/Parse: parseField, Unmarshal; its steps, readVarUint
--   among them, are in Parse/Steps, and parseField behind a field that is not exported in Parse/Unset.
--   Tls/Marshal: marshalField, Marshal. The other files of Tls hold proofs: Written, Taken, Chosen and
--   Hidden invert a successful call, Width is on numbers of a given width, Codable says which types
--   and values the theorems are about, and RoundTrip, Unique, Canonical, Bounds, Total and Faults
--   are named for what they prove.
--   Ct/Types: the structures with their tags. Ct/X509: what is used of package x509 and of SHA-256.
--   Ct/Signed: SerializeSCTSignatureInput, SerializeSTHSignatureInput. Ct/Leaves:
--   CreateX509MerkleTreeLeaf, MerkleTreeLeafFromChain, MerkleTreeLeafFromRawChain,
--   MerkleTreeLeafForEmbeddedSCT, LeafHashForLeaf, IsPreIssuer. Ct/Entries: RawLogEntryFromLeaf,
--   ToLogEntry, LogEntryFromLeaf, ToSignedCertificateTimestamp, ToSignedTreeHead. Ct/Layout writes
--   the bytes out as RFC 6962 does; Separation, Tagged, Whole, Stored, Accepted, Responses and Chains
--   hold proofs.
--   Ranges/Tracker: the Tracker of ingestor/ranges/tracker.go and its operations; Coverage,
--   Invariant, Added and Complete hold proofs.
--   Submission/State: safeSubmissionState and its methods, and GroupByLogs; Keys, Needs, Counted and
--   Invariant hold proofs.
--   Policy/Lifetime: lifetimeInMonths. Policy/Groups: setMinInclusions, populate, BaseGroupFor and
--   LogsByGroup of both policies, and GoogleOperated of loglist2/loglist2.go; Listed, Satisfied and
--   Given hold proofs.
--   Ctfe/Params: the parameters of requests. Ctfe/Backend: answers of the backend, and
--   toHTTPStatus. Ctfe/Leaves: getEntries, sortLeafRange, buildIndicesForRange. Ctfe/Audit:
--   getSTHConsistency, getProofByHash, getEntryAndProof. Ctfe/Signing: the SignatureCache,
--   signV1TreeHead, buildV1SCT and GetCTLogID. Ctfe/TreeHeads: getSignedLogRoot and the getters of
--   tree heads. Ctfe/Chains: IsPrecertificate, ValidateChain, chainsEquivalent, verifyAddChain.
--   Ctfe/AddChain: addChainInternal, BuildLogLeaf, and the answers with an SCT or a tree head.
--   Ctfe/Config: the validation of one configuration. Ctfe/MultiConfig: that of backends and of all
--   configurations. Bounds, Sorted, Checked, Slices, Modes, Calls, Proofs, Inclusion, Entry, Served,
--   Answers, Allowed, Admitted, Issued, Distinct, Backends, Valid and Single hold proofs.
--   Scanner/Generator: Prepare, updateSTH and genRanges. Scanner/Worker: runWorker, Run, and
--   GetRawEntries of client/getentries.go. Consecutive, Ranges, Handed, Delivered, Ended and Worked
--   hold proofs.
--   Multilog/Shards: NewTemporalLogClient and IndexByDate. Multilog/Calls: AddChain, AddPreChain and
--   GetAcceptedRoots. Contiguous, Made, Dispatch and Roots hold proofs.
--   A Tests file in each part runs the model on concrete input and applies the theorems there.
--
-- How the code is read. A value that the code sets through a pointer or reflection is returned. The
-- offset of parseField, and the maps `enums` and `selectorSeen` of the struct loops, are arguments
-- and results. Reflection panics where it would set what is reached through a field that is not
-- exported, or copy bytes into elements of another type than uint8. A nil pointer is `none`, and to
-- read through it is a panic. Errors are told apart by
-- what they say, not by their text. Numbers of w bits are natural numbers, with `% 2 ^ w` where the
-- code can wrap around; IsVal has the bounds of a Go value's type. A
-- method that holds a lock is one step, and the states that such steps lead to, in any order, are a
-- data type (Reached).
--
-- Parameters. What a call of code outside of these files answers is an argument: the x509 parser and
-- verifier, SHA-256, base64, a crypto.Signer (whose signatures may differ from call to call), the
-- backend's RPCs, protobuf timestamps, the client of one log, and the clock. A theorem that needs
-- more of them than their type has it as a hypothesis, such as IsHonest and IsForthcoming of a log
-- that is fetched.
--
-- Bounds and fuel. The loop over the elements of a slice runs on fuel, the length of its input:
-- each element that takes input shortens what is left, so that this is enough, and an element that
-- takes none never ends the loop, which is an outcome of its own. The range generator runs on a list
-- of turns, which say what happens in each, and a worker on a number of tries, so that a generator or
-- a worker that is still at work has an outcome of its own; as many turns and tries as there are
-- entries to fetch, and a try more for each error, are enough where no context is cancelled. Numbers
-- of int64 and uint64 wrap around as in Go. `make` has room for 2^45 numbers of 64 bits, which is so
-- where addresses have 48 bits.
--
-- Not modelled: packages asn1 and x509, which are adapted from the Go library; text and JSON forms of
-- the structures, HTTP, request logs and metrics; signature checks; the weights of logs, which are
-- floating point; several fetch workers at once; migrillian, hammer and the other tools and clients,
-- which are network code.
pub mod Prelude
pub mod Tls
pub mod Ct
pub mod Ctfe
pub mod Multilog
pub mod Policy
pub mod Ranges
pub mod Scanner
pub mod Submission
