-- ===== src/Lib.antt =====
-- Verification library of the AnoPKI Community service (service/internal), a certificate authority
-- with an audit log, a job queue and a repository behind a lifecycle service.
--
-- Parts, and the files that model them. The Go files named are under service/internal.
--
--   Common      shared helpers: Boolean tests, lists over the native numbers, Go's maps as association
--               lists with each key once, sort.Slice as an insertion sort, int64, times in nanoseconds,
--               and the pair (value, error) as `Result`, whose errors are those of domain/errors.go.
--   Domain      domain/types.go: the enumerations and the structs, field by field.
--   Audit       store/audit_hash.go, and appendMemoryAuditEvent and pruneMemoryAuditEvents of
--               store/memory.go. Hash has the payload and the hash of an event, Verify the
--               verification, Memory the log with its append and its retention. Chain describes an
--               intact log without the loop; Append, Prune and Tamper rest on that.
--   Store       store/memory.go: a module for each group of maps with the bodies of its methods;
--               State has the MemoryStore and WithinTx; Repository has the methods.
--               Unique is the invariant of a map in which no two values share a key of their own;
--               Responders/Single, Certificates/Keys, Crls/Numbers and Access/Thumbprints fill it.
--   Lifecycle   World is what a service runs over: the store, the clock and the id generator;
--               Transactions says what WithinTx promises over it. Outbox is
--               lifecycle/outbox_dispatcher.go, with its claims, its delays and its turns.
--               Services has what the operations of lifecycle/service.go share; its children are the
--               decision on an enrollment, the changes of a certificate's status, the
--               claim on a CRL, issuance attempts, the replays of outbox messages, API keys, OCSP
--               responders, the expiration scan, and the
--               authorizations and challenges of ACME orders.
--               Messages has the calls that work on outbox messages, in any order.
--               Caa is lifecycle/caa.go: the DNS query for CAA records and the parsing of its answer.
--               World/Ensures and World/Leaves are the rules by which the operations of a service are
--               proved: what a success ensures, and what every outcome leaves in the store.
--   Http        httpapi/acme.go and httpapi/server.go: Nonces is the nonce store in memory, RateLimits
--               the buckets of the ACME endpoints, Scopes the public endpoints, the scopes of API keys
--               and authenticateRequest, Errors what a client gets for an error.
--   Examples    the theorems at concrete inputs.
--
-- The lifecycle layer calls the repository by its methods, and the repository keeps its audit log by the
-- functions of Audit. A method of MemoryStore holds the mutex, so it is one step here. The methods of
-- memoryTx have the same bodies; a transaction runs on a copy that is kept when no error comes back.
--
-- Bounds. Sequence numbers and CRL numbers are int64 and wrap around; theorems that need them not to
-- say so in a hypothesis. Times are natural numbers of nanoseconds from the zero time. Counts are natural
-- numbers: those of attempts are an int in Go, which no number of attempts that are made one by one comes
-- near. A nonce store has room for one nonce at least. All loops are over lists or counts, but for the
-- one that evicts ACME nonces, which takes as fuel the number of nonces; that this is enough is proved.
-- So is it for the loop over the labels of a DNS name, whose rounds are the bytes of the message and one
-- more.
--
-- Parameters. `AuditCodec` stands for encoding/json, the time format and SHA-256, and `HexDigests` says
-- that a digest is 64 hexadecimal digits. The clock, the id generator, the outbox handler and the FNV
-- hash are arguments as well, and so are strings.TrimSpace, json.Marshal of an event and the text of
-- audit metadata (auditMetadataJSON, which reads the request's context), as fields of `Service`.
--
-- Not modelled: the SQL stores, the handlers of the HTTP API, the webhook handler, the runner of the core
-- CLI, the C++ core, and the parts of lifecycle/service.go that are not named above. They are I/O, or they
-- work on what the signer, the network and the core answer. The order in which Go visits a map is the order
-- of the association list.
pub mod Common
pub mod Domain
pub mod Audit
pub mod Store
pub mod Lifecycle
pub mod Http
pub mod Examples
