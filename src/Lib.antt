-- ===== src/Lib.antt =====
-- SmartBuster, a content-discovery scanner written in Go: the scheduling of its scan, the pacing of
-- its requests, the calibration of its directories, and the fingerprints that calibration compares.
--
-- How the parts interact. The coordinator (internal/engine/coordinator.go) owns all scan state in
-- one goroutine. It sends probes to learn what "not found" looks like in a directory
-- (internal/calibration), classifies each response against that baseline by the Hamming distance
-- of 64-bit fingerprints (internal/simhash), and paces all requests by one limiter
-- (internal/httpclient/ratelimit.go), which its WAF detection slows down and its timer speeds up.
--
-- Which file models which part.
--   Prelude, Prelude/*: shared names, list lemmas over the native numbers, Go's `int`, and float64
--     as an interface.
--   HttpClient/Limiter: Limiter, JitterSpec, NewLimiter .. SetAIMDState of
--     internal/httpclient/ratelimit.go. Each method returns the new limiter beside its result.
--   Engine/Backoff: detectWAFOnset, checkLatencySpike, triggerBackoff, maybeRecoverBackoff and
--     updateBudgetPacing of internal/engine/coordinator.go, over the limiter and the ring.
--   Engine/Events: the event types and categories of internal/engine/events.go.
--   Heap: Go's container/heap over a slice, with what each operation keeps.
--   Engine/Types, Engine/Frontier: internal/engine/types.go and internal/engine/frontier.go, the
--     candidates that wait, as a heap of highest score first. A random draw is an argument, and
--     Intn(n) is its remainder by n.
--   Engine/Coordinator: the state of coordinator.go that its scheduling uses, and under it
--     Dispatch (nextDispatchable, and popNext of dynamic.go), Seeds (enqueueGenerated of dynamic.go,
--     stageDirCandidate and mergeOrEnqueueGenerated of seed.go, applyExclude of control.go),
--     Template (pushCandidates with the wordlist or the corpus), Calibrating (startCalibration,
--     collectProbe, finishCalibration and the second calibration of the root), Novelty (the gate of
--     handleHit), Traps (the limits of a recursion), Results (handleReal and handleHit), and Runs,
--     the events of dispatchLoop as steps. Conserved says what the book-keeping of a directory is;
--     Popped, Dispatched, Handed, Staged, Calibrated and Accounted are about it. Probes and harvest
--     fetches come before the frontier, and only its candidates are tested against the scope and
--     the overrides when they are handed out.
--   Engine/Coordinator/Paths: seeds as paths (enqueueSeed, ensureDirChain, capBatch of seed.go), with
--     Planted for the book-keeping and Capped for the bound on a batch; Finish, the test that ends
--     dispatchLoop.
--   Engine/Preset: the modes of internal/engine/preset.go.
--   Engine/Coordinator/Control: applyControl of internal/engine/control.go and what it calls,
--     with Control/Kept for the book-keeping.
--   Engine/Session: save and resume, internal/engine/session.go: buildSnapshot, restoreSnapshot and
--     NewCoordinatorFromSnapshot, for the state that the scheduling, the findings and the backoff use.
--   Seed: internal/seed, with UnionProvenance, Normalize and the parse of robots.txt.
--   Scope: internal/scope/scope.go, which hosts and paths may be requested.
--   Daemon/Hub: a client of internal/daemon/hub.go, with its lanes and its bounded buffer.
--   Daemon/Security, Daemon/Scan, Daemon/Server: the token and the origin of security.go, the tracked
--     state of scan.go, and the routes and control handlers of server.go. A control command that is
--     let through is sent to the scan, whose coordinator applies it (Engine/Coordinator/Control).
--     Scan/Lifecycle has the send of a command and its tracking behind the lock as two events.
--   Profile/Merge, Profile/Ruleset: internal/profile/ruleset.go, the merge of rules by name and the
--     load of three layers; Profile/Target: internal/profile/types.go, the votes for a technology
--     and what is read from them.
--   Engine/Learners: Markov, Assoc and Scorer, the files of those names in internal/engine, with
--     scoreCandidate of internal/engine/corpus_select.go.
--   Corpus/Dedup: dedup of internal/corpus/expand.go.
--   Wordlist: Load of internal/wordlist/wordlist.go.
--   Signature: the records of internal/types/types.go.
--   Simhash: SimHash and Hamming of internal/simhash/simhash.go.
--   Calibration: internal/calibration/calibration.go.
--
-- The hub (internal/daemon/hub.go) hands the coordinator's events to the clients, each with a buffer
-- of its own.
--
-- Bounds and fuel. The loop of nextDispatchable has one round for each candidate of the frontier,
-- since every round takes one out. The loop of heap's down has one round for each entry, since
-- every round increases the index; that of up has one more than the index, which every round
-- decreases. Other loops are structural.
--
-- What is not modelled, and why. The score of a candidate (Engine/Learners/Scorer has it by
-- itself), the match of an override's pattern (Control has it by itself, over path.Match), the
-- scope test (Scope models it by itself), the union of provenances, what the learners generate,
-- the random draws, the tokens and the clock are arguments: the scheduling gives the same
-- guarantees for all of them. How the corpus template is selected, whether the root's profile was
-- refined, the SPA pivot and the harvest of links feed the scheduling through these arguments and
-- are not modelled, nor are the audit log, the workers and the network. A float64 is an interface
-- with the laws of comparison (Prelude/Float). The read of a rule file and its JSON are data,
-- `ruleset update` runs git, and the handlers that start, save and resume a scan are arguments of
-- the server. The command line, the corpus (SQL), the parsers of HTML and JavaScript and the
-- wrappers of the network libraries are input, output and glue.
pub mod Calibration
pub mod Corpus
pub mod Daemon
pub mod Engine
pub mod Heap
pub mod HttpClient
pub mod Prelude
pub mod Profile
pub mod Scope
pub mod Seed
pub mod Signature
pub mod Simhash
pub mod Wordlist
