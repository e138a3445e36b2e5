-- ===== src/Lib.antt =====
-- KubeRecord watches Kubernetes objects and records every change of them as rows in one or more
-- sinks; a read plane rebuilds an object's past and says when it was being watched.
--
-- The parts, and the file that models each:
-- * A rule asks for targets. internal/plan/registry.go merges what the rules ask for into the
--   desired state: Plan/Registry. Plan/Registry/Counts, Ledger, Sets, Installed and Views compare
--   its counts with the list of all the rules' contributions.
-- * The watch manager opens and closes scopes. internal/watch/scope_recorder.go turns these edges
--   into the rows of the scope log: Watch/ScopeRecorder, with Epochs (what the edges log), Delivery
--   (the queue and the flush), Traffic (edges and hand-overs in turn) and RoundTrip (the log read back by the read plane).
-- * A change of an object becomes a work item, whose identity is in internal/pipeline/identity.go
--   and special_kinds.go: Pipeline/Identity, with Prefixes. internal/pipeline/hashcache.go keeps
--   what a sink was told: Pipeline/HashCache, with Laws, Versions (writes that settle late),
--   Reverts (writes that failed) and Claims (deletions). internal/pipeline/coalesce.go suppresses count bumps of Events:
--   Pipeline/Coalesce, with Decisions, Sweeping and Projection. The baselines, the diffs and the
--   checkpoints of internal/pipeline/hashcache.go and process.go are Pipeline/Diff, with Tokens.
-- * What is recorded of an object is first stripped of what the cluster rewrites, in process.go and
--   actors.go: Pipeline/Normalize, with Stripping and Actors; and then redacted, in redact.go: Pipeline/Redact,
--   with Scrub (what a path scrubs), Absorption (content under a path is forgotten), Compile
--   (policies), Annotations (paths made of keys) and Fuel (the parser's loop ends). A document is a value of Base/Json.
-- * The rest of process.go and pipeline.go is what a work item does. Pipeline/Process has the state
--   of a sink, deletions, expired Events and close-outs, with CloseOuts and Deletions;
--   Pipeline/Change the ladder of diffs and checkpoints, the row and the entry of a change;
--   Pipeline/Upsert the whole of `processUpsert`, with Rows, Changes, Fidelity, Known and
--   Observations (its rows replay to the object), Runs (the run of diffs between full states),
--   Postponing (a coalesced bump comes back) and Blindness (redacted content leaves no trace);
--   Pipeline/WorkItem a whole item, the callbacks of its jobs and the states of all sinks, with
--   Honesty, LiveRows, Events and Eviction. The row, internal/sink/record.go, is Sink/Record.
-- * When a scope opens, internal/pipeline/warm.go restores what its sink was told and closes the
--   histories of objects that died unseen. Pipeline/Warm has the history and the seeding, with
--   Incarnations, Grouping and Seeding; Pipeline/Sweep the sweep for zombies, its child Recovery the
--   close-outs of incarnations that were refused, and Run the whole of `warm`, with Evidence, Keeping,
--   Safety and Honesty; Pipeline/Coordinator which warm-ups run, its child Boot the reconciliation at
--   boot, with Lifecycle and Orphans.
-- * internal/watch/eventfilter.go compiles the rules' filters on Events, and pushes a part of one down
--   to the API server: Watch/EventFilter, with PushDown, Meaning and Recording. internal/watch/interest.go
--   compiles a merged target into an interest, Watch/Interest with Selecting, and keeps them in a table
--   that the informers and the pipeline ask, Watch/InterestTable with Finding. internal/watch/manager.go
--   answers the pipeline from the table and the running informers: Watch/Manager, with Absence.
-- * The archive in an object store: Query/Layout has the keys that the writer makes,
--   internal/sink/s3/encoder.go, and the partitions that the reader lists,
--   internal/query/objectsource/layout.go, with Keys and Tiling.
-- * A sink's identity, internal/sink/id.go, is Sink/Identity, with Order.
-- * The read plane pairs the scope log into intervals, internal/query/scope.go: Query/Scope, with
--   Pairing and Coverage. It replays rows into an object, internal/query/replay.go: Query/Replay,
--   with Folding and Bases.
-- Base holds what these share: Boolean tests, lists, maps, text and integers. Examples applies the
-- theorems to concrete inputs.
--
-- A method that runs under its mutex is one function from state to state, in the order of the
-- source's statements. A Go map is an association list, in which a key that is written stands once
-- (`Distinct`, an invariant). A string is the list of its bytes. An instant is a number of
-- nanoseconds, and 0 is the zero time of a query's window. A duration may be negative and is an
-- integer. A version is a uint64 and wraps around. A count of references is unbounded, as is the
-- length of a list; the source's int cannot overflow before memory ends.
--
-- A work item is one step on the state of its sink: its queue hands a key to one worker at a time,
-- and what runs meanwhile on other keys touches other entries. What it hands to the writer, the queue
-- and the metrics is logged in the state, in order. A callback is the data that it closes over, and
-- `settle` calls it; any number of other steps may come before. A write that is handed over may
-- still fail later; what is shown of replays is about the rows handed over. A warm-up is one step too;
-- each of its interfaces answers by a value for each attempt, and a list of attempts that ends is a
-- context that is done.
--
-- The loop of `CoverageOf` runs on as much fuel as there are entries: each round takes at least the
-- entry that it starts at. The loop of `parseRedactionPath` runs on as much as there are bytes: each
-- round takes at least one, and Pipeline/Redact/Fuel compares it with the rounds of a loop without a bound. The loop of
-- `partitionSpans` runs on as much as there are hours left: each round goes on by an hour or a day. Every other
-- loop is structural recursion.
--
-- Parameters stand for what is not in the repository: the selector parser and the object accessors
-- of k8s.io/apimachinery, the JSON encoder and decoder, strconv's quoting, SHA-256, zstd, the
-- comparison of JSON documents, the patch library, and the writers of the sinks. The watch cache,
-- the router and the redaction registry are interfaces, and a work item carries their answers. The
-- built-in policy is compiled once at the package's start, and is a field beside the libraries. The
-- encoding of Event filters, the selectors of k8s.io/apimachinery and what the API server selects by
-- them are parameters, and so is the formatting of dates and hours.
--
-- Not modelled: the informers and how the manager starts and stops them, the sinks' own storage but
-- for its keys, the query backends, the command line, and the operator's wiring. Logging, tickers and
-- back-off delays are left out.
pub mod Base
pub mod Sink
pub mod Pipeline
pub mod Plan
pub mod Watch
pub mod Query
mod Examples
