-- ===== src/Pipeline/Process.antt =====
-- internal/pipeline/process.go: what one work item does to a sink's state. The watch cache, the
-- router, the redaction registry, the clock and the writer are interfaces; an item carries what they
-- answer. A callback is the data that it closes over, and `settle` calls it. What is handed to the
-- writer, the queue and the metrics is logged in the state, in order; the log lines are left out.
pub mod CloseOuts
pub mod Deletions
use kuberecord.Base.{
  ℕ, Bool, true, false, ◌||◌, Option, none, some, List, [], ◌∷◌, ◌++◌, nat_eq, text_eq,
  if◌then◌else◌, contains,
}
use kuberecord.Base.Int.{ℤ, pos}
use kuberecord.Base.Json.{Value}
use kuberecord.Base.Map.{Map, lookup, insert, erase}
use kuberecord.Base.Text.{Text, codes}
use kuberecord.Pipeline.Coalesce.{Coalescer, forget}
use kuberecord.Pipeline.Diff.{Codec, Diffing}
use kuberecord.Pipeline.HashCache as HashCache
use kuberecord.Pipeline.HashCache.{
  HashCache, CacheEntry, EntryEncoding, raw, commit_if_current, delete_if_current, reserve_delete,
  unclaim_delete, Claim, DeleteClaimOutcome, claimed,
}
use kuberecord.Pipeline.Identity.{Key, ScopeKey, scope_key_eq, cache_key, scope}
use kuberecord.Pipeline.Normalize.{Encoding}
use kuberecord.Sink.Record.{SinkRecord}

-- The callback of a job. A close-out's record is the job's.
pub data Settlement : Type 0 where
  upsert :
      (key : Key) (version : ℕ) (confirmed : CacheEntry) (reverted : Option CacheEntry)
      (coalesce_hash : Text) (stamped_at : ℕ) (window : ℤ)
      → Settlement
  deletion : (key : Key) (version : ℕ) → Settlement
  close_out : (key : Key) → Settlement

-- `sink.Job`
pub record Job : Type 0 where
  pub row : SinkRecord
  pub commit : Settlement

-- What the queue is asked for.
pub data Requeue : Type 0 where
  rate_limited : Key → Requeue
  after : Key → ℤ → Requeue

-- The counters and the gauge that an item touches.
pub data Metric : Type 0 where
  dropped_scope_stopped dropped_ephemeral_delete dedup_skip event_coalesce_skip : Metric
  diff_refusal : Metric
  safe_mode : ScopeKey → Metric
  cache_entries : ℕ → Metric

-- `sinkState`, with what its items handed over so far.
pub record SinkState : Type 0 where
  pub cache : HashCache
  pub close_outs : Map Text (List SinkRecord)
  pub coalesce : Coalescer
  pub warm : List ScopeKey
  pub jobs : List Job
  pub requeues : List Requeue
  pub metrics : List Metric

-- The sink's writer, as one item meets it: its optional policies, and whether `Enqueue` takes a row.
pub record Writer : Type 0 where
  pub checkpoint_every : Option ℕ
  pub coalesce_window : Option ℤ
  pub takes : SinkRecord → Bool

-- The readings of the clock by one item, in order: for a close-out or a deletion, for the
-- coalescer, and for the row.
pub record Clock : Type 0 where
  pub closed_at : ℕ
  pub decided_at : ℕ
  pub stamped_at : ℕ

-- The pipeline's own constants and libraries. `digest` is `json.Marshal` followed by SHA-256.
pub record Pipeline : Type 0 where
  pub cluster_id : Text
  pub encoding : Encoding
  pub codec : Codec
  pub diffing : Diffing
  pub digest : Map Text Value → Option Text

-- Why `Process` asks for the item again.
pub data Failure : Type 0 where
  lookup_failed sink_unavailable redaction_unavailable marshal_failed enqueue_failed : Failure

-- `checkpointEveryFor`
unfoldable pub checkpoint_every_for : Writer → ℕ
checkpoint_every_for w = elim w.checkpoint_every [ none ↦ 0 | some every ↦ every ]

-- `coalesceWindowFor`
unfoldable pub coalesce_window_for : Writer → ℤ
coalesce_window_for w = elim w.coalesce_window [ none ↦ pos 0 | some window ↦ window ]

-- `Enqueue`: the job is handed over, or refused.
unfoldable pub enqueue : Writer → Job → SinkState → SinkState × Bool
enqueue w job s =
    if w.takes job.row then (record s { jobs = s.jobs ++ (job ∷ []) }, true) else (s, false)

abbrev pub requeue : Requeue → SinkState → SinkState
requeue r s = record s { requeues = s.requeues ++ (r ∷ []) }

abbrev pub count : Metric → SinkState → SinkState
count m s = record s { metrics = s.metrics ++ (m ∷ []) }

-- `recordCacheEntries`
unfoldable pub record_cache_entries : SinkState → SinkState
record_cache_entries s = count (cache_entries (HashCache.len s.cache)) s

-- `sinkState.scopeWarm`
unfoldable pub scope_warm : Key → SinkState → Bool
scope_warm key s =
    contains s.warm (scope key) || contains s.warm (record (scope key) { namespace = [] })

-- `recordScopeUnwarmed`
unfoldable pub record_scope_unwarmed : Key → SinkState → SinkState
record_scope_unwarmed key s = count (safe_mode (scope key)) s

-- `closeOutRetryQueue.Add`
abbrev pub or_nil : Option (List SinkRecord) → List SinkRecord
or_nil none = []
or_nil (some rows) = rows

unfoldable pub pending_for : Text → SinkState → List SinkRecord
pending_for object_key s = or_nil (lookup object_key s.close_outs)

unfoldable pub add_close_out : Text → SinkRecord → SinkState → SinkState
add_close_out object_key row s = record s {
  close_outs = insert object_key (pending_for object_key s ++ (row ∷ [])) s.close_outs;
}

-- `closeOutRetryQueue.TakeAll`, the emptied queue; the records are `pending_for`'s.
unfoldable pub take_all : Text → SinkState → SinkState
take_all object_key s = record s { close_outs = erase object_key s.close_outs }

-- The failure path of `enqueueCloseOut`.
unfoldable pub keep_close_out : Key → SinkRecord → SinkState → SinkState
keep_close_out key row s = requeue (rate_limited key) (add_close_out (cache_key key) row s)

abbrev pub or_keep : Key → SinkRecord → SinkState × Bool → SinkState
or_keep key row (s, true) = s
or_keep key row (s, false) = keep_close_out key row s

-- `enqueueCloseOut`
unfoldable pub enqueue_close_out : Writer → Key → SinkRecord → SinkState → SinkState
enqueue_close_out w key row s =
    or_keep key row (enqueue w (record { row = row; commit = close_out key }) s)

-- The loop of `retryPendingCloseOuts`.
unfoldable pub retry_all : Writer → Key → List SinkRecord → SinkState → SinkState
retry_all w key [] s = s
retry_all w key (row ∷ rows) s = retry_all w key rows (enqueue_close_out w key row s)

-- `retryPendingCloseOuts`
unfoldable pub retry_pending_close_outs : Writer → Key → SinkState → SinkState
retry_pending_close_outs w key s =
    retry_all w key (pending_for (cache_key key) s) (take_all (cache_key key) s)

-- The Deleted row of an entry.
unfoldable pub deleted_row : Pipeline → Clock → Key → CacheEntry → SinkRecord
deleted_row p clock key entry = record {
  timestamp = clock.closed_at;
  cluster_id = p.cluster_id;
  event_type = codes "Deleted";
  api_group = key.group;
  api_version = entry.api_version;
  kind = key.kind;
  namespace = key.namespace;
  name = key.name;
  uid = entry.uid;
  resource_version = [];
  labels = [];
  actors = [];
  state = [];
  diff = [];
  sha256 = [];
}

abbrev pub set_cache : HashCache → SinkState → SinkState
set_cache c s = record s { cache = c }

-- The test of a claim's outcome.
abbrev pub if_claimed {ℓ} : {A : Type ℓ} → DeleteClaimOutcome → A → A → A
if_claimed claimed granted refusal = granted
if_claimed _ granted refusal = refusal

-- What `emitDelete` does once the job is handed over or refused.
abbrev pub or_unclaim : Key → ℕ → SinkState × Bool → SinkState × Option Failure
or_unclaim key version (s, true) = (s, none)
or_unclaim key version (s, false) =
    (set_cache (unclaim_delete (cache_key key) version s.cache) s, some enqueue_failed)

-- `emitDelete` with a claim
unfoldable pub emit_claimed :
    Pipeline → Writer → Clock → Key → Claim → SinkState → SinkState × Option Failure
emit_claimed p w clock key claim s = or_unclaim key claim.version (
    enqueue w
      (record { row = deleted_row p clock key claim.entry; commit = deletion key claim.version })
      (set_cache claim.cache s))

-- `emitDelete`, its outcome beside the error
unfoldable pub emit_delete :
    Pipeline
    → Writer
    → Clock
    → Key
    → Text
    → SinkState
    → SinkState × DeleteClaimOutcome × Option Failure
emit_delete p w clock key expected_uid s =
    let claim = reserve_delete (cache_key key) expected_uid s.cache in
    let (s', failure) = emit_claimed p w clock key claim s in
    if_claimed claim.outcome (s', claimed, failure) (s, claim.outcome, none)

-- `forgetEphemeral` once the coalescer has forgotten the Event.
unfoldable pub forget_claimed : Key → Claim → SinkState → SinkState
forget_claimed key claim s =
    let deleted = delete_if_current (cache_key key) claim.version claim.cache in
    if deleted.1 then record_cache_entries (set_cache deleted.0 s) else set_cache deleted.0 s

-- `forgetEphemeral`
unfoldable pub forget_ephemeral : Key → SinkState → SinkState
forget_ephemeral key s =
    let claim = reserve_delete (cache_key key) [] s.cache in
    let s' = record s { coalesce = forget (cache_key key) s.coalesce } in
    if_claimed claim.outcome (forget_claimed key claim s') s'
