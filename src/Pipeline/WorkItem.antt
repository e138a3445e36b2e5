-- ===== src/Pipeline/WorkItem.antt =====
-- internal/pipeline/process.go and pipeline.go: a whole work item, the callbacks of its jobs, the
-- calls of the watch manager on a sink's state, and the states of all sinks. Each is one step; what
-- runs at the same time on other keys touches other entries of the cache. The rate limiter's
-- `Forget` and the metric series that go with a scope or a sink are left out.
pub mod Honesty
pub mod LiveRows
pub mod DeletedRows
pub mod Events
pub mod Eviction
use kuberecord.Base.{
  Bool, true, false, not, ◌&&◌, Option, none, some, [], ◌∷◌, nat_eq, text_eq, if◌then◌else◌,
  contains,
}
use kuberecord.Base.Lists.{remove_all}
use kuberecord.Base.Json.{Fields}
use kuberecord.Base.Map.{Map, lookup, insert, erase}
use kuberecord.Pipeline.Coalesce as Coalesce
use kuberecord.Pipeline.Coalesce.{remember}
use kuberecord.Pipeline.HashCache as HashCache
use kuberecord.Pipeline.HashCache.{commit_if_current, delete_if_current, unclaim_delete}
use kuberecord.Pipeline.Identity.{
  Key, ScopeKey, scope_key_eq, cache_key, scope_key_prefix, ephemeral,
}
use kuberecord.Pipeline.Process.{
  Pipeline, Writer, Clock, SinkState, Job, Settlement, upsert, deletion, close_out, Failure,
  lookup_failed, sink_unavailable, rate_limited, dropped_scope_stopped, dropped_ephemeral_delete,
  requeue, count, record_cache_entries, retry_pending_close_outs, emit_delete, forget_ephemeral,
  add_close_out,
}
use kuberecord.Pipeline.Redact.{RedactionPolicy}
use kuberecord.Pipeline.Upsert.{process_upsert, revert_version}
use kuberecord.Sink.Identity.{SinkId, id_eq}
use kuberecord.Sink.Record.{SinkRecord}

-- What the lister answers: an error, or the object it holds and whether the scope is watched.
pub data Lookup : Type 0 where
  failed : Lookup
  answer : (object : Option Fields) (scope_active : Bool) → Lookup

-- The answers of the interfaces to one item.
pub record Item : Type 0 where
  pub found : Lookup
  pub writer : Option Writer
  pub redaction : Option (Option RedactionPolicy)
  pub clock : Clock

-- `Process` from the retry of the close-outs on.
unfoldable pub process_with :
    Pipeline → Item → Key → Option Fields → Writer → SinkState → SinkState × Option Failure
process_with p item key none w s =
    let (s', _, failure) = emit_delete p w item.clock key [] (retry_pending_close_outs w key s) in
    (s', failure)
process_with p item key (some object) w s =
    process_upsert p w item.clock key item.redaction object (retry_pending_close_outs w key s)

-- Any item but an expired Event needs its sink's writer.
abbrev pub with_writer :
    Pipeline → Item → Key → Option Fields → Option Writer → SinkState → SinkState × Option Failure
with_writer p item key object none s = (s, some sink_unavailable)
with_writer p item key object (some w) s = process_with p item key object w s

abbrev pub is_gone : Option Fields → Bool
is_gone none = true
is_gone (some _) = false

-- `Process`, by the answer of the lister; an Event that left the watch cache expired
abbrev pub process_found : Pipeline → Item → Key → Lookup → SinkState → SinkState × Option Failure
process_found p item key failed s = (s, some lookup_failed)
process_found p item key (answer object scope_active) s =
    if not scope_active
    then (count dropped_scope_stopped s, none)
    else if is_gone object && ephemeral key
    then (forget_ephemeral key (count dropped_ephemeral_delete s), none)
    else with_writer p item key object item.writer s

-- `Process`
unfoldable pub process : Pipeline → Item → Key → SinkState → SinkState × Option Failure
process p item key s = process_found p item key item.found s

abbrev pub or_requeue : Key → SinkState × Option Failure → SinkState
or_requeue key (s, none) = s
or_requeue key (s, some _) = requeue (rate_limited key) s

-- `processNext` after `Get`: a failed item goes back on the rate limiter.
unfoldable pub process_next : Pipeline → Item → Key → SinkState → SinkState
process_next p item key s = or_requeue key (process p item key s)

-- The callback of a job with its record, called with whether the row was written.
abbrev pub settle_with : SinkRecord → Settlement → Bool → SinkState → SinkState
settle_with row (upsert key version confirmed reverted hash stamped_at window) true s = record s {
  cache = (commit_if_current (cache_key key) version confirmed s.cache).0;
  coalesce = remember (cache_key key) hash stamped_at window s.coalesce;
}
settle_with row (upsert key version confirmed reverted hash stamped_at window) false s =
    requeue (rate_limited key) (revert_version (cache_key key) version reverted s)
settle_with row (deletion key version) true s =
    record_cache_entries
      (record s { cache = (delete_if_current (cache_key key) version s.cache).0 })
settle_with row (deletion key version) false s =
    requeue (rate_limited key) (record s { cache = unclaim_delete (cache_key key) version s.cache })
settle_with row (close_out key) true s = s
settle_with row (close_out key) false s =
    requeue (rate_limited key) (add_close_out (cache_key key) row s)

-- The writer calls the callback of a job.
unfoldable pub settle : Job → Bool → SinkState → SinkState
settle job ok s = settle_with job.row job.commit ok s

-- `sinkStateRegistry.states`
abbrev pub Sinks : Type 0
Sinks = Map SinkId SinkState

abbrev pub empty_state : SinkState
empty_state = record {
  cache = [];
  close_outs = [];
  coalesce = Coalesce.empty;
  warm = [];
  jobs = [];
  requeues = [];
  metrics = [];
}

abbrev pub or_empty : Option SinkState → SinkState
or_empty none = empty_state
or_empty (some s) = s

-- `sinkStateRegistry.get`: the state, created on first use, so that a sink without one has the empty one
unfoldable pub get : SinkId → Sinks → SinkState
get id sinks = or_empty (lookup id sinks)

-- `RemoveSink`
unfoldable pub remove_sink : SinkId → Sinks → Sinks
remove_sink id sinks = erase id sinks

-- `evictScope` on the state of the sink
unfoldable pub evict_state : ScopeKey → SinkState → SinkState
evict_state sc s = record_cache_entries (record s {
  warm = remove_all sc s.warm;
  cache = (HashCache.delete_prefix (scope_key_prefix sc) s.cache).0;
  coalesce = (Coalesce.delete_prefix (scope_key_prefix sc) s.coalesce).0;
})

-- `EvictScope`: nothing for a sink without a state
unfoldable pub evict_scope : SinkId → ScopeKey → Sinks → Sinks
evict_scope id sc sinks = elim (lookup id sinks) [
  | none ↦ sinks
  | some s ↦ insert id (evict_state sc s) sinks
]

-- `MarkScopeWarm` on the state of the sink
unfoldable pub mark_warm : ScopeKey → SinkState → SinkState
mark_warm sc s = record s { warm = if contains s.warm sc then s.warm else sc ∷ s.warm }

-- `MarkScopeWarm`
unfoldable pub mark_scope_warm : SinkId → ScopeKey → Sinks → Sinks
mark_scope_warm id sc sinks = insert id (mark_warm sc (get id sinks)) sinks

-- A work item on the states of all sinks: the key names the one that it works on.
-- A sink without a state reads as the empty one, and here has one from its first item on, which counts
-- a dropped item too.
unfoldable pub process_key : Pipeline → Item → Key → Sinks → Sinks
process_key p item key sinks = insert key.sink (process_next p item key (get key.sink sinks)) sinks
