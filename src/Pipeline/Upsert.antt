-- ===== src/Pipeline/Upsert.antt =====
-- internal/pipeline/process.go, `processUpsert`: an object that exists is deduplicated, diffed
-- against what its sink was told, given a version and handed to the writer.
pub mod Rows
pub mod Changes
pub mod Fidelity
pub mod Known
pub mod Observations
pub mod Blindness
pub mod Postponing
pub mod Runs
use kuberecord.Base.{
  ℕ, Bool, true, false, not, ◌&&◌, Option, none, some, [], nat_eq, text_eq, ◌==◌, if◌then◌else◌,
}
use kuberecord.Base.Json.{Fields}
use kuberecord.Base.Text.{Text, codes}
use kuberecord.Pipeline.Coalesce.{decide}
use kuberecord.Pipeline.HashCache as HashCache
use kuberecord.Pipeline.HashCache.{
  HashCache, CacheEntry, commit_if_current, delete_if_current, reserve_delete,
}
use kuberecord.Pipeline.Identity.{Key, cache_key, ephemeral}
use kuberecord.Pipeline.Normalize.{NormalizedObject, normalize_object}
use kuberecord.Pipeline.Process.{
  Pipeline, Writer, Clock, SinkState, upsert, Failure, redaction_unavailable, marshal_failed,
  enqueue_failed, after, dedup_skip, event_coalesce_skip, requeue, count, enqueue,
  record_cache_entries, scope_warm, record_scope_unwarmed, enqueue_close_out, deleted_row,
  if_claimed,
}
use kuberecord.Pipeline.Redact.{RedactionPolicy}
use kuberecord.Pipeline.Change.{
  Coalescing, coalescing, Change, full_state, modified, count_refusal, confirmed_entry, row_of,
}

-- `revertVersion`
unfoldable pub revert_version : Text → ℕ → Option CacheEntry → SinkState → SinkState
revert_version object_key version none s = record s {
  cache = (delete_if_current object_key version s.cache).0;
}
revert_version object_key version (some old) s = record s {
  cache = (commit_if_current object_key version old s.cache).0;
}

abbrev pub or_revert : Text → ℕ → Option CacheEntry → SinkState × Bool → SinkState × Option Failure
or_revert object_key version old (s, true) = (s, none)
or_revert object_key version old (s, false) =
    (revert_version object_key version old s, some enqueue_failed)

-- From `Reserve` to the end of `processUpsert`.
unfoldable pub write_change :
    Pipeline
    → Writer
    → Clock
    → Key
    → NormalizedObject
    → Coalescing
    → Option CacheEntry
    → Change
    → SinkState
    → SinkState × Option Failure
write_change p w clock key norm co old change s =
    let entry = confirmed_entry p (ephemeral key) norm change.modified_run in
    let (cache, version) = HashCache.reserve (cache_key key) entry s.cache in
    or_revert (cache_key key) version old (
      enqueue w
        (record {
          row = row_of p clock key norm change;
          commit = upsert key version entry old co.hash clock.stamped_at co.window;
        })
        (record_cache_entries (record s { cache = cache })))

-- A key without an entry: a first sight, hedged as a Snapshot in a scope that is not warm.
unfoldable pub write_new :
    Pipeline
    → Writer
    → Clock
    → Key
    → NormalizedObject
    → Coalescing
    → SinkState
    → SinkState × Option Failure
write_new p w clock key norm co s =
    if not (ephemeral key) && not (scope_warm key s)
    then write_change p w clock key norm co none (full_state (codes "Snapshot"))
        (record_scope_unwarmed key s)
    else write_change p w clock key norm co none (full_state (codes "Added")) s

-- What a reincarnation does for the old object: an Event's is passed over, any other that can be
-- claimed is closed out.
unfoldable pub close_predecessor :
    Pipeline → Writer → Clock → Key → CacheEntry → SinkState → SinkState
close_predecessor p w clock key cached s =
    let claim = reserve_delete (cache_key key) cached.uid s.cache in
    if ephemeral key
    then s
    else if_claimed claim.outcome
        (enqueue_close_out w key (deleted_row p clock key claim.entry)
          (record s { cache = claim.cache }))
        s

-- A changed object, which is written unless its bump is coalesced.
unfoldable pub write_modified :
    Pipeline
    → Writer
    → Clock
    → Key
    → NormalizedObject
    → Coalescing
    → CacheEntry
    → SinkState
    → SinkState × Option Failure
write_modified p w clock key norm co cached s =
    let (flush_after, skip) =
      decide (cache_key key) co.hash co.window clock.decided_at s.coalesce in
    let change = modified p w (ephemeral key) cached norm in
    if skip
    then (requeue (after key flush_after) (count event_coalesce_skip s), none)
    else write_change p w clock key norm co (some cached) change (count_refusal change s)

-- The block of deduplication and reincarnation, on the entry that the key holds.
unfoldable pub write_known :
    Pipeline
    → Writer
    → Clock
    → Key
    → NormalizedObject
    → Coalescing
    → CacheEntry
    → SinkState
    → SinkState × Option Failure
write_known p w clock key norm co cached s =
    if not (cached.uid == []) && not (cached.uid == norm.uid)
    then write_change p w clock key norm co none (full_state (codes "Added"))
        (close_predecessor p w clock key cached s)
    else if cached.hash == norm.hash
    then (count dedup_skip s, none)
    else write_modified p w clock key norm co cached s

-- Whether the key holds an entry.
abbrev pub write_by_entry :
    Pipeline
    → Writer
    → Clock
    → Key
    → NormalizedObject
    → Coalescing
    → Option CacheEntry
    → SinkState
    → SinkState × Option Failure
write_by_entry p w clock key norm co none s = write_new p w clock key norm co s
write_by_entry p w clock key norm co (some cached) s = write_known p w clock key norm co cached s

-- `processUpsert` on the normalized object
unfoldable pub write_object :
    Pipeline → Writer → Clock → Key → NormalizedObject → SinkState → SinkState × Option Failure
write_object p w clock key norm s =
    write_by_entry p w clock key norm (coalescing p w (ephemeral key) norm)
      (HashCache.load (cache_key key) s.cache) s

abbrev pub normalized :
    Pipeline
    → Writer
    → Clock
    → Key
    → Option NormalizedObject
    → SinkState
    → SinkState × Option Failure
normalized p w clock key none s = (s, some marshal_failed)
normalized p w clock key (some norm) s = write_object p w clock key norm s

-- `processUpsert`; the policy is what `redactionFor` answers, `none` where it has none.
unfoldable pub process_upsert :
    Pipeline
    → Writer
    → Clock
    → Key
    → Option (Option RedactionPolicy)
    → Fields
    → SinkState
    → SinkState × Option Failure
process_upsert p w clock key none object s = (s, some redaction_unavailable)
process_upsert p w clock key (some policy) object s =
    normalized p w clock key (normalize_object p.encoding object policy) s
