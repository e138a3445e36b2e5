-- ===== src/Pipeline/Change.antt =====
-- internal/pipeline/process.go: what a row says of a changed object, its coalescing, and the cache
-- entry and the row that come of it.
use kuberecord.Base.{
  ℕ, ◌+◌, Bool, true, false, Option, none, some, [], nat_eq, text_eq, if◌then◌else◌,
}
use kuberecord.Base.Int.{ℤ, pos, leb_ℤ}
use kuberecord.Base.Json.{entries}
use kuberecord.Base.Text.{Text, codes}
use kuberecord.Pipeline.Coalesce.{event_coalesce_hash}
use kuberecord.Pipeline.Diff.{
  Diff, patch, refused, empty_interior_token, Decoded, compress_baseline, decode_baseline,
  compute_diff, checkpoint_due, CheckpointReason,
}
use kuberecord.Pipeline.HashCache.{CacheEntry, raw}
use kuberecord.Pipeline.Identity.{Key}
use kuberecord.Pipeline.Normalize.{NormalizedObject}
use kuberecord.Pipeline.Process.{
  Pipeline, Writer, Clock, SinkState, diff_refusal, count, coalesce_window_for,
  checkpoint_every_for,
}
use kuberecord.Sink.Record.{SinkRecord}

-- `coalesceWindow` and `coalesceHash`
pub record Coalescing : Type 0 where
  pub window : ℤ
  pub hash : Text

abbrev projected : ℤ → Option Text → Coalescing
projected window none = record { window = pos 0; hash = [] }
projected window (some hash) = record { window = window; hash = hash }

-- How bumps of this object are coalesced: not at all unless it is an Event and the sink asks.
unfoldable pub coalescing : Pipeline → Writer → Bool → NormalizedObject → Coalescing
coalescing p w false norm = record { window = pos 0; hash = [] }
coalescing p w true norm =
    if leb_ℤ (coalesce_window_for w) (pos 0)
    then record { window = coalesce_window_for w; hash = [] }
    else projected (coalesce_window_for w) (event_coalesce_hash p.digest (entries norm.normalized))

-- What a row says of the object: `eventType`, `diffString`, `carriesFullState`, `modifiedRun`, and
-- whether its diff was refused by design.
pub record Change : Type 0 where
  pub event_type : Text
  pub diff : Text
  pub carries_full_state : Bool
  pub modified_run : ℕ
  pub diff_refused : Bool

abbrev pub full_state : Text → Change
full_state event_type = record {
  event_type = event_type;
  diff = [];
  carries_full_state = true;
  modified_run = 0;
  diff_refused = false;
}

abbrev pub of_reason : Text → ℕ → Option CheckpointReason → Change
of_reason bytes run (some reason) = record {
  event_type = codes "Checkpoint";
  diff = bytes;
  carries_full_state = true;
  modified_run = 0;
  diff_refused = false;
}
of_reason bytes run none = record {
  event_type = codes "Modified";
  diff = bytes;
  carries_full_state = false;
  modified_run = run;
  diff_refused = false;
}

-- The last two rungs: a checkpoint carries the diff and the state, any other row the diff alone.
unfoldable pub diffed : Writer → NormalizedObject → ℕ → Text → Change
diffed w norm run bytes =
    of_reason bytes run (checkpoint_due (checkpoint_every_for w) run bytes norm.json)

-- The rungs on the outcome of `ComputeDiff`.
unfoldable pub of_diff : Writer → NormalizedObject → ℕ → Diff → Change
of_diff w norm run (refused empty_interior_token) = record (full_state (codes "Modified")) {
  diff_refused = true;
}
of_diff w norm run (refused error) = full_state (codes "Modified")
of_diff w norm run (patch bytes) = diffed w norm run bytes

abbrev or_no_bytes : Option Text → Text
or_no_bytes none = []
or_no_bytes (some bytes) = bytes

-- The rung on the decoded baseline.
unfoldable pub of_baseline : Pipeline → Writer → NormalizedObject → ℕ → Decoded → Change
of_baseline p w norm run Decoded.err = full_state (codes "Modified")
of_baseline p w norm run (Decoded.ok baseline) =
    of_diff w norm run (compute_diff p.diffing (or_no_bytes baseline) norm.json)

-- An entry restored from the sink's history has no baseline.
abbrev pub of_stored : Change → Option Text → Change
of_stored change none = full_state (codes "Modified")
of_stored change (some _) = change

-- The ladder of an object that its entry shows to have changed.
unfoldable pub modified : Pipeline → Writer → Bool → CacheEntry → NormalizedObject → Change
modified p w true cached norm = full_state (codes "Modified")
modified p w false cached norm =
    of_stored
      (of_baseline p w norm (cached.modified_since_checkpoint + 1) (decode_baseline p.codec cached))
      cached.json

-- The state after the ladder, which counts a refused diff.
abbrev pub count_refusal : Change → SinkState → SinkState
count_refusal change s = if change.diff_refused then count diff_refusal s else s

-- The entry that a confirmed write leaves.
unfoldable pub confirmed_entry : Pipeline → Bool → NormalizedObject → ℕ → CacheEntry
confirmed_entry p true norm run = record {
  hash = norm.hash;
  json = none;
  encoding = raw;
  uid = norm.uid;
  api_version = norm.api_version;
  modified_since_checkpoint = run;
  version = 0;
  pending_delete = false;
}
confirmed_entry p false norm run =
    let (bytes, encoding, _) = compress_baseline p.codec norm.json in
    record {
      hash = norm.hash;
      json = some bytes;
      encoding = encoding;
      uid = norm.uid;
      api_version = norm.api_version;
      modified_since_checkpoint = run;
      version = 0;
      pending_delete = false;
    }

-- The row of a change.
unfoldable pub row_of : Pipeline → Clock → Key → NormalizedObject → Change → SinkRecord
row_of p clock key norm change = record {
  timestamp = clock.stamped_at;
  cluster_id = p.cluster_id;
  event_type = change.event_type;
  api_group = key.group;
  api_version = norm.api_version;
  kind = key.kind;
  namespace = key.namespace;
  name = key.name;
  uid = norm.uid;
  resource_version = norm.resource_version;
  labels = norm.labels;
  actors = norm.actors;
  state = if change.carries_full_state then norm.json else [];
  diff = change.diff;
  sha256 = norm.hash;
}
