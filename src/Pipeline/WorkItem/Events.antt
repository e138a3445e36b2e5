-- ===== src/Pipeline/WorkItem/Events.antt =====
-- The expiry of an Event is no deletion: no Deleted row is ever written for one.
use kuberecord.Base.{
  ◌≡◌, Bool, true, false, not, ◌&&◌, Option, none, some, [], List, refl, text_eq, if◌then◌else◌,
  All,
}
use kuberecord.Base.Json.{Fields}
use kuberecord.Base.Lists.{Elem, Elem-All}
use kuberecord.Pipeline.Coalesce.{forget}
use kuberecord.Pipeline.HashCache.{Claim, reserve_delete, delete_if_current}
use kuberecord.Pipeline.Identity.{Key, ScopeKey, cache_key, ephemeral}
use kuberecord.Pipeline.Process.{
  Pipeline, Writer, SinkState, Job, Settlement, close_out, upsert, deletion, Failure,
  forget_ephemeral, forget_claimed, set_cache, record_cache_entries, add_close_out, pending_for,
}
use kuberecord.Sink.Record.{SinkRecord}
use kuberecord.Pipeline.Upsert.{revert_version}
use kuberecord.Base.Map.{lookup}
use kuberecord.Pipeline.WorkItem.{
  Item, Lookup, failed, answer, with_writer, process_with, process_found, process, is_gone,
  or_requeue, process_next, settle_with, settle, evict_state, empty_state,
}
use kuberecord.Pipeline.WorkItem.Honesty.{
  IsHonest, IsClean, IsClean-of, retry_pending-IsClean, add_close_out-IsClean,
}
use kuberecord.Pipeline.WorkItem.DeletedRows.{emit_delete-IsClean}
use kuberecord.Pipeline.Sweep.Honesty.{warm-IsClean}
use kuberecord.Pipeline.Sweep.Run.{Meeting, warm}
use kuberecord.Pipeline.Warm.{ScopeRef}
use kuberecord.Sink.Identity.{SinkId}
use kuberecord.Pipeline.WorkItem.LiveRows.{
  Ends, if-Ends, process_upsert-IsClean, if_claimed-IsClean, revert_version-IsClean,
  counted-IsClean,
}

if-IsClean : (b : Bool) (s t : SinkState) → IsClean s → IsClean t → IsClean (if b then s else t)
if-IsClean true s t c d = c
if-IsClean false s t c d = d

forget_claimed-IsClean :
    (key : Key) (claim : Claim) (s : SinkState) → IsClean s → IsClean (forget_claimed key claim s)
unfolding forget_claimed
forget_claimed-IsClean key claim s c =
    let deleted = delete_if_current (cache_key key) claim.version claim.cache in
    if-IsClean deleted.1 (record_cache_entries (set_cache deleted.0 s)) (set_cache deleted.0 s)
      (counted-IsClean deleted.0 s c) (IsClean-of s _ refl refl c)

forget_ephemeral-IsClean :
    (key : Key) (s : SinkState) → IsClean s → IsClean (forget_ephemeral key s)
unfolding forget_ephemeral
forget_ephemeral-IsClean key s c =
    let forgotten =
      IsClean-of s (record s { coalesce = forget (cache_key key) s.coalesce }) refl refl c in
    if_claimed-IsClean (reserve_delete (cache_key key) [] s.cache).outcome _ _
      (forget_claimed-IsClean key (reserve_delete (cache_key key) [] s.cache) _ forgotten) forgotten

if_gone_event :
    (b : Bool) (s : SinkState) (r t : SinkState × Option Failure)
    → (b ≡ true → Ends r)
    → (b ≡ false → Ends t)
    → Ends (if b then r else t)
if_gone_event true s r t x y = x refl
if_gone_event false s r t x y = y refl

module _ (p : Pipeline) (item : Item) (key : Key) where
  process_with-IsClean :
      (object : Option Fields) (w : Writer) (s : SinkState)
      → is_gone object && ephemeral key ≡ false
      → IsClean s
      → Ends (process_with p item key object w s)
  unfolding process_with
  process_with-IsClean none w s lasting c =
      emit_delete-IsClean p w item.clock key [] _ lasting (retry_pending-IsClean w key s c)
  process_with-IsClean (some object) w s _ c =
      process_upsert-IsClean p w item.clock key item.redaction object _
        (retry_pending-IsClean w key s c)

  with_writer-IsClean :
      (object : Option Fields) (o : Option Writer) (s : SinkState)
      → is_gone object && ephemeral key ≡ false
      → IsClean s
      → Ends (with_writer p item key object o s)
  with_writer-IsClean object none s lasting c = c
  with_writer-IsClean object (some w) s lasting c = process_with-IsClean object w s lasting c

  process_found-IsClean :
      (found : Lookup) (s : SinkState) → IsClean s → Ends (process_found p item key found s)
  process_found-IsClean failed s c = c
  process_found-IsClean (answer object scope_active) s c =
      if-Ends (not scope_active) _ _ (IsClean-of s _ refl refl c) (
        if_gone_event (is_gone object && ephemeral key) s _ _
          (λ _. forget_ephemeral-IsClean key _ (IsClean-of s _ refl refl c))
          (λ lasting. with_writer-IsClean object item.writer s lasting c))

or_requeue-IsClean :
    (key : Key) (r : SinkState × Option Failure) → IsClean r.0 → IsClean (or_requeue key r)
or_requeue-IsClean key (s, none) c = c
or_requeue-IsClean key (s, some _) c = IsClean-of s _ refl refl c

settle_with-IsClean :
    (row : SinkRecord) (commit : Settlement) (ok : Bool) (s : SinkState)
    → IsHonest row
    → IsClean s
    → IsClean (settle_with row commit ok s)
settle_with-IsClean row (upsert key v e o h t w) true s honest c = IsClean-of s _ refl refl c
settle_with-IsClean row (upsert key v e o h t w) false s honest c =
    IsClean-of (revert_version (cache_key key) v o s) _ refl refl
      (revert_version-IsClean (cache_key key) v o s c)
settle_with-IsClean row (deletion key v) true s honest c = counted-IsClean _ s c
settle_with-IsClean row (deletion key v) false s honest c = IsClean-of s _ refl refl c
settle_with-IsClean row (close_out key) true s honest c = c
settle_with-IsClean row (close_out key) false s honest c =
    IsClean-of (add_close_out (cache_key key) row s) _ refl refl
      (add_close_out-IsClean (cache_key key) row s honest c)

-- What a sink's state goes through: work items, evictions, the callbacks of the jobs handed over, and
-- warm-ups of its scopes, in any order.
pub data Runs : SinkState → SinkState → Type 0 where
  here : {s : SinkState} → Runs s s
  works :
      {s s' : SinkState} (p : Pipeline) (item : Item) (key : Key)
      → Runs (process_next p item key s) s'
      → Runs s s'
  settles :
      {s s' : SinkState} (job : Job) (ok : Bool)
      → Elem job s.jobs
      → Runs (settle job ok s) s'
      → Runs s s'
  evicts : {s s' : SinkState} (sc : ScopeKey) → Runs (evict_state sc s) s' → Runs s s'
  warms :
      {s s' : SinkState} (p : Pipeline) (ref : ScopeRef) (meeting : Meeting)
      (writer_only : List SinkId)
      → Runs (warm p ref meeting (record { state = s; writer_only = writer_only })).state s'
      → Runs s s'

process_next-IsClean :
    (p : Pipeline) (item : Item) (key : Key) (s : SinkState)
    → IsClean s
    → IsClean (process_next p item key s)
unfolding process_next process
process_next-IsClean p item key s c =
    or_requeue-IsClean key _ (process_found-IsClean p item key item.found s c)

settle-IsClean :
    (job : Job) (ok : Bool) (s : SinkState)
    → IsHonest job.row
    → IsClean s
    → IsClean (settle job ok s)
unfolding settle
settle-IsClean job ok s honest c = settle_with-IsClean job.row job.commit ok s honest c

evict_state-IsClean : (sc : ScopeKey) (s : SinkState) → IsClean s → IsClean (evict_state sc s)
unfolding evict_state record_cache_entries
evict_state-IsClean sc s c = IsClean-of s _ refl refl c

Runs-IsClean : {s s' : SinkState} → Runs s s' → IsClean s → IsClean s'
Runs-IsClean here c = c
Runs-IsClean (works p item key r) c = Runs-IsClean r (process_next-IsClean p item key _ c)
Runs-IsClean (settles job ok m r) c =
    Runs-IsClean r
      (settle-IsClean job ok _ (Elem-All (λ (j : Job). IsHonest j.row) job _ m c.written) c)
Runs-IsClean (evicts sc r) c = Runs-IsClean r (evict_state-IsClean sc _ c)
Runs-IsClean (warms p ref meeting writer_only r) c =
    Runs-IsClean r (warm-IsClean p ref meeting (record { state = _; writer_only = writer_only }) c)

empty-IsClean : IsClean empty_state
empty-IsClean = record { written = tt; waiting = λ k. unfold pending_for lookup in tt }

-- However the work items, evictions, callbacks and warm-ups of a sink follow on each other from its
-- empty state, no row handed to its writer says that an Event was deleted.
pub Runs-IsHonest :
    {s : SinkState} → Runs empty_state s → All (λ (job : Job). IsHonest job.row) s.jobs
Runs-IsHonest r = (Runs-IsClean r empty-IsClean).written
