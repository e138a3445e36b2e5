-- ===== src/Pipeline/WorkItem/LiveRows.antt =====
-- Nothing that `processUpsert` writes says that an Event was deleted.
use kuberecord.Base.{
  ℕ, ◌≡◌, ◌≢◌, inl, inr, Bool, true, false, not, ◌&&◌, Option, none, some, [], arith, refl, text_eq,
  ◌==◌, if◌then◌else◌, Bool-cases,
}
use kuberecord.Base.Json.{Fields}
use kuberecord.Base.Text.{Text, codes}
use kuberecord.Pipeline.Coalesce.{decide}
use kuberecord.Pipeline.Diff.{
  Diff, patch, refused, empty_interior_token, comparing, marshalling, Decoded, CheckpointReason,
  checkpoint_due,
}
use kuberecord.Pipeline.HashCache.{
  HashCache, CacheEntry, reserve_delete, DeleteClaimOutcome, claimed,
}
use kuberecord.Pipeline.Identity.{Key, cache_key, ephemeral}
use kuberecord.Pipeline.Normalize.{NormalizedObject}
use kuberecord.Pipeline.Process.{
  Pipeline, Writer, Clock, SinkState, Failure, deleted_row, if_claimed, record_cache_entries,
  record_scope_unwarmed, scope_warm, checkpoint_every_for,
}
use kuberecord.Pipeline.Redact.{RedactionPolicy}
use kuberecord.Pipeline.Change.{
  Change, Coalescing, full_state, of_reason, of_stored, diffed, of_diff, of_baseline, modified,
  row_of, count_refusal,
}
use kuberecord.Pipeline.Upsert.{
  revert_version, or_revert, normalized, write_change, write_new, write_known, write_modified,
  write_object, write_by_entry, close_predecessor, process_upsert,
}
use kuberecord.Pipeline.WorkItem.Honesty.{
  IsHonest, IsClean, IsClean-of, enqueue-IsClean, enqueue_close_out-IsClean,
}

-- The change does not say that the object was deleted.
abbrev IsLive : Change → Type 0
IsLive change = change.event_type ≢ codes "Deleted"

added_live : codes "Added" ≢ codes "Deleted"
added_live = λ e. ground arith

snapshot_live : codes "Snapshot" ≢ codes "Deleted"
snapshot_live = λ e. ground arith

modified_live : codes "Modified" ≢ codes "Deleted"
modified_live = λ e. ground arith

of_reason-IsLive :
    (bytes : Text) (run : ℕ) (o : Option CheckpointReason) → IsLive (of_reason bytes run o)
of_reason-IsLive bytes run none = modified_live
of_reason-IsLive bytes run (some reason) = λ e. ground arith

of_diff-IsLive :
    (w : Writer) (norm : NormalizedObject) (run : ℕ) (d : Diff) → IsLive (of_diff w norm run d)
unfolding of_diff
of_diff-IsLive w norm run (refused comparing) = modified_live
of_diff-IsLive w norm run (refused marshalling) = modified_live
of_diff-IsLive w norm run (refused empty_interior_token) = modified_live
of_diff-IsLive w norm run (patch bytes) =
    unfold diffed in
    of_reason-IsLive bytes run (checkpoint_due (checkpoint_every_for w) run bytes norm.json)

of_baseline-IsLive :
    (p : Pipeline) (w : Writer) (norm : NormalizedObject) (run : ℕ) (d : Decoded)
    → IsLive (of_baseline p w norm run d)
of_baseline-IsLive p w norm run Decoded.err = unfold of_baseline in modified_live
of_baseline-IsLive p w norm run (Decoded.ok o) = unfold of_baseline in of_diff-IsLive w norm run _

of_stored-IsLive : (change : Change) (o : Option Text) → IsLive change → IsLive (of_stored change o)
of_stored-IsLive change none l = modified_live
of_stored-IsLive change (some b) l = l

modified-IsLive :
    (p : Pipeline) (w : Writer) (b : Bool) (entry : CacheEntry) (norm : NormalizedObject)
    → IsLive (modified p w b entry norm)
modified-IsLive p w true entry norm = unfold modified in modified_live
modified-IsLive p w false entry norm =
    unfold modified in of_stored-IsLive _ entry.json (of_baseline-IsLive p w norm _ _)

pub revert_version-IsClean :
    (k : Text) (v : ℕ) (o : Option CacheEntry) (s : SinkState)
    → IsClean s
    → IsClean (revert_version k v o s)
unfolding revert_version
revert_version-IsClean k v none s c = IsClean-of s _ refl refl c
revert_version-IsClean k v (some old) s c = IsClean-of s _ refl refl c

pub counted-IsClean :
    (c : HashCache) (s : SinkState)
    → IsClean s
    → IsClean (record_cache_entries (record s { cache = c }))
unfolding record_cache_entries
counted-IsClean c s clean = IsClean-of s _ refl refl clean

-- the outcome of a work item or of a part of it
abbrev pub Ends : SinkState × Option Failure → Type 0
Ends r = IsClean r.0

pub if-Ends :
    (b : Bool) (r t : SinkState × Option Failure) → Ends r → Ends t → Ends (if b then r else t)
if-Ends true r t x y = x
if-Ends false r t x y = y

pub if_claimed-IsClean :
    (o : DeleteClaimOutcome) (s t : SinkState) → IsClean s → IsClean t → IsClean (if_claimed o s t)
if_claimed-IsClean claimed s t a b = a
if_claimed-IsClean _ s t a b = b

module _ (p : Pipeline) (w : Writer) (clock : Clock) (key : Key) where
  row_of-IsHonest :
      (norm : NormalizedObject) (change : Change)
      → IsLive change
      → IsHonest (row_of p clock key norm change)
  unfolding row_of
  row_of-IsHonest norm change l = λ _. l

  pub deleted_row-IsHonest :
      (entry : CacheEntry) → ephemeral key ≡ false → IsHonest (deleted_row p clock key entry)
  unfolding deleted_row ephemeral
  deleted_row-IsHonest entry lasting = λ e. absurd (ground arith)

  or_revert-IsClean :
      (k : Text) (v : ℕ) (o : Option CacheEntry) (r : SinkState × Bool)
      → IsClean r.0
      → IsClean (or_revert k v o r).0
  or_revert-IsClean k v o (s, true) c = c
  or_revert-IsClean k v o (s, false) c = revert_version-IsClean k v o s c

  unwarmed-IsClean : (s : SinkState) → IsClean s → IsClean (record_scope_unwarmed key s)
  unfolding record_scope_unwarmed
  unwarmed-IsClean s c = IsClean-of s _ refl refl c

  write_change-IsClean :
      (norm : NormalizedObject) (co : Coalescing) (old : Option CacheEntry) (change : Change)
      (s : SinkState)
      → IsLive change
      → IsClean s
      → Ends (write_change p w clock key norm co old change s)
  unfolding write_change
  write_change-IsClean norm co old change s l c =
      or_revert-IsClean (cache_key key) _ old _
        (enqueue-IsClean w _ _ (row_of-IsHonest norm change l) (counted-IsClean _ s c))

  write_new-IsClean :
      (norm : NormalizedObject) (co : Coalescing) (s : SinkState)
      → IsClean s
      → Ends (write_new p w clock key norm co s)
  unfolding write_new
  write_new-IsClean norm co s c =
      if-Ends (not (ephemeral key) && not (scope_warm key s)) _ _
        (write_change-IsClean norm co none (full_state (codes "Snapshot"))
          (record_scope_unwarmed key s) snapshot_live (unwarmed-IsClean s c))
        (write_change-IsClean norm co none (full_state (codes "Added")) s added_live c)

  close_predecessor-IsClean :
      (entry : CacheEntry) (s : SinkState)
      → IsClean s
      → IsClean (close_predecessor p w clock key entry s)
  unfolding close_predecessor
  close_predecessor-IsClean entry s c = elim (Bool-cases (ephemeral key)) [
    | inl event ↦ rw event c
    | inr lasting ↦ rw lasting (
        let claim = reserve_delete (cache_key key) entry.uid s.cache in
        if_claimed-IsClean claim.outcome _ s
          (enqueue_close_out-IsClean w key (deleted_row p clock key claim.entry)
            (record s { cache = claim.cache }) (deleted_row-IsHonest claim.entry lasting)
            (IsClean-of s _ refl refl c))
          c)
  ]

  write_modified-IsClean :
      (norm : NormalizedObject) (co : Coalescing) (entry : CacheEntry) (s : SinkState)
      → IsClean s
      → Ends (write_modified p w clock key norm co entry s)
  unfolding write_modified
  write_modified-IsClean norm co entry s c =
      if-Ends (decide (cache_key key) co.hash co.window clock.decided_at s.coalesce).1 _ _
        (IsClean-of s _ refl refl c)
        (write_change-IsClean norm co (some entry) (modified p w (ephemeral key) entry norm)
          (count_refusal (modified p w (ephemeral key) entry norm) s)
          (modified-IsLive p w (ephemeral key) entry norm)
          (IsClean-of s _ (ground arith) (ground arith) c))

  write_known-IsClean :
      (norm : NormalizedObject) (co : Coalescing) (entry : CacheEntry) (s : SinkState)
      → IsClean s
      → Ends (write_known p w clock key norm co entry s)
  unfolding write_known
  write_known-IsClean norm co entry s c =
      if-Ends (not (entry.uid == []) && not (entry.uid == norm.uid)) _ _
        (write_change-IsClean norm co none (full_state (codes "Added")) _ added_live
          (close_predecessor-IsClean entry s c))
        (if-Ends (entry.hash == norm.hash) _ _ (IsClean-of s _ refl refl c)
          (write_modified-IsClean norm co entry s c))

  write_by_entry-IsClean :
      (norm : NormalizedObject) (co : Coalescing) (o : Option CacheEntry) (s : SinkState)
      → IsClean s
      → Ends (write_by_entry p w clock key norm co o s)
  write_by_entry-IsClean norm co none s c = write_new-IsClean norm co s c
  write_by_entry-IsClean norm co (some e) s c = write_known-IsClean norm co e s c

  normalized-IsClean :
      (o : Option NormalizedObject) (s : SinkState)
      → IsClean s
      → Ends (normalized p w clock key o s)
  normalized-IsClean none s c = c
  normalized-IsClean (some norm) s c = unfold write_object in write_by_entry-IsClean norm _ _ s c

  pub process_upsert-IsClean :
      (policy : Option (Option RedactionPolicy)) (object : Fields) (s : SinkState)
      → IsClean s
      → Ends (process_upsert p w clock key policy object s)
  unfolding process_upsert
  process_upsert-IsClean none object s c = c
  process_upsert-IsClean (some policy) object s c = normalized-IsClean _ s c
