-- ===== src/Pipeline/Upsert/Runs.antt =====
-- The run of diffs between two full states.
use kuberecord.Base.{
  ℕ, ◌+◌, ◌<◌, ◌≤◌, ◌≡◌, ◌⊎◌, inl, inr, true, false, Bool, Option, none, some, refl, text_eq,
  length,
}
use kuberecord.Base.Text.{Text}
use kuberecord.Pipeline.Change.{
  Change, of_reason, of_stored, diffed, of_diff, of_baseline, modified,
}
use kuberecord.Pipeline.Diff.{
  Diff, patch, refused, comparing, marshalling, empty_interior_token, Decoded, CheckpointReason,
  checkpoint_due,
}
use kuberecord.Pipeline.Diff.Tokens.{checkpoint_due-bounds}
use kuberecord.Pipeline.HashCache.{CacheEntry}
use kuberecord.Pipeline.Normalize.{NormalizedObject}
use kuberecord.Pipeline.Process.{Pipeline, Writer, checkpoint_every_for}

-- A change carries the full state and starts a new run, or it carries a diff alone and goes on with
-- the run, which is shorter than a positive interval and whose diff is then no longer than the state.
abbrev pub Continues : ℕ → ℕ → Text → Change → Type 0
Continues every run json change =
    ((change.carries_full_state ≡ true) × (change.modified_run ≡ 0))
    ⊎ ((change.carries_full_state ≡ false)
        × (change.modified_run ≡ run)
        × ((every ≡ 0) ⊎ ((run < every) × (length change.diff ≤ length json))))

module _ (p : Pipeline) (w : Writer) (norm : NormalizedObject) (run : ℕ) where
  of_reason-Continues :
      (bytes : Text) (o : Option CheckpointReason)
      → checkpoint_due (checkpoint_every_for w) run bytes norm.json ≡ o
      → Continues (checkpoint_every_for w) run norm.json (of_reason bytes run o)
  of_reason-Continues bytes none e =
      inr (refl, refl, ((checkpoint_due-bounds (checkpoint_every_for w) run bytes norm.json).0).0 e)
  of_reason-Continues bytes (some reason) e = inl (refl, refl)

  of_diff-Continues :
      (d : Diff) → Continues (checkpoint_every_for w) run norm.json (of_diff w norm run d)
  unfolding of_diff diffed
  of_diff-Continues (refused comparing) = inl (refl, refl)
  of_diff-Continues (refused marshalling) = inl (refl, refl)
  of_diff-Continues (refused empty_interior_token) = inl (refl, refl)
  of_diff-Continues (patch bytes) = of_reason-Continues bytes _ refl

  of_baseline-Continues :
      (d : Decoded) → Continues (checkpoint_every_for w) run norm.json (of_baseline p w norm run d)
  unfolding of_baseline
  of_baseline-Continues Decoded.err = inl (refl, refl)
  of_baseline-Continues (Decoded.ok o) = of_diff-Continues _

of_stored-Continues :
    (every run : ℕ) (json : Text) (change : Change) (o : Option Text)
    → Continues every run json change
    → Continues every run json (of_stored change o)
of_stored-Continues every run json change none h = inl (refl, refl)
of_stored-Continues every run json change (some b) h = h

-- Whatever the entry and the baseline, a changed object is recorded in full, which starts a new run,
-- or as a diff alone, which goes on with the entry's run. In the second case, if the sink has a
-- checkpoint interval, the run is shorter than it and the diff no longer than the object.
pub modified-Continues :
    (p : Pipeline) (w : Writer) (is_event : Bool) (entry : CacheEntry) (norm : NormalizedObject)
    → Continues
        (checkpoint_every_for w)
        (entry.modified_since_checkpoint + 1)
        norm.json
        (modified p w is_event entry norm)
unfolding modified
modified-Continues p w true entry norm = inl (refl, refl)
modified-Continues p w false entry norm =
    of_stored-Continues _ _ norm.json _ entry.json (of_baseline-Continues p w norm _ _)
