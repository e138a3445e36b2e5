-- ===== src/Pipeline/Sweep/Safety.antt =====
-- What a warm-up records: Deleted rows of its scope's group and kind, behind its gates, and nothing of Events.
use kuberecord.Base.{◌≡◌, ◌≢◌, ◌⊎◌, inl, inr, Bool, true, false, some, refl, ◌∙◌, text_eq}
use kuberecord.Base.Text.{codes}
use kuberecord.Pipeline.Identity.{Key, ScopeKey, scope_ephemeral}
use kuberecord.Pipeline.Process.{
  Pipeline, Writer, SinkState, Job, close_out, enqueue_close_out, or_keep, keep_close_out,
  add_close_out, emit_delete,
}
use kuberecord.Sink.Record.{SinkRecord}
use kuberecord.Pipeline.Warm.{ScopeRef, ref_key, close_out_record, Warming}
use kuberecord.Pipeline.Sweep.Run.{Meeting, scope_was_active, warm}
use kuberecord.Pipeline.Sweep.Evidence.{Adds, Adds-none, Adds-trans, emit_delete-Adds, enqueue-Adds}
use kuberecord.Pipeline.Sweep.Keeping.{Keeps, Logged, warm-keeps}

or_keep-Adds :
    (P : Job → Type 0) (key : Key) (row : SinkRecord) (s : SinkState) (r : SinkState × Bool)
    → Adds P s r.0
    → Adds P s (or_keep key row r)
unfolding keep_close_out add_close_out
or_keep-Adds P key row s (t, true) a = a
or_keep-Adds P key row s (t, false) a = a

enqueue_close_out-Adds :
    (P : Job → Type 0) (w : Writer) (key : Key) (row : SinkRecord) (s : SinkState)
    → P (record { row = row; commit = close_out key })
    → Adds P s (enqueue_close_out w key row s)
unfolding enqueue_close_out
enqueue_close_out-Adds P w key row s h =
    or_keep-Adds P key row s _ (enqueue-Adds P w (record { row = row; commit = close_out key }) s h)

-- A Deleted row of an object of the scope's kind.
abbrev pub DeletedIn : ScopeKey → Job → Type 0
DeletedIn sc job =
    (job.row.event_type ≡ codes "Deleted")
    × (job.row.api_group ≡ sc.group)
    × (job.row.kind ≡ sc.kind)

module _ (p : Pipeline) (ref : ScopeRef) where
  Adds-logged : (P : Job → Type 0) (s : SinkState) → Logged (Adds P s)
  Adds-logged P s t u e f (added, g, ps) = (added, e ∙ g, ps)

  deleted_rows : (s : SinkState) → Keeps p ref (Adds (DeletedIn ref.scope) s)
  unfolding close_out_record ref_key
  deleted_rows s = record {
    closes = λ w prior t a.
        let key = ref_key ref prior.namespace prior.name in
        let row = close_out_record p.cluster_id key prior in
        Adds-trans (DeletedIn ref.scope) s t (enqueue_close_out w key row t) a
          (enqueue_close_out-Adds (DeletedIn ref.scope) w key row t (refl, refl, refl));
    deletes = λ w clock target t a.
        let key = ref_key ref target.namespace target.name in
        Adds-trans (DeletedIn ref.scope) s t (emit_delete p w clock key target.uid t).0 a (
          emit_delete-Adds p w clock key target.uid (DeletedIn ref.scope)
            (λ job deleted. (deleted.0, deleted.1, deleted.2)) t);
  }

  -- A warm-up, whatever it meets, hands over only Deleted rows of its scope's group and kind; and none at all
  -- if the scope is one of Events, or the scope log does not answer that an earlier epoch of it is open.
  pub warm-Records :
      (meeting : Meeting) (w : Warming)
      → Adds (DeletedIn ref.scope) w.state (warm p ref meeting w).state
        × ((scope_ephemeral ref.scope ≡ true) ⊎ (scope_was_active meeting.probes ≢ some true)
            → (warm p ref meeting w).state.jobs ≡ w.state.jobs)
  warm-Records meeting w = (
    warm-keeps ref (Adds (DeletedIn ref.scope) w.state) (Adds-logged (DeletedIn ref.scope) w.state)
        p meeting w (λ _ _. deleted_rows w.state)
        (Adds-none (DeletedIn ref.scope) w.state w.state refl),
    λ closed.
        warm-keeps ref (λ s. s.jobs ≡ w.state.jobs) (λ s t e _ same. e ∙ same) p meeting w
          (λ lasting active.
            absurd (elim closed [ inl events ↦ cc | inr inactive ↦ inactive active ]))
          refl,
  )
