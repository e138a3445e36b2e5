-- ===== src/Pipeline/Sweep/Honesty.antt =====
-- A warm-up says of no Event that it was deleted.
use kuberecord.Base.{◌≡◌, false, refl, ◌∙◌}
use kuberecord.Base.Text.{Text}
use kuberecord.Pipeline.Identity.{scope_ephemeral, ephemeral}
use kuberecord.Pipeline.Process.{Pipeline}
use kuberecord.Pipeline.WorkItem.Honesty.{IsHonest, IsClean, IsClean-of, enqueue_close_out-IsClean}
use kuberecord.Pipeline.WorkItem.DeletedRows.{emit_delete-IsClean}
use kuberecord.Pipeline.Warm.{ScopeRef, ref_key, Reincarnation, close_out_record, Warming}
use kuberecord.Pipeline.Sweep.Run.{Meeting, warm}
use kuberecord.Pipeline.Sweep.Keeping.{Keeps, warm-keeps}

module _ (p : Pipeline) (ref : ScopeRef) where
  lasting_key :
      (namespace name : Text) → ephemeral (ref_key ref namespace name) ≡ scope_ephemeral ref.scope
  unfolding ephemeral scope_ephemeral ref_key
  lasting_key namespace name = refl

  close_out_record-IsHonest :
      (prior : Reincarnation)
      → scope_ephemeral ref.scope ≡ false
      → IsHonest (close_out_record p.cluster_id (ref_key ref prior.namespace prior.name) prior)
  unfolding close_out_record ref_key scope_ephemeral
  close_out_record-IsHonest prior lasting event = absurd (cc)

  lasting-Keeps : scope_ephemeral ref.scope ≡ false → Keeps p ref IsClean
  lasting-Keeps lasting = record {
    closes = λ w prior s c.
        enqueue_close_out-IsClean w (ref_key ref prior.namespace prior.name) _ s
          (close_out_record-IsHonest prior lasting) c;
    deletes = λ w clock target s c.
        emit_delete-IsClean p w clock (ref_key ref target.namespace target.name) target.uid s
          (lasting_key target.namespace target.name ∙ lasting) c;
  }

  pub warm-IsClean :
      (meeting : Meeting) (w : Warming) → IsClean w.state → IsClean (warm p ref meeting w).state
  warm-IsClean meeting w c =
      warm-keeps ref IsClean IsClean-of p meeting w (λ lasting _. lasting-Keeps lasting) c
