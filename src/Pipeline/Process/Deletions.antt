-- ===== src/Pipeline/Process/Deletions.antt =====
-- A deletion is handed over once, whatever delivers it again, and a refusal loses nothing.
use kuberecord.Base.{◌≡◌, true, false, none, some, [], ◌∷◌, ◌++◌, refl, text_eq}
use kuberecord.Base.Map.{lookup}
use kuberecord.Base.Text.{Text}
use kuberecord.Pipeline.HashCache.{
  Claim, reserve_delete, unclaim_delete, claimed, in_flight, refuse,
}
use kuberecord.Pipeline.HashCache.Claims.{claim_settled}
use kuberecord.Pipeline.Identity.{Key, cache_key}
use kuberecord.Pipeline.Process.{
  Pipeline, Writer, Clock, SinkState, deletion, enqueue_failed, enqueue, deleted_row, emit_claimed,
  emit_delete, set_cache,
}

module _ (p : Pipeline) (w : Writer) (clock : Clock) (key : Key) (uid : Text) (s : SinkState) where
  abbrev pub claim : Claim
  claim = reserve_delete (cache_key key) uid s.cache

  -- the state in which the deletion is handed over
  abbrev pub handed_over : SinkState
  handed_over = record s {
    cache = claim.cache;
    jobs =
        s.jobs
        ++ (record {
          row = deleted_row p clock key claim.entry;
          commit = deletion key claim.version;
        }
            ∷ []);
  }

  emit_delete_taken :
      claim.outcome ≡ claimed
      → w.takes (deleted_row p clock key claim.entry) ≡ true
      → emit_delete p w clock key uid s ≡ (handed_over, claimed, none)
  unfolding emit_delete emit_claimed enqueue
  emit_delete_taken h t = rw (h, t) refl

  claimed_again :
      (other : Text)
      → claim.outcome ≡ claimed
      → reserve_delete (cache_key key) other claim.cache ≡ refuse claim.cache in_flight
  claimed_again other h = (claim_settled (cache_key key) uid other s.cache h).0

  emit_delete_again :
      (clock' : Clock) (other : Text)
      → claim.outcome ≡ claimed
      → emit_delete p w clock' key other handed_over ≡ (handed_over, in_flight, none)
  unfolding emit_delete
  emit_delete_again clock' other h = rw (claimed_again other h) refl

  -- A deletion that is claimed and whose row the sink takes is handed over once: one Deleted row with
  -- the claimed entry's UID, and until its callback any further delivery, whatever UID it expects,
  -- hands over nothing and changes nothing.
  pub emit_delete_once :
      (clock' : Clock) (other : Text)
      → claim.outcome ≡ claimed
      → w.takes (deleted_row p clock key claim.entry) ≡ true
      → (emit_delete p w clock key uid s ≡ (handed_over, claimed, none))
        × (emit_delete p w clock' key other handed_over ≡ (handed_over, in_flight, none))
  emit_delete_once clock' other h t = (emit_delete_taken h t, emit_delete_again clock' other h)

  -- A deletion that is claimed and whose row the sink does not take is to be asked for again: nothing
  -- is handed over, and the key has the claimed entry back, unclaimed.
  pub emit_delete_refused :
      claim.outcome ≡ claimed
      → w.takes (deleted_row p clock key claim.entry) ≡ false
      → (s' : SinkState) × (emit_delete p w clock key uid s ≡ (s', claimed, some enqueue_failed))
        × (s'.jobs ≡ s.jobs)
        × (lookup (cache_key key) s'.cache
            ≡ some (record claim.entry { version = claim.version; pending_delete = false }))
  unfolding emit_delete emit_claimed enqueue
  emit_delete_refused h t = (
    set_cache (unclaim_delete (cache_key key) claim.version claim.cache) (set_cache claim.cache s),
    rw (h, t) refl,
    refl,
    (claim_settled (cache_key key) uid uid s.cache h).1,
  )
