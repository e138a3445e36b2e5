-- ===== src/Pipeline/WorkItem/DeletedRows.antt =====
-- A deletion of an object that is no Event says nothing of Events.
use kuberecord.Base.{ℕ, ◌≡◌, Bool, true, false, Option, refl, text_eq}
use kuberecord.Base.Text.{Text}
use kuberecord.Pipeline.HashCache.{Claim, reserve_delete, DeleteClaimOutcome}
use kuberecord.Pipeline.Identity.{Key, cache_key, ephemeral}
use kuberecord.Pipeline.Process.{
  Pipeline, Writer, Clock, SinkState, Failure, or_unclaim, emit_claimed, emit_delete, if_claimed,
  set_cache,
}
use kuberecord.Pipeline.WorkItem.Honesty.{IsClean, IsClean-of, enqueue-IsClean}
use kuberecord.Pipeline.WorkItem.LiveRows.{deleted_row-IsHonest}

module _ (p : Pipeline) (w : Writer) (clock : Clock) (key : Key) where
  or_unclaim-IsClean : (v : ℕ) (r : SinkState × Bool) → IsClean r.0 → IsClean (or_unclaim key v r).0
  or_unclaim-IsClean v (s, true) c = c
  or_unclaim-IsClean v (s, false) c = IsClean-of s _ refl refl c

  emit_claimed-IsClean :
      (claim : Claim) (s : SinkState)
      → ephemeral key ≡ false
      → IsClean s
      → IsClean (emit_claimed p w clock key claim s).0
  unfolding emit_claimed
  emit_claimed-IsClean claim s lasting c = or_unclaim-IsClean claim.version _ (
      enqueue-IsClean w _ (set_cache claim.cache s)
        (deleted_row-IsHonest p w clock key claim.entry lasting) (IsClean-of s _ refl refl c))

  if_claimed_delete :
      (o : DeleteClaimOutcome) (r t : SinkState × DeleteClaimOutcome × Option Failure)
      → IsClean r.0
      → IsClean t.0
      → IsClean (if_claimed o r t).0
  if_claimed_delete DeleteClaimOutcome.claimed r t x y = x
  if_claimed_delete _ r t x y = y

  pub emit_delete-IsClean :
      (uid : Text) (s : SinkState)
      → ephemeral key ≡ false
      → IsClean s
      → IsClean (emit_delete p w clock key uid s).0
  unfolding emit_delete
  emit_delete-IsClean uid s lasting c =
      if_claimed_delete (reserve_delete (cache_key key) uid s.cache).outcome _ _
        (emit_claimed-IsClean (reserve_delete (cache_key key) uid s.cache) s lasting c) c
