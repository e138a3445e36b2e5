-- ===== src/Pipeline/Upsert/Postponing.antt =====
-- A bump that is coalesced is not lost: its key is queued again for when the bump may be written.
use kuberecord.Base.{
  ℕ, ◌+◌, ◌<◌, ◌≤◌, ◌≡◌, true, false, Option, none, some, arith, refl, text_eq, Bool-cases, inl,
  inr,
}
use kuberecord.Base.Map.{lookup}
use kuberecord.Base.Int.{ℤ, pos, pos_part}
use kuberecord.Pipeline.Change.{Coalescing, count_refusal, modified}
use kuberecord.Pipeline.Coalesce.{CoalesceEntry, decide}
use kuberecord.Pipeline.Coalesce.Decisions.{Suppresses, decide_deadline, written_at}
use kuberecord.Pipeline.HashCache.{CacheEntry}
use kuberecord.Pipeline.Identity.{Key, cache_key, ephemeral}
use kuberecord.Pipeline.Normalize.{NormalizedObject}
use kuberecord.Pipeline.Process.{
  Pipeline, Writer, Clock, SinkState, requeue, count, after, event_coalesce_skip, Failure,
}
use kuberecord.Pipeline.Upsert.{write_modified, write_change}

module _ (p : Pipeline) (w : Writer) (key : Key) (norm : NormalizedObject) (co : Coalescing)
    (cached : CacheEntry) where
  -- the write of the change
  abbrev pub writes : Clock → SinkState → SinkState × Option Failure
  writes clock s =
      let change = modified p w (ephemeral key) cached norm in
      write_change p w clock key norm co (some cached) change (count_refusal change s)

  write_modified-skipped :
      (clock : Clock) (s : SinkState) (flush : ℤ)
      → (decide (cache_key key) co.hash co.window clock.decided_at s.coalesce).1 ≡ true
      → (decide (cache_key key) co.hash co.window clock.decided_at s.coalesce).0 ≡ flush
      → write_modified p w clock key norm co cached s
        ≡ (requeue (after key flush) (count event_coalesce_skip s), none)
  unfolding write_modified
  write_modified-skipped clock s flush h e = rw h (rw e refl)

  write_modified-written :
      (clock : Clock) (s : SinkState)
      → (decide (cache_key key) co.hash co.window clock.decided_at s.coalesce).1 ≡ false
      → write_modified p w clock key norm co cached s ≡ writes clock s
  unfolding write_modified
  write_modified-written clock s h = rw h refl

  -- A changed object goes on to its write at once if no row with the same projection was recorded for
  -- its key less than the window ago. Otherwise nothing is written: the key is queued again, with the
  -- delay that ends when that row leaves the window, at the same instant however often the object bumps;
  -- and from that instant on, in whatever state that still has the row's record, it goes on to the write.
  pub write_modified-postpones :
      (clock : Clock) (s : SinkState)
      → (¬ (
            Suppresses
              (lookup (cache_key key) s.coalesce.entries)
              co.hash
              co.window
              clock.decided_at)
          → write_modified p w clock key norm co cached s ≡ writes clock s)
        × ((last : CoalesceEntry)
            → lookup (cache_key key) s.coalesce.entries ≡ some last
            → Suppresses (some last) co.hash co.window clock.decided_at
            → (flush : ℕ) × (write_modified p w clock key norm co cached s
                ≡ (requeue (after key (pos flush)) (count event_coalesce_skip s), none))
              × (0 < flush)
              × (clock.decided_at + flush ≡ last.at + pos_part co.window)
              × ((later : Clock) (t : SinkState)
                  → lookup (cache_key key) t.coalesce.entries ≡ some last
                  → clock.decided_at + flush ≤ later.decided_at
                  → write_modified p w later key norm co cached t ≡ writes later t))
  write_modified-postpones clock s =
      let (skips, deadline) =
        decide_deadline (cache_key key) co.hash co.window clock.decided_at s.coalesce in
      (
        λ free.
            elim (Bool-cases
              (decide (cache_key key) co.hash co.window clock.decided_at s.coalesce).1) [
                | inl y ↦ absurd (free (skips.0 y))
                | inr n ↦ write_modified-written clock s n
              ],
        λ last e held.
            let (flush, delay, positive, ends, _) = deadline last e (skips.1 (rw e held)) in
            (
              flush,
              write_modified-skipped clock s (pos flush) (skips.1 (rw e held)) delay,
              positive,
              ends,
              λ later t still until. write_modified-written later t (
                  written_at (cache_key key) co.hash co.window clock.decided_at t.coalesce last
                    later.decided_at still (omega (arith, ends, until))),
            ),
      )
