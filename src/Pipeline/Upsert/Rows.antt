-- ===== src/Pipeline/Upsert/Rows.antt =====
-- What one write leaves behind: the row that it hands over, and the entry that it reserves.
use kuberecord.Base.{
  ◌≡◌, true, Option, none, some, [], ◌∷◌, ◌++◌, refl, text_eq, ◌==◌, if◌then◌else◌,
}
use kuberecord.Base.Map.{lookup, lookup-insert}
use kuberecord.Base.Text.{Text}
use kuberecord.Pipeline.HashCache as HashCache
use kuberecord.Pipeline.HashCache.{CacheEntry, next, current_version}
use kuberecord.Pipeline.Identity.{Key, cache_key, ephemeral}
use kuberecord.Pipeline.Normalize.{NormalizedObject}
use kuberecord.Pipeline.Process.{
  Pipeline, Writer, Clock, SinkState, Job, upsert, record_cache_entries, enqueue,
}
use kuberecord.Pipeline.Change.{Change, Coalescing, confirmed_entry, row_of}
use kuberecord.Pipeline.Upsert.{write_change}

module _ (p : Pipeline) (w : Writer) (clock : Clock) (key : Key) (norm : NormalizedObject)
    (co : Coalescing) (old : Option CacheEntry) (change : Change) (s : SinkState) where
  -- the entry and the job of the write
  abbrev pub written_entry : CacheEntry
  written_entry = record (confirmed_entry p (ephemeral key) norm change.modified_run) {
    version = next (current_version (lookup (cache_key key) s.cache));
  }

  abbrev pub written_job : Job
  written_job = record {
    row = row_of p clock key norm change;
    commit =
        upsert key (next (current_version (lookup (cache_key key) s.cache)))
          (confirmed_entry p (ephemeral key) norm change.modified_run) old co.hash clock.stamped_at
          co.window;
  }

  pub write_change_taken :
      w.takes (row_of p clock key norm change) ≡ true
      → (s' : SinkState) × (write_change p w clock key norm co old change s ≡ (s', none))
        × (s'.jobs ≡ s.jobs ++ (written_job ∷ []))
        × ((j : Text)
            → lookup j s'.cache
              ≡ (if cache_key key == j then some written_entry else lookup j s.cache))
        × (s'.close_outs ≡ s.close_outs)
        × (s'.requeues ≡ s.requeues)
        × (s'.warm ≡ s.warm)
        × (s'.coalesce ≡ s.coalesce)
  unfolding write_change enqueue record_cache_entries HashCache.reserve
  write_change_taken h = (
    (let c =
          (HashCache.reserve (cache_key key)
            (confirmed_entry p (ephemeral key) norm change.modified_run) s.cache).0 in
        record (record_cache_entries (record s { cache = c })) {
          jobs = s.jobs ++ (written_job ∷ []);
        }),
    rw h refl,
    refl,
    λ j. lookup-insert (cache_key key) j written_entry s.cache,
    refl,
    refl,
    refl,
    refl,
  )
