-- ===== src/Pipeline/Upsert/Known.antt =====
-- The observation of an object whose key has an entry: the close-out of another object that had
-- the name, a repetition, or a change.
use kuberecord.Base.{
  ◌≡◌, ◌≢◌, inl, inr, Bool, true, false, not, ◌&&◌, Option, none, some, List, [], ◌∷◌, ◌++◌, refl,
  sym, ap, ◌∙◌, List-ℕ_discrete, text_eq, ◌==◌, if◌then◌else◌, Bool-cases,
}
use mathlib.Core.List.{append-nil, append_assoc}
use mathlib.Core.Path.{subst}
use kuberecord.Base.Tests.{eq_of_==}
use kuberecord.Base.Int.{pos}
use kuberecord.Base.Map.{lookup}
use kuberecord.Base.Text.{Text, codes}
use kuberecord.Pipeline.HashCache as HashCache
use kuberecord.Pipeline.HashCache.{
  CacheEntry, reserve_delete, claim_entry, DeleteClaimOutcome, claimed, next,
}
use kuberecord.Pipeline.Identity.{Key, cache_key, ephemeral}
use kuberecord.Pipeline.Normalize.{NormalizedObject}
use kuberecord.Pipeline.Process.{
  Pipeline, Writer, Clock, SinkState, Job, close_out, enqueue, enqueue_close_out, deleted_row,
  if_claimed, count, dedup_skip,
}
use kuberecord.Pipeline.Change.{Coalescing, full_state, coalescing}
use kuberecord.Pipeline.Upsert.{
  close_predecessor, write_change, write_known, write_modified, write_object, write_by_entry,
}
use kuberecord.Pipeline.Upsert.Changes.{AreSound, IsNormal, Same, to_replay}
use kuberecord.Query.Replay.{Progress, Patching, ok, replay_row, replay_rows}
use kuberecord.Query.Replay.Folding.{replay_rows_trans}
use kuberecord.Sink.Record.{SinkRecord}
use kuberecord.Pipeline.Upsert.Fidelity.{
  rows_of, rows_of-append, Tells, Follows, Recorded, write_change-Recorded, write_new-Recorded,
  write_modified-Recorded,
}

module _ (p : Pipeline) (lib : Patching) (sound : AreSound p lib) (w : Writer) (clock : Clock)
    (key : Key) (norm : NormalizedObject) (normal : IsNormal p lib norm)
    (lasting : ephemeral key ≡ false) (taking : (row : SinkRecord) → w.takes row ≡ true) where
  -- rows that a replay takes
  abbrev Adds : SinkState → Progress → SinkState → Type 0
  Adds s q s' =
      (new : List Job) × (s'.jobs ≡ s.jobs ++ new)
      × ((q' : Progress) × (replay_rows lib (rows_of new) q ≡ ok q'))

  enqueue_close_out-Adds :
      (entry : CacheEntry) (s : SinkState) (q : Progress)
      → Adds s q (enqueue_close_out w key (deleted_row p clock key entry) s)
  unfolding enqueue_close_out enqueue deleted_row
  enqueue_close_out-Adds entry s q = rw (taking _) (
    record { row = deleted_row p clock key entry; commit = close_out key } ∷ [],
    refl,
    (
      record q { last = to_replay (deleted_row p clock key entry) },
      unfold replay_rows replay_row deleted_row List-ℕ_discrete in refl,
    ),
  )

  if_claimed-Adds :
      (o : DeleteClaimOutcome) (s a b : SinkState) (q : Progress)
      → Adds s q a
      → Adds s q b
      → Adds s q (if_claimed o a b)
  if_claimed-Adds claimed s a b q x y = x
  if_claimed-Adds _ s a b q x y = y

  close_predecessor-lasting :
      (entry : CacheEntry) (s : SinkState)
      → close_predecessor p w clock key entry s
        ≡ if_claimed
            (reserve_delete (cache_key key) entry.uid s.cache).outcome
            (enqueue_close_out w key
              (deleted_row p clock key (reserve_delete (cache_key key) entry.uid s.cache).entry)
              (record s { cache = (reserve_delete (cache_key key) entry.uid s.cache).cache }))
            s
  unfolding close_predecessor
  close_predecessor-lasting entry s =
      ap
        (λ (b : Bool).
          if b
          then s
          else (if_claimed (reserve_delete (cache_key key) entry.uid s.cache).outcome
              (enqueue_close_out w key
                (deleted_row p clock key (reserve_delete (cache_key key) entry.uid s.cache).entry)
                (record s { cache = (reserve_delete (cache_key key) entry.uid s.cache).cache }))
              s))
        lasting

  -- the close-out of the object that had the name before
  close_predecessor-Adds :
      (entry : CacheEntry) (s : SinkState) (q : Progress)
      → Adds s q (close_predecessor p w clock key entry s)
  close_predecessor-Adds entry s q = rw (close_predecessor-lasting entry s) (
      if_claimed-Adds _ s _ s q (enqueue_close_out-Adds _ _ q)
        ([], rw append-nil refl, (q, unfold replay_rows in refl)))

  -- the two tests of the block of deduplication and reincarnation
  abbrev is_reborn : CacheEntry → Bool
  is_reborn entry = not (entry.uid == []) && not (entry.uid == norm.uid)

  write_known-reborn :
      (co : Coalescing) (entry : CacheEntry) (s : SinkState)
      → is_reborn entry ≡ true
      → write_known p w clock key norm co entry s
        ≡ write_change p w clock key norm co none
            (full_state (codes "Added"))
            (close_predecessor p w clock key entry s)
  unfolding write_known
  write_known-reborn co entry s h = rw h refl

  write_known-same :
      (co : Coalescing) (entry : CacheEntry) (s : SinkState)
      → is_reborn entry ≡ false
      → (entry.hash == norm.hash) ≡ true
      → write_known p w clock key norm co entry s ≡ (count dedup_skip s, none)
  unfolding write_known
  write_known-same co entry s h k = rw h (rw k refl)

  write_known-changed :
      (co : Coalescing) (entry : CacheEntry) (s : SinkState)
      → is_reborn entry ≡ false
      → (entry.hash == norm.hash) ≡ false
      → write_known p w clock key norm co entry s ≡ write_modified p w clock key norm co entry s
  unfolding write_known
  write_known-changed co entry s h k = rw h (rw k refl)

  -- what was added before, and then the write
  Adds-Recorded :
      (s t u : SinkState) (q : Progress) (added : Adds s q t)
      → lookup (cache_key key) s.cache ≢ none
      → Recorded p lib key norm t (added.2).0 u
      → Recorded p lib key norm s q u
  Adds-Recorded s t u q (before, jobs, (q', replayed)) held
        (new, jobs', (q'', replayed', ends, stamped), tells, _) =
      (
        before ++ new,
        jobs' ∙ rw jobs (append_assoc s.jobs before new),
        (
          q'',
          rw (rows_of-append before new)
              (replay_rows_trans lib (rows_of before) (rows_of new) q q' q'' replayed replayed'),
          ends,
          stamped,
        ),
        tells,
        λ n. absurd (held n),
      )

  -- a key with an entry
  write_known-Recorded :
      (hash : Text) (entry : CacheEntry) (told : Text) (s : SinkState) (q : Progress)
      → lookup (cache_key key) s.cache ≡ some entry
      → Tells p told (some entry)
      → Same lib q.state told
      → q.last.sha256 ≡ p.encoding.sha256 told
      → (s' : SinkState) × (write_known p w clock key norm
            (record { window = pos 0; hash = hash })
            entry
            s
          ≡ (s', none))
        × Recorded p lib key norm s q s'
  write_known-Recorded hash entry told s q found (digested, holds) e stamped =
      let held : lookup (cache_key key) s.cache ≢ none = rw found (λ n. cc) in
      elim (Bool-cases (is_reborn entry)) [
        | inl reborn ↦
            let added = close_predecessor-Adds entry s q in
            let (s', done, recorded) =
              write_change-Recorded p lib sound w clock key norm normal lasting taking
                (record { window = pos 0; hash = hash }) none (full_state (codes "Added")) []
                (close_predecessor p w clock key entry s) (added.2).0 (inl refl) (inl refl) in
            (
              s',
              write_known-reborn _ entry s reborn ∙ done,
              Adds-Recorded s (close_predecessor p w clock key entry s) s' q added held recorded,
            )
        | inr old ↦ elim (Bool-cases (entry.hash == norm.hash)) [
          | inl same ↦
              let equal : told ≡ norm.json =
                sound.digests told norm.json
                  (sym digested ∙ eq_of_== entry.hash norm.hash same ∙ normal.digested) in
              (
                count dedup_skip s,
                write_known-same _ entry s old same,
                (
                  [],
                  sym (append-nil s.jobs),
                  (
                    q,
                    unfold replay_rows in refl,
                    subst (Same lib q.state) equal e,
                    stamped ∙ ap p.encoding.sha256 equal,
                  ),
                  rw found (rw (← equal) (digested, holds)),
                  λ n. absurd (held n),
                ),
              )
          | inr changed ↦
              let (s', done, recorded) =
                write_modified-Recorded p lib sound w clock key norm normal lasting taking hash
                  entry told s q holds e held in
              (s', write_known-changed _ entry s old changed ∙ done, recorded)
        ]
      ]

  write_by_entry-Recorded :
      (told : Text) (o : Option CacheEntry) (s : SinkState) (q : Progress)
      → lookup (cache_key key) s.cache ≡ o
      → Follows p lib told o q
      → (s' : SinkState) × (write_by_entry p w clock key norm
            (record { window = pos 0; hash = [] })
            o
            s
          ≡ (s', none))
        × Recorded p lib key norm s q s'
  write_by_entry-Recorded told none s q found f =
      write_new-Recorded p lib sound w clock key norm normal lasting taking _ s q
  write_by_entry-Recorded told (some e) s q found (tells, same, stamped) =
      write_known-Recorded [] e told s q found tells same stamped

  write_object-lasting :
      (s : SinkState)
      → write_object p w clock key norm s
        ≡ write_by_entry p w clock key norm
            (record { window = pos 0; hash = [] })
            (lookup (cache_key key) s.cache)
            s
  unfolding write_object HashCache.load coalescing
  write_object-lasting s =
      ap
        (λ (b : Bool).
          write_by_entry p w clock key norm (coalescing p w b norm) (lookup (cache_key key) s.cache)
            s)
        lasting

  -- One observation of an object that is no Event, on a sink that takes its rows: the rows that it
  -- adds lead a replay from the document told before to the object, and its entry tells of it.
  pub write_object-Recorded :
      (told : Text) (s : SinkState) (q : Progress)
      → Follows p lib told (lookup (cache_key key) s.cache) q
      → (s' : SinkState) × (write_object p w clock key norm s ≡ (s', none))
        × Recorded p lib key norm s q s'
  write_object-Recorded told s q f =
      let (s', done, recorded) =
        write_by_entry-Recorded told (lookup (cache_key key) s.cache) s q refl f in
      (s', write_object-lasting s ∙ done, recorded)
