-- ===== src/Pipeline/Upsert/Fidelity.antt =====
-- What one observation of an object leaves: rows that replay to the object, and its entry.
use kuberecord.Base.{
  ℕ, ◌≡◌, ◌≢◌, ◌⊎◌, inl, inr, Bool, true, false, not, ◌&&◌, Option, none, some, List, [], ◌∷◌, ◌++◌,
  arith, refl, ap, ◌∙◌, text_eq, Bool-cases,
}
use kuberecord.Base.Tests.{==_self}
use kuberecord.Base.Int.{pos}
use kuberecord.Base.Map.{lookup}
use kuberecord.Base.Text.{Text, codes}
use kuberecord.Pipeline.Coalesce.{decide}
use kuberecord.Pipeline.Diff.{Decoded, decode_baseline}
use kuberecord.Pipeline.Diff.Tokens.{decode-compress}
use kuberecord.Pipeline.HashCache as HashCache
use kuberecord.Pipeline.HashCache.{
  CacheEntry, reserve_delete, claim_entry, DeleteClaimOutcome, claimed, next,
}
use kuberecord.Pipeline.Identity.{Key, cache_key, ephemeral}
use kuberecord.Pipeline.Normalize.{NormalizedObject}
use kuberecord.Pipeline.Process.{
  Pipeline, Writer, Clock, SinkState, Job, record_scope_unwarmed, scope_warm,
}
use kuberecord.Pipeline.Change.{
  Change, Coalescing, full_state, count_refusal, confirmed_entry, row_of, modified,
}
use kuberecord.Pipeline.Upsert.{write_change, write_new, write_modified}
use kuberecord.Pipeline.Upsert.Changes.{
  AreSound, IsNormal, Same, Leads, to_replay, modified-Leads, replay_row-Leads,
}
use kuberecord.Pipeline.Upsert.Rows.{written_job, write_change_taken}
use kuberecord.Query.Replay.{ReplayRow, Progress, Patching, ok, replay_rows, base_row}
use kuberecord.Sink.Record.{SinkRecord}

had_told : {A B C : Type 0} → A ⊎ (B × C) → A ⊎ B
had_told (inl a) = inl a
had_told (inr (b, _)) = inr b

-- The rows of jobs, as the read plane sees them.
abbrev pub rows_of : List Job → List ReplayRow
rows_of [] = []
rows_of (job ∷ jobs) = to_replay job.row ∷ rows_of jobs

pub rows_of-append : (xs ys : List Job) → rows_of (xs ++ ys) ≡ rows_of xs ++ rows_of ys
rows_of-append [] ys = refl
rows_of-append (x ∷ xs) ys =
    ap (λ (rows : List ReplayRow). to_replay x.row ∷ rows) (rows_of-append xs ys)

-- the key's entry is of the document `told`
abbrev pub Tells : Pipeline → Text → Option CacheEntry → Type 0
Tells p told none = ⊥
Tells p told (some e) =
    (e.hash ≡ p.encoding.sha256 told)
    × ((e.json ≡ none) ⊎ (decode_baseline p.codec e ≡ Decoded.ok (some told)))

-- The key has no entry, or its entry tells of a document that a replay has a text of.
abbrev pub Follows : (p : Pipeline) → Patching → Text → Option CacheEntry → Progress → Type 0
Follows p lib told none q = Unit {0}
Follows p lib told (some e) q =
    Tells p told (some e) × Same lib q.state told × (q.last.sha256 ≡ p.encoding.sha256 told)

-- One observation, and what it leaves: rows that lead from `told` to the object, and its entry.
abbrev pub Recorded :
    Pipeline → Patching → Key → NormalizedObject → SinkState → Progress → SinkState → Type 0
Recorded p lib key norm s q s' =
    (new : List Job) × (s'.jobs ≡ s.jobs ++ new)
    × ((q' : Progress) × (replay_rows lib (rows_of new) q ≡ ok q')
        × Same lib q'.state norm.json
        × (q'.last.sha256 ≡ p.encoding.sha256 norm.json))
    × Tells p norm.json (lookup (cache_key key) s'.cache)
    × (lookup (cache_key key) s.cache ≡ none → base_row (rows_of new) ≢ none)

refusal-jobs : (change : Change) (s : SinkState) → (count_refusal change s).jobs ≡ s.jobs
refusal-jobs change s = ground arith

refusal-cache : (change : Change) (s : SinkState) → (count_refusal change s).cache ≡ s.cache
refusal-cache change s = ground arith

module _ (p : Pipeline) (lib : Patching) (sound : AreSound p lib) (w : Writer) (clock : Clock)
    (key : Key) (norm : NormalizedObject) (normal : IsNormal p lib norm)
    (lasting : ephemeral key ≡ false) (taking : (row : SinkRecord) → w.takes row ≡ true) where
  confirmed-Tells :
      (run version : ℕ)
      → Tells p norm.json (some (record (confirmed_entry p false norm run) { version = version }))
  unfolding confirmed_entry decode_baseline
  confirmed-Tells run version =
      (normal.digested, inr (decode-compress p.codec norm.json sound.codec))

  -- a first sight leaves a row to start a replay from
  based :
      (change : Change) (o : Option CacheEntry) {P : Type 0}
      → ((change.carries_full_state ≡ true) ⊎ (P × (o ≢ none)))
      → o ≡ none
      → base_row (to_replay (row_of p clock key norm change) ∷ []) ≢ none
  unfolding base_row row_of
  based change o (inl full) n = ground (arith, normal.written)
  based change o (inr (_, held)) n = absurd (held n)

  -- a change that leads from what the rows before it tell
  pub write_change-Recorded :
      (co : Coalescing) (old : Option CacheEntry) (change : Change) (told : Text) (s : SinkState)
      (q : Progress)
      → Leads lib change told norm
      → ((change.carries_full_state ≡ true)
          ⊎ (Same lib q.state told × (lookup (cache_key key) s.cache ≢ none)))
      → (s' : SinkState) × (write_change p w clock key norm co old change s ≡ (s', none))
        × Recorded p lib key norm s q s'
  write_change-Recorded co old change told s q l e =
      let t = write_change_taken p w clock key norm co old change s (taking _) in
      let (q', replayed, ends, stamped) =
        replay_row-Leads p lib sound w norm clock key change told q normal l (had_told e) in
      let at : lookup (cache_key key) (t.0).cache
          ≡ some (record (confirmed_entry p false norm change.modified_run) {
            version = next (HashCache.current_version (lookup (cache_key key) s.cache));
          }) =
        t.3 (cache_key key) ∙ rw (==_self (cache_key key)) (rw lasting refl) in
      (
        t.0,
        t.1,
        (
          written_job p w clock key norm co old change s ∷ [],
          t.2,
          (q', unfold replay_rows in rw replayed refl, ends, rw stamped normal.digested),
          rw at (confirmed-Tells _ _),
          based change _ e,
        ),
      )

  -- a key without an entry
  pub write_new-Recorded :
      (co : Coalescing) (s : SinkState) (q : Progress)
      → (s' : SinkState) × (write_new p w clock key norm co s ≡ (s', none))
        × Recorded p lib key norm s q s'
  unfolding write_new record_scope_unwarmed
  write_new-Recorded co s q = elim (Bool-cases (not (ephemeral key) && not (scope_warm key s))) [
    | inl cold ↦ rw cold (
        write_change-Recorded co none (full_state (codes "Snapshot")) []
          (record_scope_unwarmed key s) q (inl refl) (inl refl))
    | inr warm ↦
        rw warm
          (write_change-Recorded co none (full_state (codes "Added")) [] s q (inl refl) (inl refl))
  ]

  write_modified-uncoalesced :
      (hash : Text) (entry : CacheEntry) (s : SinkState)
      → write_modified p w clock key norm (record { window = pos 0; hash = hash }) entry s
        ≡ write_change p w clock key norm
            (record { window = pos 0; hash = hash })
            (some entry)
            (modified p w false entry norm)
            (count_refusal (modified p w false entry norm) s)
  unfolding write_modified decide
  write_modified-uncoalesced hash entry s =
      ap
        (λ (b : Bool).
          write_change p w clock key norm (record { window = pos 0; hash = hash }) (some entry)
            (modified p w b entry norm) (count_refusal (modified p w b entry norm) s))
        lasting

  -- a changed object; nothing but an Event is coalesced
  pub write_modified-Recorded :
      (hash : Text) (entry : CacheEntry) (told : Text) (s : SinkState) (q : Progress)
      → ((entry.json ≡ none) ⊎ (decode_baseline p.codec entry ≡ Decoded.ok (some told)))
      → Same lib q.state told
      → lookup (cache_key key) s.cache ≢ none
      → (s' : SinkState) × (write_modified p w clock key norm
            (record { window = pos 0; hash = hash })
            entry
            s
          ≡ (s', none))
        × Recorded p lib key norm s q s'
  write_modified-Recorded hash entry told s q h e held =
      let change = modified p w false entry norm in
      let (s', done, (new, jobs, replayed, tells, _)) =
        write_change-Recorded (record { window = pos 0; hash = hash }) (some entry) change told
          (count_refusal change s) q (modified-Leads p lib sound w norm entry told h)
          (inr (e, rw (refusal-cache change s) held)) in
      (
        s',
        write_modified-uncoalesced hash entry s ∙ done,
        (new, rw (refusal-jobs change s) at jobs, replayed, tells, λ n. absurd (held n)),
      )
