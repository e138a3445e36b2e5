-- ===== src/Pipeline/Sweep/Keeping.antt =====
-- What the close-outs and the deletions of a scope keep, a run of its warm-up keeps.
use kuberecord.Base.{
  ℕ, ◌+◌, ◌≡◌, Bool, true, false, not, ◌&&◌, Option, none, some, List, [], ◌∷◌, refl, text_eq,
  if◌then◌else◌,
}
use kuberecord.Base.Map.{Map}
use kuberecord.Pipeline.Identity.{scope_ephemeral}
use kuberecord.Pipeline.Process.{
  Pipeline, Writer, Clock, SinkState, enqueue_close_out, emit_delete, record_cache_entries,
}
use kuberecord.Pipeline.WorkItem.{mark_warm}
use kuberecord.Pipeline.Warm.{
  KnownState, ScopeRef, ref_key, GcTarget, Reincarnation, close_out_record, Identity, Group, Seed,
  Reading, ReaderFor, ready, no_state_reader, sink_not_live, reader_for, Warming, seed_scope,
  seed_attempt, seed_read, seed_states, seed_groups, seed_entry, split_incarnations,
  group_by_identity,
}
use kuberecord.Pipeline.Sweep.{
  Closing, close_each, counted, close_with, close_attempts, emit_close_outs, Sweeping, GcResult,
  GcEnd, complete, retried, abandoned, no_result, gc_pass, or_retry, collect_zombies,
}
use kuberecord.Pipeline.Sweep.Recovery.{
  Recovering, Attempts, go_on, recover_read, recover_attempt, recover_attempts, recover_refused,
  gather, index_incarnations,
}
use kuberecord.Pipeline.Sweep.Run.{
  Meeting, sweep, reconcile, is_empty, reconcile_scope, await_scope_sync, scope_was_active, warm,
  warm_seeded,
}
use kuberecord.Pipeline.Sweep.Evidence.{gc_targets-keeps}

if-holds :
    {A : Type 0} (I : A → Type 0) (b : Bool) (x y : A)
    → (b ≡ true → I x)
    → (b ≡ false → I y)
    → I (if b then x else y)
if-holds I true x y p q = p refl
if-holds I false x y p q = q refl

module _ (p : Pipeline) (ref : ScopeRef) (I : SinkState → Type 0) where
  -- Close-outs and deletions of the scope keep the invariant.
  pub record Keeps : Type 0 where
    pub closes :
        (w : Writer) (prior : Reincarnation) (s : SinkState)
        → I s
        → I (
            enqueue_close_out w
              (ref_key ref prior.namespace prior.name)
              (close_out_record p.cluster_id (ref_key ref prior.namespace prior.name) prior)
              s)
    pub deletes :
        (w : Writer) (clock : Clock) (target : GcTarget) (s : SinkState)
        → I s
        → I (emit_delete p w clock (ref_key ref target.namespace target.name) target.uid s).0

  module _ (k : Keeps) where
    close_each-keeps :
        (w : Writer) (cancelled : Reincarnation → Bool) (priors : List Reincarnation)
        (s : SinkState)
        → I s
        → I (close_each p ref w cancelled priors s).0
    unfolding close_each
    close_each-keeps w cancelled [] s i = i
    close_each-keeps w cancelled (prior ∷ priors) s i =
        if-holds (λ (r : SinkState × Bool). I r.0) (cancelled prior) _ _ (λ _. i)
          (λ _. close_each-keeps w cancelled priors _ (k.closes w prior s i))

    counted-keeps :
        (priors : List Reincarnation) (r : SinkState × Bool) → I r.0 → I (counted priors r).0
    counted-keeps priors (s, true) i = i
    counted-keeps priors (s, false) i = i

    close_with-keeps :
        (priors : List Reincarnation) (cancelled : Reincarnation → Bool) (again : SinkState × ℕ)
        (o : Option Writer) (s : SinkState)
        → I again.0
        → I s
        → I (close_with p ref priors cancelled again o s).0
    close_with-keeps priors cancelled again none s j i = j
    close_with-keeps priors cancelled again (some w) s j i =
        counted-keeps priors (close_each p ref w cancelled priors s)
          (close_each-keeps w cancelled priors s i)

    close_attempts-keeps :
        (priors : List Reincarnation) (closings : List Closing) (s : SinkState)
        → I s
        → I (close_attempts p ref priors closings s).0
    unfolding close_attempts
    close_attempts-keeps priors [] s i = i
    close_attempts-keeps priors (closing ∷ closings) s i =
        close_with-keeps priors closing.cancelled (close_attempts p ref priors closings s)
          closing.writer s (close_attempts-keeps priors closings s i) i

    emit_close_outs-keeps :
        (priors : List Reincarnation) (closings : List Closing) (s : SinkState)
        → I s
        → I (emit_close_outs p ref priors closings s).0
    unfolding emit_close_outs
    emit_close_outs-keeps [] closings s i = i
    emit_close_outs-keeps (prior ∷ priors) closings s i =
        close_attempts-keeps (prior ∷ priors) closings s i

    gc_pass-keeps :
        (seeded : List GcTarget) (sweeping : Sweeping) (o : Option Writer) (s : SinkState)
        → I s
        → I (gc_pass p ref seeded sweeping.sight o s).0
    gc_pass-keeps seeded sweeping none s i = i
    gc_pass-keeps seeded sweeping (some w) s i =
        gc_targets-keeps p w ref sweeping.sight I seeded no_result s
          (λ target _ _ t j. k.deletes w (sweeping.sight target).clock target t j) i

    or_retry-keeps :
        (again : GcResult → SinkState → SinkState × GcResult) (r : SinkState × GcResult × GcEnd)
        → ((result : GcResult) (s : SinkState) → I s → I (again result s).0)
        → I r.0
        → I (or_retry again r).0
    or_retry-keeps again (s, result, retried) n i = n result s i
    or_retry-keeps again (s, result, complete) n i = i
    or_retry-keeps again (s, result, abandoned) n i = i

    collect_zombies-keeps :
        (seeded : List GcTarget) (sweepings : List Sweeping) (result : GcResult) (s : SinkState)
        → I s
        → I (collect_zombies p ref seeded sweepings result s).0
    unfolding collect_zombies
    collect_zombies-keeps seeded [] result s i = i
    collect_zombies-keeps seeded (sweeping ∷ sweepings) result s i =
        or_retry-keeps (collect_zombies p ref seeded sweepings)
          (gc_pass p ref seeded sweeping.sight sweeping.writer s)
          (λ r t j. collect_zombies-keeps seeded sweepings r t j)
          (gc_pass-keeps seeded sweeping sweeping.writer s i)

    -- later attempts that keep the invariant
    abbrev Again : Attempts → Type 0
    Again again = (pending : List GcTarget) (n : ℕ) (s : SinkState) → I s → I (again pending n s).0

    go_on-keeps :
        (again : Attempts) (pending : List GcTarget) (n : ℕ) (r : SinkState × ℕ)
        → Again again
        → I r.0
        → I (go_on again pending n r).0
    go_on-keeps again [] n (s, closed) a i = i
    go_on-keeps again (target ∷ targets) n (s, closed) a i = a (target ∷ targets) (n + closed) s i

    recover_read-keeps :
        (again : Attempts) (closings : List Closing) (pending : List GcTarget) (n : ℕ)
        (o : Option (List KnownState)) (s : SinkState)
        → Again again
        → I s
        → I (recover_read again p ref closings pending n o s).0
    recover_read-keeps again closings pending n none s a i = a pending n s i
    recover_read-keeps again closings pending n (some states) s a i =
        let evidence = gather (index_incarnations states) pending in
        go_on-keeps again evidence.pending n (emit_close_outs p ref evidence.found closings s) a
          (emit_close_outs-keeps evidence.found closings s i)

    recover_attempt-keeps :
        (again : Attempts) (at : Recovering) (pending : List GcTarget) (n : ℕ) (r : ReaderFor)
        (s : SinkState)
        → Again again
        → I s
        → I (recover_attempt again p ref at pending n r s).0
    recover_attempt-keeps again at pending n ready s a i =
        recover_read-keeps again at.closings pending n at.reading.read s a i
    recover_attempt-keeps again at pending n no_state_reader s a i = i
    recover_attempt-keeps again at pending n sink_not_live s a i = a pending n s i

    recover_attempts-keeps :
        (ats : List Recovering) (pending : List GcTarget) (n : ℕ) (s : SinkState)
        → I s
        → I (recover_attempts p ref ats pending n s).0
    unfolding recover_attempts
    recover_attempts-keeps [] pending n s i = i
    recover_attempts-keeps (at ∷ ats) pending n s i =
        recover_attempt-keeps (recover_attempts p ref ats) at pending n (reader_for at.reading) s
          (λ q m t j. recover_attempts-keeps ats q m t j) i

    recover_refused-keeps :
        (refused : List GcTarget) (ats : List Recovering) (s : SinkState)
        → I s
        → I (recover_refused p ref refused ats s).0
    unfolding recover_refused
    recover_refused-keeps [] ats s i = i
    recover_refused-keeps (target ∷ targets) ats s i = recover_attempts-keeps ats _ 0 s i

    sweep-keeps :
        (meeting : Meeting) (seeded : List GcTarget) (s : SinkState)
        → I s
        → I (sweep p ref meeting seeded s)
    sweep-keeps meeting [] s i = i
    sweep-keeps meeting (target ∷ targets) s i =
        let swept = collect_zombies p ref (target ∷ targets) meeting.sweepings no_result s in
        recover_refused-keeps swept.1.reincarnated meeting.recoverings swept.0
          (collect_zombies-keeps (target ∷ targets) meeting.sweepings no_result s i)

    reconcile-keeps :
        (meeting : Meeting) (seed : Seed) (o : Option Bool) (s : SinkState)
        → I s
        → I (reconcile p ref meeting seed o s)
    reconcile-keeps meeting seed none s i = i
    reconcile-keeps meeting seed (some false) s i = i
    reconcile-keeps meeting seed (some true) s i =
        sweep-keeps meeting seed.seeded _ (emit_close_outs-keeps seed.priors meeting.closings s i)

  -- without a previous epoch nothing is reconciled
  open_epoch :
      (meeting : Meeting) (seed : Seed) (o : Option Bool) (s : SinkState)
      → (o ≡ some true → Keeps)
      → I s
      → I (reconcile p ref meeting seed o s)
  open_epoch meeting seed none s k i = i
  open_epoch meeting seed (some false) s k i = i
  open_epoch meeting seed (some true) s k i = reconcile-keeps (k refl) meeting seed (some true) s i

  pub reconcile_scope-keeps :
      (meeting : Meeting) (seed : Seed) (s : SinkState)
      → (scope_ephemeral ref.scope ≡ false → scope_was_active meeting.probes ≡ some true → Keeps)
      → I s
      → I (reconcile_scope p ref meeting seed s)
  unfolding reconcile_scope
  reconcile_scope-keeps meeting seed s k i =
      if-holds I (scope_ephemeral ref.scope) _ _ (λ _. i)
        (λ lasting.
          if-holds I (is_empty seed.seeded && is_empty seed.priors) _ _ (λ _. i)
            (λ _.
              if-holds I (not (is_empty seed.seeded) && not (await_scope_sync meeting.polls)) _ _
                (λ _. i)
                (λ _. open_epoch meeting seed (scope_was_active meeting.probes) s (k lasting) i)))

-- What no log of rows shows is free.
abbrev pub Logged : (SinkState → Type 0) → Type 0
Logged I = (s s' : SinkState) → s'.jobs ≡ s.jobs → s'.close_outs ≡ s.close_outs → I s → I s'

module _ (ref : ScopeRef) (I : SinkState → Type 0) (logged : Logged I) where
  seed_groups-keeps :
      (groups : Map Identity Group) (s : SinkState) → I s → I (seed_groups ref groups s).0
  unfolding seed_groups seed_entry
  seed_groups-keeps [] s i = i
  seed_groups-keeps ((id, group) ∷ groups) s i =
      seed_groups-keeps groups (seed_entry ref (split_incarnations group).0 s)
        (logged s _ refl refl i)

  seed_states-keeps :
      (states : List KnownState) (s : SinkState) → I s → I (seed_states ref states s).0
  unfolding seed_states record_cache_entries
  seed_states-keeps states s i =
      logged (seed_groups ref (group_by_identity states) s).0 _ refl refl
        (seed_groups-keeps (group_by_identity states) s i)

  seed_read-keeps :
      (again : Warming × Option Seed) (o : Option (List KnownState)) (w : Warming)
      → I again.0.state
      → I w.state
      → I (seed_read ref again o w).0.state
  seed_read-keeps again none w j i = j
  seed_read-keeps again (some states) w j i = seed_states-keeps states w.state i

  seed_attempt-keeps :
      (again : Warming × Option Seed) (reading : Reading (List KnownState)) (r : ReaderFor)
      (w : Warming)
      → I again.0.state
      → I w.state
      → I (seed_attempt ref again reading r w).0.state
  seed_attempt-keeps again reading ready w j i = seed_read-keeps again reading.read w j i
  seed_attempt-keeps again reading no_state_reader w j i = i
  seed_attempt-keeps again reading sink_not_live w j i = j

  seed_scope-keeps :
      (readings : List (Reading (List KnownState))) (w : Warming)
      → I w.state
      → I (seed_scope ref readings w).0.state
  unfolding seed_scope
  seed_scope-keeps [] w i = i
  seed_scope-keeps (reading ∷ readings) w i =
      seed_attempt-keeps (seed_scope ref readings w) reading (reader_for reading) w
        (seed_scope-keeps readings w i) i

  warm_seeded-keeps :
      (p : Pipeline) (meeting : Meeting) (r : Warming × Option Seed)
      → (scope_ephemeral ref.scope ≡ false
          → scope_was_active meeting.probes ≡ some true
          → Keeps p ref I)
      → I r.0.state
      → I (warm_seeded p ref meeting r).state
  unfolding mark_warm
  warm_seeded-keeps p meeting (w, none) k i = i
  warm_seeded-keeps p meeting (w, some seed) k i =
      reconcile_scope-keeps p ref I meeting seed (mark_warm ref.scope w.state) k
        (logged w.state _ refl refl i)

  pub warm-keeps :
      (p : Pipeline) (meeting : Meeting) (w : Warming)
      → (scope_ephemeral ref.scope ≡ false
          → scope_was_active meeting.probes ≡ some true
          → Keeps p ref I)
      → I w.state
      → I (warm p ref meeting w).state
  unfolding warm
  warm-keeps p meeting w k i =
      warm_seeded-keeps p meeting (seed_scope ref meeting.readings w) k
        (seed_scope-keeps meeting.readings w i)
