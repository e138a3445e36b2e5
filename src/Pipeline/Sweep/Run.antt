-- ===== src/Pipeline/Sweep/Run.antt =====
-- internal/pipeline/warm.go: the gates of a warm-up, and its whole run.
use kuberecord.Base.{Bool, true, false, not, ◌&&◌, Option, none, some, List, [], ◌∷◌, if◌then◌else◌}
use kuberecord.Pipeline.Identity.{scope_ephemeral}
use kuberecord.Pipeline.Process.{Pipeline, SinkState}
use kuberecord.Pipeline.Warm.{
  KnownState, ScopeRef, GcTarget, Seed, Reading, ReaderFor, ready, no_state_reader, sink_not_live,
  reader_for, Warming, seed_scope,
}
use kuberecord.Pipeline.WorkItem.{mark_warm}
use kuberecord.Pipeline.Sweep.{Closing, Sweeping, no_result, emit_close_outs, collect_zombies}
use kuberecord.Pipeline.Sweep.Recovery.{Recovering, recover_refused}

-- A poll of `awaitScopeSync`.
pub record Poll : Type 0 where
  pub synced : Bool
  pub desired : Bool

-- `awaitScopeSync`
unfoldable pub await_scope_sync : List Poll → Bool
await_scope_sync [] = false
await_scope_sync (poll ∷ polls) =
    let later = await_scope_sync polls in
    if poll.synced then true else if poll.desired then later else false

abbrev pub probe_read : Option Bool → Option Bool → Option Bool
probe_read again none = again
probe_read again (some active) = some active

abbrev pub probe_attempt : Option Bool → Reading Bool → ReaderFor → Option Bool
probe_attempt again reading ready = probe_read again reading.read
probe_attempt again reading no_state_reader = none
probe_attempt again reading sink_not_live = again

-- `scopeWasActive`; `none` is its error.
unfoldable pub scope_was_active : List (Reading Bool) → Option Bool
scope_was_active [] = none
scope_was_active (reading ∷ readings) =
    probe_attempt (scope_was_active readings) reading (reader_for reading)

-- What a warm-up meets, step by step.
pub record Meeting : Type 0 where
  pub readings : List (Reading (List KnownState))
  pub polls : List Poll
  pub probes : List (Reading Bool)
  pub closings : List Closing
  pub sweepings : List Sweeping
  pub recoverings : List Recovering

-- The sweep and what follows it, where something was seeded.
abbrev pub sweep : Pipeline → ScopeRef → Meeting → List GcTarget → SinkState → SinkState
sweep p ref meeting [] s = s
sweep p ref meeting (target ∷ targets) s =
    let swept = collect_zombies p ref (target ∷ targets) meeting.sweepings no_result s in
    (recover_refused p ref swept.1.reincarnated meeting.recoverings swept.0).0

-- The end of `warm`, by the answer of the scope log.
abbrev pub reconcile : Pipeline → ScopeRef → Meeting → Seed → Option Bool → SinkState → SinkState
reconcile p ref meeting seed (some true) s =
    sweep p ref meeting seed.seeded (emit_close_outs p ref seed.priors meeting.closings s).0
reconcile p ref meeting seed _ s = s

abbrev pub is_empty {ℓ} : {A : Type ℓ} → List A → Bool
is_empty [] = true
is_empty (_ ∷ _) = false

-- `warm` once the scope is marked.
unfoldable pub reconcile_scope : Pipeline → ScopeRef → Meeting → Seed → SinkState → SinkState
reconcile_scope p ref meeting seed s =
    if scope_ephemeral ref.scope
    then s
    else if is_empty seed.seeded && is_empty seed.priors
    then s
    else if not (is_empty seed.seeded) && not (await_scope_sync meeting.polls)
    then s
    else reconcile p ref meeting seed (scope_was_active meeting.probes) s

abbrev pub warm_seeded : Pipeline → ScopeRef → Meeting → Warming × Option Seed → Warming
warm_seeded p ref meeting (w, none) = w
warm_seeded p ref meeting (w, some seed) = record w {
  state = reconcile_scope p ref meeting seed (mark_warm ref.scope w.state);
}

-- `warm`
unfoldable pub warm : Pipeline → ScopeRef → Meeting → Warming → Warming
warm p ref meeting w = warm_seeded p ref meeting (seed_scope ref meeting.readings w)
