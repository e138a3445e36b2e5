-- ===== src/Examples/Warming.antt =====
-- A history in which a ConfigMap was recreated unseen, and what its warm-up makes of it.
use kuberecord.Base.{
  ℕ, ◌≡◌, ◌≢◌, ◌↔◌, ◌⊎◌, inl, inr, true, false, none, some, List, [], ◌∷◌, arith, refl, sym, ap,
  ◌∙◌, ◌==◌, All, text_eq,
}
use kuberecord.Base.Lists.{Elem}
use kuberecord.Base.Map.{lookup}
use kuberecord.Base.Text.{Text, codes}
use kuberecord.Pipeline.HashCache.{CacheEntry}
use kuberecord.Pipeline.Identity.{cache_key, scope_ephemeral}
use kuberecord.Pipeline.WorkItem.{empty_state, answer}
use kuberecord.Pipeline.Warm.{
  KnownState, ScopeRef, ref_key, GcTarget, Reincarnation, identity_of, target_of, prior_of,
  split_incarnations, seed_states, Warming, reader_for,
}
use kuberecord.Pipeline.Warm.Incarnations.{split_incarnations-any_order}
use kuberecord.Pipeline.Warm.Seeding.{
  IsNewest, Kept, Seeded, seed_states-accounts, seed_states-Kept,
}
use kuberecord.Pipeline.Sweep.{Sighting, gc_pass}
use kuberecord.Pipeline.Sweep.Evidence.{Adds, Gone, Deleted, gc_pass-Gone}
use kuberecord.Pipeline.Sweep.Run.{Meeting, warm, scope_was_active}
use kuberecord.Pipeline.Sweep.Safety.{DeletedIn, warm-Records}
use kuberecord.Pipeline.Coordinator.{
  WarmTarget, WarmCoordinator, ref_of, ref_eq, new_coordinator, warm_scope, start, stop_scope,
  boot_reconciled,
}
use kuberecord.Pipeline.Coordinator.Boot.{
  BootMeeting, close_orphaned_scopes, close_orphans, reconcile_scope_epochs,
}
use kuberecord.Pipeline.Coordinator.Orphans.{Succeeds, reconcile_scope_epochs-once}
use kuberecord.Pipeline.Coordinator.Lifecycle.{
  live, IsSingle, Steps, here, requested, began, Steps-IsSingle, stop_scope_lem,
}
use kuberecord.Sink.Identity.{SinkId}
use kuberecord.Watch.ScopeRecorder.{ScopeFilter}
use kuberecord.Examples.Histories.{writer, clock, config, pipeline}

abbrev older : KnownState
older = record {
  namespace = codes "team";
  name = codes "web";
  uid = codes "u1";
  sha256 = codes "h1";
  api_version = codes "v1";
  ts = 5;
}

abbrev newer : KnownState
newer = record older { uid = codes "u2"; sha256 = codes "h2"; ts = 9 }

abbrev history : List KnownState
history = older ∷ newer ∷ []

abbrev configs : ScopeRef
configs = record {
  sink = config.sink;
  scope = record { group = []; kind = codes "ConfigMap"; namespace = codes "team" };
}

swap : (a b state : KnownState) → Elem state (a ∷ b ∷ []) → Elem state (b ∷ a ∷ [])
swap a b state (inl e) = inr (inl e)
swap a b state (inr (inl e)) = inl e
swap a b state (inr (inr m)) = absurd m

apart : codes "u1" ≢ codes "u2"
apart = λ e. ground arith

one_each : (a b : KnownState) → Elem a history → Elem b history → a.uid ≡ b.uid → a ≡ b
one_each a b (inl e) (inl f) same = sym e ∙ f
one_each a b (inr (inl e)) (inr (inl f)) same = sym e ∙ f
one_each a b (inl e) (inr (inl f)) same =
    absurd
      (apart (ap (λ (s : KnownState). s.uid) e ∙ same ∙ ap (λ (s : KnownState). s.uid) (sym f)))
one_each a b (inr (inl e)) (inl f) same =
    absurd (
      apart
        (sym (ap (λ (s : KnownState). s.uid) e ∙ same ∙ ap (λ (s : KnownState). s.uid) (sym f))))
one_each a b (inr (inr m)) n same = absurd m
one_each a b (inl e) (inr (inr m)) same = absurd m
one_each a b (inr (inl e)) (inr (inr m)) same = absurd m

split_incarnations-any_order_example :
    ((split_incarnations (older, newer ∷ [])).0 ≡ (split_incarnations (newer, older ∷ [])).0)
    × ((state : KnownState)
        → Elem state (split_incarnations (older, newer ∷ [])).1
          ↔ Elem state (split_incarnations (newer, older ∷ [])).1)
split_incarnations-any_order_example =
    split_incarnations-any_order (older, newer ∷ []) (newer, older ∷ [])
      (λ state. (swap older newer state, swap newer older state)) one_each

seed_states-accounts_example :
    ((state : KnownState)
      → Elem state history
      → (newest : KnownState) × IsNewest history (identity_of state) newest
        × Elem (target_of newest) (seed_states configs history empty_state).1.seeded
        × ((state.uid ≡ newest.uid)
            ⊎ Elem (prior_of state) (seed_states configs history empty_state).1.priors))
    × ((r : Reincarnation)
        → Elem r (seed_states configs history empty_state).1.priors
        → (prior : KnownState) × Elem prior history
          × (prior_of prior ≡ r)
          × ((newest : KnownState) × IsNewest history (identity_of prior) newest
              × (prior.uid ≢ newest.uid)))
seed_states-accounts_example = seed_states-accounts configs history empty_state

seed_states-Kept_example :
    Kept [] (seed_states configs history empty_state).0.cache
    × ((target : GcTarget)
        → Elem target (seed_states configs history empty_state).1.seeded
        → (held : CacheEntry) × (lookup
              (cache_key (ref_key configs target.namespace target.name))
              (seed_states configs history empty_state).0.cache
            ≡ some held))
    × ((k : Text) (held : CacheEntry)
        → lookup k empty_state.cache ≡ none
        → lookup k (seed_states configs history empty_state).0.cache ≡ some held
        → (target : GcTarget) × Elem target (seed_states configs history empty_state).1.seeded
          × Seeded configs k held target)
    × ((seed_states configs history empty_state).0.jobs ≡ [])
seed_states-Kept_example = seed_states-Kept configs history empty_state

-- The lister shows nothing under the target's name.
abbrev nothing_there : GcTarget → Sighting
nothing_there target = record { cancelled = false; found = answer none true; clock = clock }

gc_pass-Gone_example :
    Adds
      (λ job.
        (target : GcTarget) × Elem target (target_of newer ∷ [])
        × Gone pipeline nothing_there target
        × Deleted target.uid (ref_key configs target.namespace target.name) job)
      (seed_states configs history empty_state).0
      (gc_pass pipeline configs
        (target_of newer ∷ [])
        nothing_there
        (some writer)
        (seed_states configs history empty_state).0).0
gc_pass-Gone_example =
    gc_pass-Gone pipeline configs (target_of newer ∷ []) nothing_there (some writer)
      (seed_states configs history empty_state).0

abbrev meeting : Meeting
meeting = record {
  readings = record { has_reader = true; is_live = true; read = some history } ∷ [];
  polls = record { synced = true; desired = true } ∷ [];
  probes = record { has_reader = true; is_live = true; read = some true } ∷ [];
  closings = record { writer = some writer; cancelled = λ prior. false } ∷ [];
  sweepings = record { writer = some writer; sight = nothing_there } ∷ [];
  recoverings = [];
}

abbrev cold : Warming
cold = record { state = empty_state; writer_only = [] }

warm-Records_example :
    Adds (DeletedIn configs.scope) empty_state (warm pipeline configs meeting cold).state
    × ((scope_ephemeral configs.scope ≡ true) ⊎ (scope_was_active meeting.probes ≢ some true)
        → (warm pipeline configs meeting cold).state.jobs ≡ [])
warm-Records_example = warm-Records pipeline configs meeting cold

abbrev target_at : ℕ → WarmTarget
target_at epoch = record { sink = configs.sink; scope = configs.scope; epoch_start = epoch }

abbrev coordinated : WarmCoordinator
coordinated = warm_scope (target_at 7) (start (warm_scope (target_at 3) new_coordinator))

coordinated-Steps : Steps new_coordinator coordinated
coordinated-Steps = requested (target_at 3) (began (requested (target_at 7) here))

Steps-IsSingle_example : IsSingle coordinated
Steps-IsSingle_example = Steps-IsSingle coordinated-Steps

stop_scope_lem_example :
    (live configs (stop_scope configs coordinated).log ≡ [])
    × All (λ target. (ref_of target == configs) ≡ false) (stop_scope configs coordinated).pending
    × ((other : ScopeRef)
        → (other == configs) ≡ false
        → live other (stop_scope configs coordinated).log ≡ live other coordinated.log)
stop_scope_lem_example = stop_scope_lem configs coordinated-Steps

abbrev open_scope : ScopeFilter
open_scope = record {
  cluster_id = codes "c";
  api_group = [];
  kind = codes "ConfigMap";
  namespace = codes "team";
}

-- The sink's log has one open scope, which nothing wants.
abbrev meet : SinkId → BootMeeting
meet id = record {
  reading = record { has_reader = true; is_live = true; read = some (open_scope ∷ []) };
  writer = some (λ event. true);
  desired = λ sc. false;
  now = λ filter. 12;
  cancelled = false;
}

meet-Succeeds : All (Succeeds meet) (config.sink ∷ [])
unfolding close_orphaned_scopes reader_for close_orphans
meet-Succeeds = (λ c. refl, tt)

-- At a later pass the log cannot be read.
abbrev unreadable : SinkId → BootMeeting
unreadable id = record (meet id) {
  reading = record { has_reader = true; is_live = true; read = none };
}

reconcile_scope_epochs-once_example :
    All
      (λ id.
        boot_reconciled id (reconcile_scope_epochs meet (config.sink ∷ []) new_coordinator).0
        ≡ true)
      (config.sink ∷ [])
    × (reconcile_scope_epochs unreadable
          (config.sink ∷ [])
          (reconcile_scope_epochs meet (config.sink ∷ []) new_coordinator).0
        ≡ ((reconcile_scope_epochs meet (config.sink ∷ []) new_coordinator).0, []))
reconcile_scope_epochs-once_example =
    reconcile_scope_epochs-once meet unreadable (config.sink ∷ []) new_coordinator meet-Succeeds
