-- ===== src/Pipeline/Coordinator/Boot.antt =====
-- internal/pipeline/warm.go: the scopes that an earlier process left open are closed in the scope log,
-- once for each sink.
use kuberecord.Base.{
  ℕ, Bool, true, false, Option, none, some, List, [], ◌∷◌, ◌++◌, map, if◌then◌else◌,
}
use kuberecord.Pipeline.Identity.{ScopeKey}
use kuberecord.Pipeline.Warm.{
  Reading, ReaderFor, ready, no_state_reader, sink_not_live, reader_for, announce_writer_only,
}
use kuberecord.Pipeline.Coordinator.{WarmCoordinator, boot_reconciled, mark_boot_reconciled}
use kuberecord.Sink.Identity.{SinkId, id_eq}
use kuberecord.Watch.ScopeRecorder.{ScopeFilter, ScopeEvent, ScopeAction}

-- What the pass over one sink meets: its reader's `ActiveScopes`, the scope-log writer and whether it
-- takes an event, what is desired, the clock, and whether the context is done.
pub record BootMeeting : Type 0 where
  pub reading : Reading (List ScopeFilter)
  pub writer : Option (ScopeEvent → Bool)
  pub desired : ScopeKey → Bool
  pub now : ScopeFilter → ℕ
  pub cancelled : Bool

abbrev pub scope_of : ScopeFilter → ScopeKey
scope_of filter = record {
  group = filter.api_group;
  kind = filter.kind;
  namespace = filter.namespace;
}

-- The row of a scope that nothing wants any more.
abbrev pub stopped_event : (ScopeFilter → ℕ) → ScopeFilter → ScopeEvent
stopped_event now filter = record {
  action = ScopeAction.stopped;
  scope = filter;
  api_version = [];
  rule_ref = [];
  ts = now filter;
}

-- The loop of `closeOrphanedScopes`; `false` is the writer's error.
unfoldable pub close_orphans :
    BootMeeting → (ScopeEvent → Bool) → List ScopeFilter → List ScopeEvent × Bool
close_orphans m takes [] = ([], true)
close_orphans m takes (filter ∷ filters) =
    let rest = close_orphans m takes filters in
    if m.desired (scope_of filter)
    then rest
    else if takes (stopped_event m.now filter)
    then (stopped_event m.now filter ∷ rest.0, rest.1)
    else ([], false)

abbrev pub close_open :
    BootMeeting → (ScopeEvent → Bool) → Option (List ScopeFilter) → List ScopeEvent × Bool
close_open m takes none = ([], false)
close_open m takes (some filters) = close_orphans m takes filters

abbrev pub close_through : BootMeeting → Option (ScopeEvent → Bool) → List ScopeEvent × Bool
close_through m none = ([], false)
close_through m (some takes) = close_open m takes m.reading.read

abbrev pub close_for :
    SinkId → BootMeeting → ReaderFor → WarmCoordinator → WarmCoordinator × List ScopeEvent × Bool
close_for id m ready c = let closed = close_through m m.writer in (c, closed.0, closed.1)
close_for id m no_state_reader c =
    (record c { writer_only = announce_writer_only id c.writer_only }, [], true)
close_for id m sink_not_live c = (c, [], false)

-- `closeOrphanedScopes`
unfoldable pub close_orphaned_scopes :
    SinkId → BootMeeting → WarmCoordinator → WarmCoordinator × List ScopeEvent × Bool
close_orphaned_scopes id m c = close_for id m (reader_for m.reading) c

-- The rest of the loop of `reconcileScopeEpochs`.
abbrev pub PassOn : Type 0
PassOn = WarmCoordinator → WarmCoordinator × List (SinkId × ScopeEvent)

abbrev pub settle_pass :
    PassOn
    → SinkId
    → Bool
    → WarmCoordinator × List ScopeEvent × Bool
    → WarmCoordinator × List (SinkId × ScopeEvent)
settle_pass next id cancelled (c, events, true) =
    let rest = next (mark_boot_reconciled id c) in
    (rest.0, map (λ event. (id, event)) events ++ rest.1)
settle_pass next id true (c, events, false) = (c, map (λ event. (id, event)) events)
settle_pass next id false (c, events, false) =
    let rest = next c in (rest.0, map (λ event. (id, event)) events ++ rest.1)

-- `reconcileScopeEpochs`, with the events that it wrote
unfoldable pub reconcile_scope_epochs :
    (SinkId → BootMeeting)
    → List SinkId
    → WarmCoordinator
    → WarmCoordinator × List (SinkId × ScopeEvent)
reconcile_scope_epochs meet [] c = (c, [])
reconcile_scope_epochs meet (id ∷ ids) c =
    let done = reconcile_scope_epochs meet ids c in
    let pass =
      settle_pass (reconcile_scope_epochs meet ids) id (meet id).cancelled
        (close_orphaned_scopes id (meet id) c) in
    if boot_reconciled id c then done else pass
