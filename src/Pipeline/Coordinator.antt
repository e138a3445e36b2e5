-- ===== src/Pipeline/Coordinator.antt =====
-- internal/pipeline/warm.go: which warm-ups run, and the reconciliation of the scope logs at boot. Each
-- method runs under the coordinator's mutex and is one step. A warm-up is a goroutine: the log, newest
-- first, has its launch and its cancellation.
pub mod Lifecycle
pub mod Boot
pub mod Orphans
use kuberecord.Base.{
  ℕ, Bool, true, false, not, Option, none, some, List, [], ◌∷◌, ◌++◌, ◌==◌, if◌then◌else◌, ltb,
  contains, Eq, List-ℕ_discrete,
}
use kuberecord.Base.Lists.{remove_all}
use kuberecord.Base.Map.{Map, lookup, insert}
use kuberecord.Pipeline.Identity.{ScopeKey, ScopeKey_discrete}
use kuberecord.Pipeline.Warm.{ScopeRef}
use kuberecord.Sink.Identity.{SinkId, SinkId_discrete, id_eq}

unfoldable pub ScopeRef_discrete : Discrete ScopeRef
ScopeRef_discrete = hlevel (SinkId_discrete, ScopeKey_discrete)

instance abbrev pub ref_eq : Eq ScopeRef
ref_eq = record { same = ScopeRef_discrete }

-- `WarmTarget`
pub record WarmTarget : Type 0 where
  pub sink : SinkId
  pub scope : ScopeKey
  pub epoch_start : ℕ

abbrev pub ref_of : WarmTarget → ScopeRef
ref_of target = record { sink = target.sink; scope = target.scope }

-- What happens to the goroutines.
pub data WarmEvent : Type 0 where
  launched : (ref : ScopeRef) (epoch : ℕ) → WarmEvent
  cancelled : (ref : ScopeRef) → WarmEvent

-- `WarmCoordinator`; a run is its epoch, and `ctx` is there once it started.
pub record WarmCoordinator : Type 0 where
  pub started : Bool
  pub stopped : Bool
  pub pending : List WarmTarget
  pub runs : Map ScopeRef ℕ
  pub boot_done : List SinkId
  pub writer_only : List SinkId
  pub log : List WarmEvent

-- The coordinator that `NewWarmCoordinator` makes.
abbrev pub new_coordinator : WarmCoordinator
new_coordinator = record {
  started = false;
  stopped = false;
  pending = [];
  runs = [];
  boot_done = [];
  writer_only = [];
  log = [];
}

-- The end of `startLocked`.
abbrev pub launch : WarmTarget → List WarmEvent → WarmCoordinator → WarmCoordinator
launch target log c = record c {
  runs = insert (ref_of target) target.epoch_start c.runs;
  log = launched (ref_of target) target.epoch_start ∷ log;
}

abbrev pub supersede : WarmTarget → Option ℕ → WarmCoordinator → WarmCoordinator
supersede target none c = launch target c.log c
supersede target (some epoch) c =
    if not (ltb epoch target.epoch_start)
    then c
    else launch target (cancelled (ref_of target) ∷ c.log) c

-- `startLocked`
unfoldable pub start_locked : WarmTarget → WarmCoordinator → WarmCoordinator
start_locked target c = supersede target (lookup (ref_of target) c.runs) c

-- `WarmScope`
unfoldable pub warm_scope : WarmTarget → WarmCoordinator → WarmCoordinator
warm_scope target c =
    if c.stopped
    then c
    else if not c.started
    then record c { pending = c.pending ++ (target ∷ []) }
    else start_locked target c

-- `slices.DeleteFunc` on the pending targets.
unfoldable pub delete_targets : (WarmTarget → Bool) → List WarmTarget → List WarmTarget
delete_targets test [] = []
delete_targets test (target ∷ targets) =
    let rest = delete_targets test targets in if test target then rest else target ∷ rest

-- The loops that cancel runs and delete them.
unfoldable pub cancel_runs :
    (ScopeRef → Bool) → Map ScopeRef ℕ → List WarmEvent → Map ScopeRef ℕ × List WarmEvent
cancel_runs test [] log = ([], log)
cancel_runs test ((ref, epoch) ∷ runs) log =
    let rest = cancel_runs test runs log in
    if test ref then (rest.0, cancelled ref ∷ rest.1) else ((ref, epoch) ∷ rest.0, rest.1)

abbrev pub drop_runs : (ScopeRef → Bool) → WarmCoordinator → WarmCoordinator
drop_runs test c =
    let rest = cancel_runs test c.runs c.log in record c { runs = rest.0; log = rest.1 }

-- `StopScope`
unfoldable pub stop_scope : ScopeRef → WarmCoordinator → WarmCoordinator
stop_scope ref c = record (drop_runs (λ other. other == ref) c) {
  pending = delete_targets (λ target. ref_of target == ref) c.pending;
}

-- `ForgetSink`
unfoldable pub forget_sink : SinkId → WarmCoordinator → WarmCoordinator
forget_sink id c = record (drop_runs (λ ref. ref.sink == id) c) {
  boot_done = remove_all id c.boot_done;
  writer_only = remove_all id c.writer_only;
  pending = delete_targets (λ target. target.sink == id) c.pending;
}

unfoldable pub start_each : List WarmTarget → WarmCoordinator → WarmCoordinator
start_each [] c = c
start_each (target ∷ targets) c = start_each targets (start_locked target c)

-- `Start` up to its boot loop: the pending warm-ups are launched.
unfoldable pub start : WarmCoordinator → WarmCoordinator
start c = start_each c.pending (record c { started = true; pending = [] })

-- The end of `Start`.
unfoldable pub shut_down : WarmCoordinator → WarmCoordinator
shut_down c = record (drop_runs (λ _. true) c) { stopped = true }

-- `bootReconciled`
unfoldable pub boot_reconciled : SinkId → WarmCoordinator → Bool
boot_reconciled id c = contains c.boot_done id

-- `markBootReconciled`
unfoldable pub mark_boot_reconciled : SinkId → WarmCoordinator → WarmCoordinator
mark_boot_reconciled id c = record c {
  boot_done = if contains c.boot_done id then c.boot_done else id ∷ c.boot_done;
}
