-- ===== src/Pipeline/Coordinator/Lifecycle.antt =====
-- At most one warm-up runs for a scope, and none for a scope that is no longer watched.
use kuberecord.Base.{
  ℕ, ◌≡◌, Bool, true, false, not, ◌&&◌, Option, none, some, List, [], ◌∷◌, arith, refl, sym, ap,
  ◌∙◌, ◌==◌, if◌then◌else◌, ltb, Bool-cases, inl, inr, All,
}
use kuberecord.Base.Lists.{drop}
use kuberecord.Base.Tests.{==_self, eq_of_==}
use kuberecord.Base.Map.{Map, lookup, insert, lookup-insert, Distinct, insert-Distinct}
use kuberecord.Pipeline.Warm.{ScopeRef}
use kuberecord.Sink.Identity.{SinkId, id_eq}
use kuberecord.Pipeline.Coordinator.{
  WarmTarget, ref_of, ref_eq, WarmEvent, launched, cancelled, WarmCoordinator, new_coordinator,
  supersede, start_locked, warm_scope, delete_targets, cancel_runs, drop_runs, stop_scope,
  forget_sink, start_each, start, shut_down, mark_boot_reconciled,
}

-- The epochs of a scope's goroutines that were launched and not cancelled, newest first.
unfoldable pub live : ScopeRef → List WarmEvent → List ℕ
live ref [] = []
live ref (launched other epoch ∷ log) =
    let rest = live ref log in if other == ref then epoch ∷ rest else rest
live ref (cancelled other ∷ log) =
    let rest = live ref log in if other == ref then drop 1 rest else rest

abbrev pub epochs : Option ℕ → List ℕ
epochs none = []
epochs (some epoch) = epoch ∷ []

-- What runs for a scope is what the coordinator has for it.
abbrev Tracks : Map ScopeRef ℕ → List WarmEvent → Type 0
Tracks runs log = (ref : ScopeRef) → live ref log ≡ epochs (lookup ref runs)

pub record IsSingle (c : WarmCoordinator) : Type 0 where
  pub distinct : Distinct c.runs
  pub tracks : Tracks c.runs c.log

launch-tracks :
    (ref other : ScopeRef) (epoch : ℕ) (runs : Map ScopeRef ℕ) (log : List WarmEvent)
    → (other == ref ≡ true → live ref log ≡ [])
    → (other == ref ≡ false → live ref log ≡ epochs (lookup ref runs))
    → live ref (launched other epoch ∷ log) ≡ epochs (lookup ref (insert other epoch runs))
unfolding live
launch-tracks ref other epoch runs log same apart =
    ground (arith, lookup-insert other ref epoch runs, same, apart)

cancel-tracks :
    (ref other : ScopeRef) (epoch : ℕ) (runs : Map ScopeRef ℕ) (log : List WarmEvent)
    → lookup other runs ≡ some epoch
    → live other log ≡ epochs (lookup other runs)
    → other == ref ≡ true
    → live ref (cancelled other ∷ log) ≡ []
unfolding live
cancel-tracks ref other epoch runs log e t same = ground (arith, eq_of_== other ref same)

supersede-IsSingle :
    (target : WarmTarget) (o : Option ℕ) (c : WarmCoordinator)
    → lookup (ref_of target) c.runs ≡ o
    → IsSingle c
    → IsSingle (supersede target o c)
unfolding live
supersede-IsSingle target none c e v = record {
  distinct = insert-Distinct (ref_of target) target.epoch_start c.runs v.distinct;
  tracks = λ ref.
      launch-tracks ref (ref_of target) target.epoch_start c.runs c.log
        (λ same. v.tracks ref ∙ ground (arith, eq_of_== (ref_of target) ref same))
        (λ _. v.tracks ref);
}
supersede-IsSingle target (some epoch) c e v =
    elim (Bool-cases (not (ltb epoch target.epoch_start))) [
      | inl y ↦ rw y v
      | inr n ↦ rw n (record {
        distinct = insert-Distinct (ref_of target) target.epoch_start c.runs v.distinct;
        tracks = λ ref.
            launch-tracks ref (ref_of target) target.epoch_start c.runs
              (cancelled (ref_of target) ∷ c.log)
              (λ same.
                cancel-tracks ref (ref_of target) epoch c.runs c.log e (v.tracks (ref_of target))
                  same)
              (λ apart. ground (arith, v.tracks ref));
      })
    ]

abbrev is_there : Option ℕ → Bool
is_there none = false
is_there (some _) = true

cancel_runs-lookup :
    (test : ScopeRef → Bool) (runs : Map ScopeRef ℕ) (log : List WarmEvent) (ref : ScopeRef)
    → lookup ref (cancel_runs test runs log).0 ≡ (if test ref then none else lookup ref runs)
unfolding cancel_runs lookup
cancel_runs-lookup test [] log ref = ground arith
cancel_runs-lookup test ((other, epoch) ∷ runs) log ref =
    ground (arith, cancel_runs-lookup test runs log ref, ap test (eq_of_== other ref _))

cancel_runs-Distinct :
    (test : ScopeRef → Bool) (runs : Map ScopeRef ℕ) (log : List WarmEvent)
    → Distinct runs
    → Distinct (cancel_runs test runs log).0
unfolding cancel_runs
cancel_runs-Distinct test [] log d = tt
cancel_runs-Distinct test ((other, epoch) ∷ runs) log d =
    ground (arith, cancel_runs-Distinct test runs log d.1, cancel_runs-lookup test runs log other)

cancel_runs-live :
    (test : ScopeRef → Bool) (runs : Map ScopeRef ℕ) (log : List WarmEvent) (ref : ScopeRef)
    → Distinct runs
    → live ref (cancel_runs test runs log).1
      ≡ (if test ref && is_there (lookup ref runs) then drop 1 (live ref log) else live ref log)
unfolding cancel_runs lookup live
cancel_runs-live test [] log ref d = ground arith
cancel_runs-live test ((other, epoch) ∷ runs) log ref d = elim (Bool-cases (other == ref)) [
  | inl y ↦
      let same : other ≡ ref = eq_of_== other ref y in
      ground (arith, cancel_runs-live test runs log ref d.1, same, ap test same)
  | inr n ↦ ground (arith, cancel_runs-live test runs log ref d.1)
]

drop-epochs :
    (b : Bool) (o : Option ℕ)
    → (if b && is_there o then drop 1 (epochs o) else epochs o) ≡ epochs (if b then none else o)
drop-epochs true none = refl
drop-epochs true (some epoch) = refl
drop-epochs false o = refl

drop_runs-IsSingle :
    (test : ScopeRef → Bool) (c : WarmCoordinator) → IsSingle c → IsSingle (drop_runs test c)
drop_runs-IsSingle test c v = record {
  distinct = cancel_runs-Distinct test c.runs c.log v.distinct;
  tracks = λ ref.
      cancel_runs-live test c.runs c.log ref v.distinct
      ∙ rw (v.tracks ref) (drop-epochs (test ref) (lookup ref c.runs))
      ∙ ap epochs (sym (cancel_runs-lookup test c.runs c.log ref));
}

start_locked-IsSingle :
    (target : WarmTarget) (c : WarmCoordinator) → IsSingle c → IsSingle (start_locked target c)
unfolding start_locked
start_locked-IsSingle target c v =
    supersede-IsSingle target (lookup (ref_of target) c.runs) c refl v

start_each-IsSingle :
    (targets : List WarmTarget) (c : WarmCoordinator) → IsSingle c → IsSingle (start_each targets c)
unfolding start_each
start_each-IsSingle [] c v = v
start_each-IsSingle (target ∷ targets) c v =
    start_each-IsSingle targets (start_locked target c) (start_locked-IsSingle target c v)

-- the runs and the log decide
IsSingle-of :
    (c c' : WarmCoordinator) → c'.runs ≡ c.runs → c'.log ≡ c.log → IsSingle c → IsSingle c'
IsSingle-of c c' e f v = record { distinct = rw e v.distinct; tracks = rw e (rw f v.tracks) }

if-IsSingle :
    (b : Bool) (c d : WarmCoordinator) → IsSingle c → IsSingle d → IsSingle (if b then c else d)
if-IsSingle true c d v w = v
if-IsSingle false c d v w = w

warm_scope-IsSingle :
    (target : WarmTarget) (c : WarmCoordinator) → IsSingle c → IsSingle (warm_scope target c)
unfolding warm_scope
warm_scope-IsSingle target c v = if-IsSingle c.stopped c _ v (
    if-IsSingle (not c.started) _ (start_locked target c) (IsSingle-of c _ refl refl v)
      (start_locked-IsSingle target c v))

-- The calls that a coordinator gets, in any order.
pub data Steps : WarmCoordinator → WarmCoordinator → Type 0 where
  here : {c : WarmCoordinator} → Steps c c
  requested :
      {c c' : WarmCoordinator} (target : WarmTarget) → Steps (warm_scope target c) c' → Steps c c'
  stopped_scope :
      {c c' : WarmCoordinator} (ref : ScopeRef) → Steps (stop_scope ref c) c' → Steps c c'
  forgot : {c c' : WarmCoordinator} (id : SinkId) → Steps (forget_sink id c) c' → Steps c c'
  began : {c c' : WarmCoordinator} → Steps (start c) c' → Steps c c'
  ended : {c c' : WarmCoordinator} → Steps (shut_down c) c' → Steps c c'
  booted :
      {c c' : WarmCoordinator} (id : SinkId) → Steps (mark_boot_reconciled id c) c' → Steps c c'

Steps-keeps : {c c' : WarmCoordinator} → Steps c c' → IsSingle c → IsSingle c'
unfolding stop_scope forget_sink start shut_down mark_boot_reconciled
Steps-keeps here v = v
Steps-keeps (requested target r) v = Steps-keeps r (warm_scope-IsSingle target _ v)
Steps-keeps {c} (stopped_scope ref r) v = Steps-keeps r (
    IsSingle-of (drop_runs (λ other. other == ref) c) _ refl refl
      (drop_runs-IsSingle (λ other. other == ref) c v))
Steps-keeps {c} (forgot id r) v = Steps-keeps r (
    IsSingle-of (drop_runs (λ ref. ref.sink == id) c) _ refl refl
      (drop_runs-IsSingle (λ ref. ref.sink == id) c v))
Steps-keeps {c} (began r) v =
    Steps-keeps r (start_each-IsSingle c.pending _ (IsSingle-of c _ refl refl v))
Steps-keeps {c} (ended r) v =
    Steps-keeps r
      (IsSingle-of (drop_runs (λ _. true) c) _ refl refl (drop_runs-IsSingle (λ _. true) c v))
Steps-keeps {c} (booted id r) v = Steps-keeps r (IsSingle-of c _ refl refl v)

new-IsSingle : IsSingle new_coordinator
unfolding live lookup
new-IsSingle = record { distinct = tt; tracks = λ ref. refl }

-- However requests, stops, forgotten sinks, the start and the end follow on each other, at any time at
-- most one goroutine that is not cancelled warms a scope, and it is the run that the coordinator holds.
pub Steps-IsSingle : {c : WarmCoordinator} → Steps new_coordinator c → IsSingle c
Steps-IsSingle r = Steps-keeps r new-IsSingle

delete_targets-none :
    (test : WarmTarget → Bool) (targets : List WarmTarget)
    → All (λ target. test target ≡ false) (delete_targets test targets)
unfolding delete_targets
delete_targets-none test [] = tt
delete_targets-none test (target ∷ targets) = elim (Bool-cases (test target)) [
  | inl y ↦ rw y (delete_targets-none test targets)
  | inr n ↦ rw n (n, delete_targets-none test targets)
]

-- Whatever came before: once a scope is stopped, no goroutine that is not cancelled warms it and no
-- warm-up of it is pending; the runs of other scopes that are not cancelled are the same as before.
pub stop_scope_lem :
    {c : WarmCoordinator} (ref : ScopeRef)
    → Steps new_coordinator c
    → (live ref (stop_scope ref c).log ≡ [])
      × All (λ target. (ref_of target == ref) ≡ false) (stop_scope ref c).pending
      × ((other : ScopeRef)
          → (other == ref) ≡ false
          → live other (stop_scope ref c).log ≡ live other c.log)
unfolding stop_scope
stop_scope_lem {c} ref r =
    let v = Steps-IsSingle r in
    let after = drop_runs-IsSingle (λ other. other == ref) c v in
    let gone : lookup ref (cancel_runs (λ other. other == ref) c.runs c.log).0 ≡ none =
      ground (arith, cancel_runs-lookup (λ other. other == ref) c.runs c.log ref, ==_self ref) in
    (
      after.tracks ref ∙ ap epochs gone,
      delete_targets-none (λ target. ref_of target == ref) c.pending,
      λ other apart. cancel_runs-live (λ o. o == ref) c.runs c.log other v.distinct ∙ rw apart refl,
    )
