-- ===== src/Examples/Scopes.antt =====
-- One scope watched by two targets in turn, from instant 10 to instant 30.
use kuberecord.Base.{
  ℕ, ◌+◌, ◌<◌, ◌≤◌, ◌≡◌, ◌⊎◌, true, false, some, List, [], ◌∷◌, ◌++◌, arith, refl, text_eq, length,
  contains, inr, remove_all, List-ℕ_discrete,
}
use native.Mathlib.Decide.{ℕ_discrete}
use kuberecord.Base.Text.{Text, codes}
use kuberecord.Base.Map.{lookup, insert, erase}
use kuberecord.Sink.Identity.{SinkId, SinkId_discrete}
use kuberecord.Pipeline.Identity.{ScopeKey, ScopeKey_discrete}
use kuberecord.Watch.ScopeRecorder
use kuberecord.Watch.ScopeRecorder.{
  ScopeTransition, ScopeEpochRecorder, ScopeEvent, PendingScopeEvent, RecorderKey, recorder_key,
  event_for, started, stopped, warm_scope, stop_scope, enqueue_locked, scope_started, scope_stopped,
  Router, accepts, flush, flush_pending, pop_handed, PendingScopeEvent_discrete, is_first, is_last,
  triggering_rule, add_target, RecorderKey_discrete,
}
use kuberecord.Watch.ScopeRecorder.Epochs.{
  start, stop, step, is_active, IsValid, actions_of, alternates,
}
use kuberecord.Watch.ScopeRecorder.Traffic.{
  Happening, flushing, round, happen, play, HasRoom, play-alternates,
}
use kuberecord.Watch.ScopeRecorder.Delivery.{enqueue_locked_bounded}
use kuberecord.Watch.ScopeRecorder.RoundTrip.{rows_of, action_text, Before, coverage-is_active}
use kuberecord.Query.Scope.{ScopeChange, ScopeInterval, pair_scope}
use kuberecord.Query.Scope.Pairing.{Ascending, covers, status, pair_scope-covers}

abbrev archive : SinkId
archive = record { kind = codes "S3Sink"; name = codes "archive" }

abbrev shop : ScopeKey
shop = record { group = []; kind = codes "Pod"; namespace = codes "shop" }

abbrev edge : Text → ℕ → ScopeTransition
edge target at = record {
  sink = archive;
  scope = shop;
  target = target;
  api_version = codes "v1";
  rule_keys = codes "team/rule" ∷ [];
  at = at;
}

abbrev recorder : ScopeEpochRecorder
recorder = ScopeRecorder.new (codes "c") true 8

abbrev shop_key : RecorderKey
shop_key = recorder_key (edge [] 0)

-- Every sink takes its events.
abbrev taking : Router
taking = λ id. some (λ e. true)

-- A handover between two versions of the kind, and the end of the watch; sinks take the events.
abbrev happenings : List Happening
happenings =
    Happening.edge (start (edge (codes "v1") 10))
    ∷ Happening.edge (start (edge (codes "v2") 15))
    ∷ round taking
    ∷ Happening.edge (stop (edge (codes "v1") 16))
    ∷ Happening.edge (stop (edge (codes "v2") 30))
    ∷ flushing taking
    ∷ []

recorder-IsValid : IsValid recorder
unfolding ScopeRecorder.new lookup
recorder-IsValid = record { held = λ k ts h. cc }

recorder-empty : recorder.pending ≡ []
unfolding ScopeRecorder.new
recorder-empty = refl

happenings-HasRoom : HasRoom happenings recorder
unfolding play happen step scope_started scope_stopped is_first is_last enqueue_locked event_for
    triggering_rule ScopeRecorder.new add_target lookup insert erase contains remove_all accepts
    pop_handed flush flush_pending PendingScopeEvent_discrete RecorderKey_discrete SinkId_discrete
    ScopeKey_discrete List-ℕ_discrete ℕ_discrete
happenings-HasRoom = (omega arith, (omega arith, (tt, (omega arith, (omega arith, (tt, tt))))))

happenings-drained : (play happenings recorder).0.pending ≡ []
unfolding play happen step scope_started scope_stopped is_first is_last enqueue_locked event_for
    triggering_rule ScopeRecorder.new add_target lookup insert erase contains remove_all accepts
    pop_handed flush flush_pending PendingScopeEvent_discrete RecorderKey_discrete SinkId_discrete
    ScopeKey_discrete List-ℕ_discrete ℕ_discrete
happenings-drained = refl

play-alternates_example :
    alternates
      (is_active shop_key recorder)
      (actions_of shop_key ((play happenings recorder).1 ++ (play happenings recorder).0.pending))
    ≡ some (is_active shop_key (play happenings recorder).0)
play-alternates_example =
    play-alternates shop_key happenings recorder recorder-IsValid recorder-empty happenings-HasRoom

recorder-idle : is_active shop_key recorder ≡ false
unfolding is_active ScopeRecorder.new lookup
recorder-idle = refl

-- An entry of the scope's log.
abbrev entry : Text → ℕ → ScopeChange
entry action at = record {
  api_group = [];
  kind = codes "Pod";
  namespace = codes "shop";
  action = action;
  rule_ref = codes "team/rule";
  ts = at;
}

abbrev scope_log : List ScopeChange
scope_log = entry (codes "Started") 10 ∷ entry (codes "Stopped") 30 ∷ []

handed-scope_log : rows_of shop_key (play happenings recorder).1 ≡ scope_log
unfolding play happen step scope_started scope_stopped is_first is_last enqueue_locked event_for
    triggering_rule ScopeRecorder.new add_target lookup insert erase contains remove_all accepts
    pop_handed flush flush_pending PendingScopeEvent_discrete RecorderKey_discrete SinkId_discrete
    ScopeKey_discrete List-ℕ_discrete ℕ_discrete rows_of action_text
handed-scope_log = refl

scope_log-Ascending : Ascending scope_log
scope_log-Ascending = ((ground arith, tt), (tt, tt))

handed-Ascending : Ascending (rows_of shop_key (play happenings recorder).1)
handed-Ascending = rw handed-scope_log scope_log-Ascending

handed-Before : Before 40 (rows_of shop_key (play happenings recorder).1)
handed-Before = rw handed-scope_log (ground arith, (ground arith, tt))

pair_scope-covers_example : covers 20 (pair_scope scope_log) ≡ status 20 false scope_log
pair_scope-covers_example = pair_scope-covers 20 scope_log scope_log-Ascending

coverage-is_active_example :
    covers 40 (pair_scope (rows_of shop_key (play happenings recorder).1))
    ≡ is_active shop_key (play happenings recorder).0
coverage-is_active_example =
    coverage-is_active 40 shop_key happenings recorder recorder-IsValid recorder-empty recorder-idle
      happenings-HasRoom happenings-drained handed-Ascending handed-Before

room : length recorder.pending < recorder.queue_limit
unfolding ScopeRecorder.new
room = ground arith

abbrev queued : ScopeEpochRecorder
queued = (scope_started (edge [] 10) recorder).0

abbrev event : ScopeEvent
event = event_for recorder.cluster_id (edge [] 10) started

abbrev transition : PendingScopeEvent
transition = record { sink = archive; event = event }

some-room : 0 < queued.queue_limit
unfolding ScopeRecorder.new scope_started is_first add_target contains enqueue_locked lookup
some-room = ground arith

queued-fits : length queued.pending ≤ queued.queue_limit
unfolding ScopeRecorder.new scope_started is_first add_target contains enqueue_locked lookup
queued-fits = ground arith

enqueue_locked_bounded_example :
    (length (enqueue_locked archive event queued).pending ≤ queued.queue_limit)
    × ((lost : List PendingScopeEvent) × (kept : List PendingScopeEvent) × (lost
            ++ (enqueue_locked archive event queued).pending
          ≡ queued.pending ++ (transition ∷ []))
        × ((enqueue_locked archive event queued).pending ≡ kept ++ (transition ∷ []))
        × ((enqueue_locked archive event queued).dropped ≡ queued.dropped + length lost))
enqueue_locked_bounded_example = enqueue_locked_bounded archive event queued some-room queued-fits

-- A sink that takes what starts, and refuses what stops.
abbrev only_starts : Router
only_starts id = some (λ e. elim e.action [ started ↦ true | stopped ↦ false ])

abbrev two_queued : List PendingScopeEvent
two_queued = transition ∷ record { sink = archive; event = record event { action = stopped } } ∷ []

abbrev closed : ScopeInterval
closed = record {
  api_group = [];
  kind = codes "Pod";
  namespace = codes "shop";
  rule_ref = [];
  from = 10;
  to = some 30;
}

closed-ordered : (last : ℕ) → closed.to ≡ some last → closed.from ≤ last
closed-ordered last e = ground arith

abbrev until : ℕ
until = 25

window-ordered : (until ≡ 0) ⊎ (20 ≤ 25)
window-ordered = inr (ground arith)
