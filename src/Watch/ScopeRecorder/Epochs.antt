-- ===== src/Watch/ScopeRecorder/Epochs.antt =====
-- The epochs that the recorder writes: one event for each time a scope starts or stops being watched.
use kuberecord.Base.{
  ◌-◌, ◌<◌, ◌≡◌, ◌≢◌, ◌++◌, Bool, true, false, not, ◌&&◌, ◌||◌, Option, none, some, List, [], ◌∷◌,
  arith, refl, sym, ap, text_eq, ◌==◌, if◌then◌else◌, contains, ◌∙◌, length, length-append,
}
use kuberecord.Base.Lists.{remove_all}
use kuberecord.Base.Map.{lookup, insert, erase, lookup-insert, lookup-erase}
use kuberecord.Base.Text.{Text}
use mathlib.Core.List.{append-nil}
use kuberecord.Sink.Identity.{SinkId}
use kuberecord.Watch.ScopeRecorder.{
  ScopeEpochRecorder, ScopeTransition, ScopeAction, started, stopped, ScopeEvent, PendingScopeEvent,
  RecorderKey, recorder_key_eq, recorder_key, WarmCall, warm_scope, stop_scope, scope_started,
  scope_stopped, is_first, is_last, targets_of, add_target, event_for, enqueue_locked, is_one,
}

-- An edge of a target's life, as the watch manager reports it.
pub data Edge : Type 0 where
  start : ScopeTransition → Edge
  stop : ScopeTransition → Edge

unfoldable pub step : Edge → ScopeEpochRecorder → ScopeEpochRecorder × Option WarmCall
step (start t) r = scope_started t r
step (stop t) r = scope_stopped t r

-- The scope is being watched: some target holds it.
unfoldable pub is_active : RecorderKey → ScopeEpochRecorder → Bool
is_active k r = elim (lookup k r.active) [ none ↦ false | some _ ↦ true ]

-- Every active scope is held by a target.
pub record IsValid (r : ScopeEpochRecorder) : Type 0 where
  pub held : (k : RecorderKey) (ts : List Text) → lookup k r.active ≡ some ts → ts ≢ []

add_target-ne-nil : (t : Text) (ts : List Text) → add_target t ts ≢ []
unfolding add_target contains
add_target-ne-nil t [] = ground arith
add_target-ne-nil t (x ∷ xs) = ground arith

-- Every edge keeps every active scope held.
pub step-IsValid : (e : Edge) (r : ScopeEpochRecorder) → IsValid r → IsValid (step e r).0
unfolding step scope_started scope_stopped enqueue_locked
step-IsValid (start t) r v = record {
  held = λ k ts h. grind (arith, lookup-insert, add_target-ne-nil, v.held);
}
step-IsValid (stop t) r v = record {
  held = unfold is_last in λ k ts h. grind (arith, lookup-insert, lookup-erase, v.held);
}

-- What the edge appends to the queue, read off on an empty queue with room for one event.
abbrev pub appended : Edge → ScopeEpochRecorder → List PendingScopeEvent
appended e r = (step e (record r { pending = []; queue_limit = 1 })).0.pending

-- The key that an event is about.
abbrev pub key_of : PendingScopeEvent → RecorderKey
key_of p = record {
  sink = p.sink;
  scope = record {
    group = p.event.scope.api_group;
    kind = p.event.scope.kind;
    namespace = p.event.scope.namespace;
  };
}

unfoldable pub actions_of : RecorderKey → List PendingScopeEvent → List ScopeAction
actions_of k [] = []
actions_of k (p ∷ ps) =
    let rest = actions_of k ps in if key_of p == k then p.event.action ∷ rest else rest

-- Reads a log: `Started` only while stopped, `Stopped` only while started.
unfoldable pub alternates : Bool → List ScopeAction → Option Bool
alternates watched [] = some watched
alternates false (started ∷ rest) = alternates true rest
alternates true (stopped ∷ rest) = alternates false rest
alternates _ _ = none

first-targets :
    (t : Text) (o : Option (List Text))
    → ((ts : List Text) → o ≡ some ts → ts ≢ [])
    → not (contains (targets_of o) t) && is_one (add_target t (targets_of o))
      ≡ elim o [ none ↦ true | some _ ↦ false ]
unfolding add_target contains
first-targets t none h = refl
first-targets t (some []) h = absurd (h [] refl refl)
first-targets t (some (x ∷ xs)) h = ground arith

first-inactive :
    (t : ScopeTransition) (r : ScopeEpochRecorder)
    → IsValid r
    → is_first t r ≡ not (is_active (recorder_key t) r)
unfolding is_first is_active
first-inactive t r v =
    ground
      (arith, first-targets t.target (lookup (recorder_key t) r.active) (v.held (recorder_key t)))

-- The scope has the target and no other.
unfoldable pub holds_only : ScopeTransition → ScopeEpochRecorder → Bool
holds_only t r =
    let targets = targets_of (lookup (recorder_key t) r.active) in
    contains targets t.target && is_last t targets

enqueue-room :
    (id : SinkId) (e : ScopeEvent) (r : ScopeEpochRecorder)
    → length r.pending < r.queue_limit
    → (enqueue_locked id e r).pending ≡ r.pending ++ (record { sink = id; event = e } ∷ [])
unfolding enqueue_locked
enqueue-room id e r room =
    let none_over : length (r.pending ++ (record { sink = id; event = e } ∷ [])) - r.queue_limit
        ≡ 0 =
      omega (arith, length-append r.pending (record { sink = id; event = e } ∷ [])) in
    rw none_over refl

-- With room in the queue, an edge does exactly this. The first start of a scope that is not being
-- watched queues one `Started` event, stamped with the edge's instant and naming its first rule,
-- and warms the scope; any other start queues nothing. A stop of a target that the scope does not
-- hold changes nothing; the stop of its last target queues one `Stopped` event and cancels the
-- warming; any other stop queues nothing.
pub edge_events :
    (t : ScopeTransition) (r : ScopeEpochRecorder)
    → IsValid r
    → length r.pending < r.queue_limit
    → ((scope_started t r).0.pending
        ≡ r.pending
          ++ (if is_active (recorder_key t) r
              then []
              else record { sink = t.sink; event = event_for r.cluster_id t started } ∷ []))
      × ((scope_started t r).1 ≡ (
          if is_active (recorder_key t) r || not r.has_warmer
          then none
          else some (warm_scope t.sink t.scope t.at)))
      × ((scope_stopped t r).0.pending
          ≡ r.pending
            ++ (if holds_only t r
                then record { sink = t.sink; event = event_for r.cluster_id t stopped } ∷ []
                else []))
      × ((scope_stopped t r).1
          ≡ (if holds_only t r && r.has_warmer then some (stop_scope t.sink t.scope) else none))
unfolding scope_started scope_stopped holds_only
edge_events t r v room = (
  ground (
    arith,
    first-inactive t r v,
    enqueue-room t.sink (event_for r.cluster_id t started)
        (record r {
          active =
              insert (recorder_key t)
                (add_target t.target (targets_of (lookup (recorder_key t) r.active))) r.active;
        })
        room,
    append-nil r.pending,
  ),
  ground (arith, first-inactive t r v),
  ground (
    arith,
    enqueue-room t.sink (event_for r.cluster_id t stopped)
        (record r { active = erase (recorder_key t) r.active }) room,
    append-nil r.pending,
  ),
  ground arith,
)

started-alternates :
    (k : RecorderKey) (t : ScopeTransition) (r : ScopeEpochRecorder)
    → IsValid r
    → alternates (is_active k r) (actions_of k (appended (start t) r))
      ≡ some (is_active k (scope_started t r).0)
unfolding step scope_started enqueue_locked alternates actions_of is_active event_for
started-alternates k t r v = ground (
  arith,
  first-inactive t r v,
  lookup-insert (recorder_key t) k
      (add_target t.target (targets_of (lookup (recorder_key t) r.active))) r.active,
)

stopped-alternates :
    (k : RecorderKey) (t : ScopeTransition) (r : ScopeEpochRecorder)
    → alternates (is_active k r) (actions_of k (appended (stop t) r))
      ≡ some (is_active k (scope_stopped t r).0)
unfolding step scope_stopped enqueue_locked alternates actions_of is_active event_for contains
stopped-alternates k t r = ground (
  arith,
  lookup-erase (recorder_key t) k r.active,
  lookup-insert (recorder_key t) k
      (remove_all t.target (targets_of (lookup (recorder_key t) r.active))) r.active,
)

pub alternates-append :
    (live : Bool) (xs ys : List ScopeAction) {next : Bool}
    → alternates live xs ≡ some next
    → alternates live (xs ++ ys) ≡ alternates next ys
unfolding alternates
alternates-append live [] ys h = ground arith
alternates-append false (started ∷ xs) ys h = alternates-append true xs ys h
alternates-append true (stopped ∷ xs) ys h = alternates-append false xs ys h
alternates-append false (stopped ∷ xs) ys h = cc
alternates-append true (started ∷ xs) ys h = cc

pub step-alternates :
    (k : RecorderKey) (e : Edge) (r : ScopeEpochRecorder)
    → IsValid r
    → alternates (is_active k r) (actions_of k (appended e r)) ≡ some (is_active k (step e r).0)
unfolding step
step-alternates k (start t) r v = started-alternates k t r v
step-alternates k (stop t) r v = stopped-alternates k t r

-- With room, an edge queues what it would queue on an empty queue.
pub step-appended :
    (e : Edge) (r : ScopeEpochRecorder)
    → IsValid r
    → length r.pending < r.queue_limit
    → (step e r).0.pending ≡ r.pending ++ appended e r
unfolding step is_active holds_only
step-appended (start t) r v room =
    let cleared = record r { pending = []; queue_limit = 1 } in
    let now = (edge_events t cleared (record { held = v.held }) (omega arith)).0 in
    (edge_events t r v room).0 ∙ ap (λ (ps : List PendingScopeEvent). r.pending ++ ps) (sym now)
step-appended (stop t) r v room =
    let cleared = record r { pending = []; queue_limit = 1 } in
    let now = (edge_events t cleared (record { held = v.held }) (omega arith)).2 in
    (edge_events t r v room).2 ∙ ap (λ (ps : List PendingScopeEvent). r.pending ++ ps) (sym now)
