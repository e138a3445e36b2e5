-- ===== src/Watch/ScopeRecorder.antt =====
-- internal/watch/scope_recorder.go: the recorder of scope epochs. An edge of a scope's life is one
-- step under the recorder's mutex; the warmer's call that follows it is part of the result.
pub mod Epochs
pub mod Delivery
pub mod Traffic
pub mod RoundTrip
use kuberecord.Base.{
  ℕ, suc, ◌+◌, ◌-◌, ◌≡◌, Bool, true, false, not, ◌&&◌, ◌||◌, Option, none, some, List, [], ◌∷◌,
  ◌++◌, arith, Eq, List-ℕ_discrete, text_eq, ◌==◌, if◌then◌else◌, length, leb, contains,
}
use native.Mathlib.Decide.{ℕ_discrete}
use kuberecord.Base.Lists.{drop, remove_all}
use kuberecord.Base.Map.{Map, lookup, insert, erase}
use kuberecord.Base.Text.{Text}
use kuberecord.Sink.Identity.{SinkId, id_eq, SinkId_discrete}
use kuberecord.Pipeline.Identity.{ScopeKey, ScopeKey_discrete}

-- `sink.ScopeAction`
pub data ScopeAction : Type 0 where
  started stopped : ScopeAction

-- `sink.ScopeFilter`
pub record ScopeFilter : Type 0 where
  pub cluster_id : Text
  pub api_group : Text
  pub kind : Text
  pub namespace : Text

-- `sink.ScopeEvent`
pub record ScopeEvent : Type 0 where
  pub action : ScopeAction
  pub scope : ScopeFilter
  pub api_version : Text
  pub rule_ref : Text
  pub ts : ℕ

-- `ScopeTransition`
pub record ScopeTransition : Type 0 where
  pub sink : SinkId
  pub scope : ScopeKey
  pub target : Text
  pub api_version : Text
  pub rule_keys : List Text
  pub at : ℕ

-- `scopeKey`
pub record RecorderKey : Type 0 where
  pub sink : SinkId
  pub scope : ScopeKey

unfoldable pub RecorderKey_discrete : Discrete RecorderKey
RecorderKey_discrete = hlevel (SinkId_discrete, ScopeKey_discrete)

instance abbrev pub recorder_key_eq : Eq RecorderKey
recorder_key_eq = record { same = RecorderKey_discrete }

-- `pendingScopeEvent`
pub record PendingScopeEvent : Type 0 where
  pub sink : SinkId
  pub event : ScopeEvent

unfoldable pub PendingScopeEvent_discrete : Discrete PendingScopeEvent
PendingScopeEvent_discrete = hlevel (SinkId_discrete, List-ℕ_discrete, ℕ_discrete)

instance abbrev pub pending_scope_event_eq : Eq PendingScopeEvent
pending_scope_event_eq = record { same = PendingScopeEvent_discrete }

-- `ScopeEpochRecorder`; `wake` is whether its channel of capacity 1 is full.
pub record ScopeEpochRecorder : Type 0 where
  pub cluster_id : Text
  pub has_warmer : Bool
  pub queue_limit : ℕ
  pub active : Map RecorderKey (List Text)
  pub pending : List PendingScopeEvent
  pub dropped : ℕ
  pub wake : Bool

abbrev pub default_scope_queue_limit : ℕ
default_scope_queue_limit = 4096

-- `NewScopeEpochRecorder`, given a router; a limit of 0 or less is the default.
unfoldable pub new : Text → Bool → ℕ → ScopeEpochRecorder
new cluster_id has_warmer limit = record {
  cluster_id = cluster_id;
  has_warmer = has_warmer;
  queue_limit = if leb limit 0 then default_scope_queue_limit else limit;
  active = [];
  pending = [];
  dropped = 0;
  wake = false;
}

-- A call of the `ScopeWarmer`.
pub data WarmCall : Type 0 where
  warm_scope : SinkId → ScopeKey → ℕ → WarmCall
  stop_scope : SinkId → ScopeKey → WarmCall

-- `triggeringRule`
unfoldable pub triggering_rule : List Text → Text
triggering_rule [] = []
triggering_rule (r ∷ rs) = r

-- `eventFor`
unfoldable pub event_for : Text → ScopeTransition → ScopeAction → ScopeEvent
unfolding triggering_rule
event_for cluster_id t action = record {
  action = action;
  scope = record {
    cluster_id = cluster_id;
    api_group = t.scope.group;
    kind = t.scope.kind;
    namespace = t.scope.namespace;
  };
  api_version = t.api_version;
  rule_ref = triggering_rule t.rule_keys;
  ts = t.at;
}

-- `enqueueLocked`
unfoldable pub enqueue_locked : SinkId → ScopeEvent → ScopeEpochRecorder → ScopeEpochRecorder
enqueue_locked id event r =
    let queued = r.pending ++ (record { sink = id; event = event } ∷ []) in
    let overflow = length queued - r.queue_limit in
    record r { pending = drop overflow queued; dropped = r.dropped + overflow }

abbrev pub recorder_key : ScopeTransition → RecorderKey
recorder_key t = record { sink = t.sink; scope = t.scope }

abbrev pub targets_of : Option (List Text) → List Text
targets_of none = []
targets_of (some ts) = ts

-- `targets[transition.Target] = struct{}{}`
unfoldable pub add_target : Text → List Text → List Text
add_target t ts = if contains ts t then ts else t ∷ ts

abbrev pub signal : ScopeEpochRecorder → ScopeEpochRecorder
signal r = record r { wake = true }

abbrev pub is_one {ℓ} : {A : Type ℓ} → List A → Bool
is_one (x ∷ []) = true
is_one _ = false

-- Whether the edge is the first of its scope.
unfoldable pub is_first : ScopeTransition → ScopeEpochRecorder → Bool
unfolding add_target
is_first t r =
    let targets = targets_of (lookup (recorder_key t) r.active) in
    not (contains targets t.target) && is_one (add_target t.target targets)

-- `ScopeStarted`
unfoldable pub scope_started :
    ScopeTransition → ScopeEpochRecorder → ScopeEpochRecorder × Option WarmCall
unfolding is_first
scope_started t r =
    let targets = add_target t.target (targets_of (lookup (recorder_key t) r.active)) in
    let held = record r { active = insert (recorder_key t) targets r.active } in
    if is_first t r
    then (
      signal (enqueue_locked t.sink (event_for r.cluster_id t started) held),
      if r.has_warmer then some (warm_scope t.sink t.scope t.at) else none,
    )
    else (held, none)

-- Whether the edge takes the last target of its scope.
unfoldable pub is_last : ScopeTransition → List Text → Bool
is_last t targets = elim (remove_all t.target targets) [ [] ↦ true | _ ∷ _ ↦ false ]

-- `ScopeStopped`
unfoldable pub scope_stopped :
    ScopeTransition → ScopeEpochRecorder → ScopeEpochRecorder × Option WarmCall
unfolding is_last
scope_stopped t r =
    let targets = targets_of (lookup (recorder_key t) r.active) in
    if not (contains targets t.target)
    then (r, none)
    else if is_last t targets
    then (
      signal (
          enqueue_locked t.sink (event_for r.cluster_id t stopped)
            (record r { active = erase (recorder_key t) r.active })),
      if r.has_warmer then some (stop_scope t.sink t.scope) else none,
    )
    else (
      record r { active = insert (recorder_key t) (remove_all t.target targets) r.active },
      none,
    )

-- What the router answers for a sink: no live writer, or a writer that takes or refuses an event.
abbrev pub Router : Type 0
Router = SinkId → Option (ScopeEvent → Bool)

-- Whether the head of the queue is handed to its sink.
unfoldable pub accepts : Router → PendingScopeEvent → Bool
accepts route next = elim (route next.sink) [ none ↦ false | some take ↦ take next.event ]

-- The loop of `flush` with nothing else running: what was handed over, and what stays queued.
unfoldable pub flush_pending :
    Router → List PendingScopeEvent → List PendingScopeEvent × List PendingScopeEvent
unfolding accepts
flush_pending route [] = ([], [])
flush_pending route (next ∷ rest) =
    let later = flush_pending route rest in
    if accepts route next then (next ∷ later.0, later.1) else ([], next ∷ rest)

-- `flush`, with `reportDrops`.
unfoldable pub flush : Router → ScopeEpochRecorder → ScopeEpochRecorder × List PendingScopeEvent
unfolding flush_pending
flush route r =
    let (handed, kept) = flush_pending route r.pending in
    (record r { pending = kept; dropped = 0 }, handed)

-- The end of one round of `flush`: the head goes only if it still is what was handed over.
unfoldable pub pop_handed : PendingScopeEvent → ScopeEpochRecorder → ScopeEpochRecorder
pop_handed next r = elim r.pending [
  | [] ↦ r
  | head ∷ rest ↦ if head == next then record r { pending = rest } else r
]
