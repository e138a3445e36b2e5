-- ===== src/Watch/ScopeRecorder/Traffic.antt =====
-- The recorder at work: edges come in at one end of its queue, and sinks take events at the other.
use kuberecord.Base.{
  ◌<◌, ◌≡◌, ◌++◌, Bool, true, false, some, List, [], ◌∷◌, arith, refl, sym, ap, ◌∙◌, if◌then◌else◌,
  length, Bool-cases, inl, inr,
}
use mathlib.Core.List.{append_assoc}
use mathlib.Core.Path.{subst}
use kuberecord.Base.Tests.{==_self}
use kuberecord.Base.Map.{lookup}
use kuberecord.Watch.ScopeRecorder.{
  ScopeEpochRecorder, ScopeAction, PendingScopeEvent, RecorderKey, recorder_key_eq,
  pending_scope_event_eq, Router, accepts, flush, pop_handed,
}
use kuberecord.Watch.ScopeRecorder.Epochs.{
  Edge, step, step-IsValid, step-alternates, step-appended, IsValid, is_active, appended,
  actions_of, alternates, alternates-append,
}
use kuberecord.Watch.ScopeRecorder.Delivery.{flush_pending_lem}

-- What happens to the recorder: an edge, a whole flush, or one round of a flush's loop.
pub data Happening : Type 0 where
  edge : Edge → Happening
  flushing round : Router → Happening

-- One round, on the queue: the head is handed over if its sink takes it, and then popped.
abbrev pub hand :
    Router
    → ScopeEpochRecorder
    → List PendingScopeEvent
    → ScopeEpochRecorder × List PendingScopeEvent
hand route r [] = (r, [])
hand route r (next ∷ rest) = if accepts route next then (pop_handed next r, next ∷ []) else (r, [])

-- The recorder after it, and what was handed over.
unfoldable pub happen : Happening → ScopeEpochRecorder → ScopeEpochRecorder × List PendingScopeEvent
happen (edge e) r = ((step e r).0, [])
happen (flushing route) r = flush route r
happen (round route) r = hand route r r.pending

-- All of it, and all that was handed over, in order.
unfoldable pub play :
    List Happening → ScopeEpochRecorder → ScopeEpochRecorder × List PendingScopeEvent
play [] r = (r, [])
play (h ∷ hs) r =
    let first = happen h r in let rest = play hs first.0 in (rest.0, first.1 ++ rest.1)

-- The queue has room where an edge comes.
abbrev pub Fits : Happening → ScopeEpochRecorder → Type 0
Fits (edge e) r = length r.pending < r.queue_limit
Fits (flushing route) r = Unit {0}
Fits (round route) r = Unit {0}

-- No edge finds the queue full, so nothing is dropped.
abbrev pub HasRoom : List Happening → ScopeEpochRecorder → Type 0
HasRoom [] r = Unit {0}
HasRoom (h ∷ hs) r = Fits h r × HasRoom hs (happen h r).0

actions_of-append :
    (k : RecorderKey) (xs ys : List PendingScopeEvent)
    → actions_of k (xs ++ ys) ≡ actions_of k xs ++ actions_of k ys
unfolding actions_of
actions_of-append k [] ys = refl
actions_of-append k (p ∷ ps) ys = ground (arith, actions_of-append k ps ys)

-- A log that alternates does so up to any point, and from there on.
alternates-split :
    (live : Bool) (xs ys : List ScopeAction) {end : Bool}
    → alternates live (xs ++ ys) ≡ some end
    → (mid : Bool) × (alternates live xs ≡ some mid) × (alternates mid ys ≡ some end)
unfolding alternates
alternates-split live [] ys h = (live, ground arith, h)
alternates-split false (ScopeAction.started ∷ xs) ys h = alternates-split true xs ys h
alternates-split true (ScopeAction.stopped ∷ xs) ys h = alternates-split false xs ys h
alternates-split false (ScopeAction.stopped ∷ xs) ys h = absurd (cc)
alternates-split true (ScopeAction.started ∷ xs) ys h = absurd (cc)

pop-head :
    (next : PendingScopeEvent) (rest : List PendingScopeEvent) (r : ScopeEpochRecorder)
    → r.pending ≡ next ∷ rest
    → pop_handed next r ≡ record r { pending = rest }
unfolding pop_handed
pop-head next rest r e = ground (arith, e, ==_self next)

-- What is handed over comes off the head of the queue; nothing else changes that an edge looks at.
abbrev Hands : ScopeEpochRecorder → ScopeEpochRecorder × List PendingScopeEvent → Type 0
Hands r done = (r.pending ≡ done.1 ++ done.0.pending) × (done.0.active ≡ r.active)

hand-Hands :
    (route : Router) (r : ScopeEpochRecorder) (ps : List PendingScopeEvent)
    → r.pending ≡ ps
    → Hands r (hand route r ps)
hand-Hands route r [] e = (refl, refl)
hand-Hands route r (next ∷ rest) e = elim (Bool-cases (accepts route next)) [
  | inl y ↦ rw y (rw (pop-head next rest r e) (e, refl))
  | inr n ↦ rw n (refl, refl)
]

flush-Hands : (route : Router) (r : ScopeEpochRecorder) → Hands r (flush route r)
unfolding flush
flush-Hands route r = (sym (flush_pending_lem route r.pending).0, refl)

happen-IsValid : (h : Happening) (r : ScopeEpochRecorder) → IsValid r → IsValid (happen h r).0
unfolding happen
happen-IsValid (edge e) r v = step-IsValid e r v
happen-IsValid (flushing route) r v = unfold flush in record { held = v.held }
happen-IsValid (round route) r v =
    let same = (hand-Hands route r r.pending refl).1 in
    record { held = λ k ts e. v.held k ts (ap (lookup k) (sym same) ∙ e) }

module _ (k : RecorderKey) where
  -- The events under way, from those handed over to those queued, tell what is being watched.
  abbrev Tells : Bool → List PendingScopeEvent → ScopeEpochRecorder → Type 0
  Tells live handed r = alternates live (actions_of k (handed ++ r.pending)) ≡ some (is_active k r)

  hands-Tells :
      (live : Bool) (r : ScopeEpochRecorder) (done : ScopeEpochRecorder × List PendingScopeEvent)
      → Hands r done
      → Tells live [] r
      → Tells live done.1 done.0
  unfolding is_active
  hands-Tells live r done (queue, same) t =
      subst
        (λ (ps : List PendingScopeEvent).
          alternates live (actions_of k ps) ≡ some (is_active k done.0))
        queue (rw same t)

  happen-Tells :
      (h : Happening) (live : Bool) (r : ScopeEpochRecorder)
      → IsValid r
      → Fits h r
      → Tells live [] r
      → Tells live (happen h r).1 (happen h r).0
  unfolding happen
  happen-Tells (edge e) live r v room t = rw (step-appended e r v room) (
      rw (actions_of-append k r.pending (appended e r)) (
        alternates-append live (actions_of k r.pending) (actions_of k (appended e r)) t
        ∙ step-alternates k e r v))
  happen-Tells (flushing route) live r v room t =
      hands-Tells live r (flush route r) (flush-Hands route r) t
  happen-Tells (round route) live r v room t =
      hands-Tells live r (hand route r r.pending) (hand-Hands route r r.pending refl) t

  play-Tells :
      (hs : List Happening) (live : Bool) (r : ScopeEpochRecorder)
      → IsValid r
      → HasRoom hs r
      → Tells live [] r
      → Tells live (play hs r).1 (play hs r).0
  unfolding play
  play-Tells [] live r v room t = t
  play-Tells (h ∷ hs) live r v (fits, room) t =
      let (r', first) = happen h r in
      let (mid, before, after) =
        alternates-split live (actions_of k (happen h r).1) (actions_of k (happen h r).0.pending) (
          rw (← actions_of-append k (happen h r).1 (happen h r).0.pending)
            (happen-Tells h live r v fits t)) in
      let rest = play hs (happen h r).0 in
      rw (append_assoc (happen h r).1 rest.1 rest.0.pending) (
        rw (actions_of-append k (happen h r).1 (rest.1 ++ rest.0.pending)) (
          alternates-append live (actions_of k (happen h r).1)
            (actions_of k (rest.1 ++ rest.0.pending)) before
          ∙ play-Tells hs mid (happen h r).0 (happen-IsValid h r v) room after))

  -- From a valid recorder with an empty queue, edges come in for whatever scopes, and between them
  -- sinks take events off the queue, in whole flushes or single rounds, or refuse them. As long as no
  -- edge finds the queue full, the events of one scope that were handed over, followed by those still
  -- queued, alternate between `Started` and `Stopped`, in step with whether the scope is being watched,
  -- before and after.
  pub play-alternates :
      (hs : List Happening) (r : ScopeEpochRecorder)
      → IsValid r
      → r.pending ≡ []
      → HasRoom hs r
      → alternates (is_active k r) (actions_of k ((play hs r).1 ++ (play hs r).0.pending))
        ≡ some (is_active k (play hs r).0)
  play-alternates hs r v empty room =
      play-Tells hs (is_active k r) r v room (rw empty (unfold actions_of alternates in refl))
