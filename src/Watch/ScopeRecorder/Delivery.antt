-- ===== src/Watch/ScopeRecorder/Delivery.antt =====
-- The queue of transitions: bounded, in order, and handed over without loss.
use kuberecord.Base.{
  ◌+◌, ◌-◌, ◌<◌, ◌≤◌, ◌≡◌, ◌++◌, true, false, List, [], ◌∷◌, arith, refl, All, length,
  length-append,
}
use kuberecord.Base.Lists.{drop-append, drop, take, take-append-drop, length-take, length-drop}
use kuberecord.Sink.Identity.{SinkId}
use kuberecord.Watch.ScopeRecorder.{
  ScopeEpochRecorder, ScopeEvent, PendingScopeEvent, Router, enqueue_locked, accepts, flush_pending,
  pop_handed,
}

-- Queueing a transition keeps the queue within its limit. What does not fit is taken from the
-- oldest end, is counted as dropped, and is never the transition itself.
pub enqueue_locked_bounded :
    (id : SinkId) (e : ScopeEvent) (r : ScopeEpochRecorder)
    → 0 < r.queue_limit
    → length r.pending ≤ r.queue_limit
    → (length (enqueue_locked id e r).pending ≤ r.queue_limit)
      × ((lost : List PendingScopeEvent) × (kept : List PendingScopeEvent) × (lost
              ++ (enqueue_locked id e r).pending
            ≡ r.pending ++ (record { sink = id; event = e } ∷ []))
          × ((enqueue_locked id e r).pending ≡ kept ++ (record { sink = id; event = e } ∷ []))
          × ((enqueue_locked id e r).dropped ≡ r.dropped + length lost))
unfolding enqueue_locked
enqueue_locked_bounded id e r p fits =
    let new : List PendingScopeEvent = record { sink = id; event = e } ∷ [] in
    let queued = r.pending ++ new in
    let over = length queued - r.queue_limit in
    let grown = length-append r.pending new in
    (
      omega (arith, grown, length-drop over queued),
      (
        take over queued,
        drop over r.pending,
        take-append-drop over queued,
        drop-append over r.pending new (omega (arith, grown)),
        omega (arith, grown, length-take over queued),
      ),
    )

-- A flush hands transitions over in order from the head, loses and repeats none, and stops only at
-- one that its sink does not take; so one transition is never overtaken by a later one.
pub flush_pending_lem :
    (route : Router) (ps : List PendingScopeEvent)
    → ((flush_pending route ps).0 ++ (flush_pending route ps).1 ≡ ps)
      × All (λ p. accepts route p ≡ true) (flush_pending route ps).0
      × ((next : PendingScopeEvent) (rest : List PendingScopeEvent)
          → (flush_pending route ps).1 ≡ next ∷ rest
          → accepts route next ≡ false)
unfolding flush_pending
flush_pending_lem route [] = (refl, tt, λ next rest h. cc)
flush_pending_lem route (p ∷ ps) =
    let (same, taken, stuck) = flush_pending_lem route ps in
    (ground (arith, same), ground (arith, taken), λ next rest h. ground (arith, stuck next rest))

-- The queue that `flush` leaves, with its drops reported, is what was not handed over; popping what
-- was handed over, round by round, leaves the same queue.
pub pop_handed-flush :
    (next : PendingScopeEvent) (r : ScopeEpochRecorder) (rest : List PendingScopeEvent)
    → r.pending ≡ next ∷ rest
    → (pop_handed next r).pending ≡ rest
unfolding pop_handed
pop_handed-flush next r rest h = ground arith
