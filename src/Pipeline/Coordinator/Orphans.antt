-- ===== src/Pipeline/Coordinator/Orphans.antt =====
-- A scope that an earlier process left open is closed if nothing wants it, and that once.
use kuberecord.Base.{
  ◌≡◌, Bool, true, false, some, List, [], ◌∷◌, map, arith, refl, ap, ◌∙◌, if◌then◌else◌, contains,
  Bool-cases, inl, inr, All,
}
use kuberecord.Base.Tests.{==_self}
use kuberecord.Pipeline.Identity.{ScopeKey}
use kuberecord.Pipeline.Warm.{ReaderFor, ready, no_state_reader, sink_not_live, reader_for}
use kuberecord.Pipeline.Coordinator.{WarmCoordinator, boot_reconciled, mark_boot_reconciled}
use kuberecord.Sink.Identity.{SinkId, id_eq}
use kuberecord.Watch.ScopeRecorder.{ScopeFilter, ScopeEvent}
use kuberecord.Pipeline.Coordinator.Boot.{
  BootMeeting, scope_of, stopped_event, close_orphans, close_open, close_through, close_for,
  close_orphaned_scopes, PassOn, settle_pass, reconcile_scope_epochs,
}

-- The open scopes that nothing wants.
unfoldable pub orphans : (ScopeKey → Bool) → List ScopeFilter → List ScopeFilter
orphans desired [] = []
orphans desired (filter ∷ filters) =
    let rest = orphans desired filters in if desired (scope_of filter) then rest else filter ∷ rest

-- as many as the writer takes, up to its first refusal
unfoldable pub accepted : (ScopeEvent → Bool) → List ScopeEvent → List ScopeEvent × Bool
accepted takes [] = ([], true)
accepted takes (event ∷ events) =
    let rest = accepted takes events in
    if takes event then (event ∷ rest.0, rest.1) else ([], false)

close_orphans-accepted :
    (m : BootMeeting) (takes : ScopeEvent → Bool) (filters : List ScopeFilter)
    → close_orphans m takes filters
      ≡ accepted takes (map (stopped_event m.now) (orphans m.desired filters))
unfolding close_orphans accepted orphans
close_orphans-accepted m takes [] = refl
close_orphans-accepted m takes (filter ∷ filters) =
    elim (Bool-cases (m.desired (scope_of filter))) [
      | inl y ↦ rw y (close_orphans-accepted m takes filters)
      | inr n ↦ rw n (rw (close_orphans-accepted m takes filters) refl)
    ]

-- A sink whose scope log can be read and written gets one Stopped row for each scope that the log shows
-- as open and nothing wants, in the log's order, up to the first that the writer does not take; the pass
-- fails exactly if there is one; and no row for a scope that is wanted.
pub close_orphaned_scopes_lem :
    (id : SinkId) (m : BootMeeting) (c : WarmCoordinator) (filters : List ScopeFilter)
    (takes : ScopeEvent → Bool)
    → m.reading.has_reader ≡ true
    → m.reading.read ≡ some filters
    → m.writer ≡ some takes
    → close_orphaned_scopes id m c ≡ (
        let closed = accepted takes (map (stopped_event m.now) (orphans m.desired filters)) in
        (c, closed.0, closed.1))
unfolding close_orphaned_scopes reader_for
close_orphaned_scopes_lem id m c filters takes has read writes =
    let found : reader_for m.reading ≡ ready = ground (arith, has) in
    let closed : close_through m m.writer
        ≡ accepted takes (map (stopped_event m.now) (orphans m.desired filters)) =
      ap (close_through m) writes
      ∙ ap (close_open m takes) read
      ∙ close_orphans-accepted m takes filters in
    ap (λ r. close_for id m r c) found ∙ ap (λ (r : List ScopeEvent × Bool). (c, r.0, r.1)) closed

-- Sinks that are all done are not asked again.
all_done :
    (meet : SinkId → BootMeeting) (ids : List SinkId) (c : WarmCoordinator)
    → All (λ id. boot_reconciled id c ≡ true) ids
    → reconcile_scope_epochs meet ids c ≡ (c, [])
unfolding reconcile_scope_epochs
all_done meet [] c d = refl
all_done meet (id ∷ ids) c d = rw d.0 (all_done meet ids c d.1)

-- a sink that is done stays done
abbrev Done : SinkId → WarmCoordinator → Type 0
Done id c = boot_reconciled id c ≡ true

mark-Done :
    (id other : SinkId) (c : WarmCoordinator) → Done id c → Done id (mark_boot_reconciled other c)
unfolding boot_reconciled mark_boot_reconciled contains
mark-Done id other c d = ground (arith, d)

marked-Done : (id : SinkId) (c : WarmCoordinator) → Done id (mark_boot_reconciled id c)
unfolding boot_reconciled mark_boot_reconciled contains
marked-Done id c = ground (arith, ==_self id)

close_for-Done :
    (id other : SinkId) (m : BootMeeting) (r : ReaderFor) (c : WarmCoordinator)
    → Done id c
    → Done id (close_for other m r c).0
unfolding boot_reconciled
close_for-Done id other m ready c d = d
close_for-Done id other m no_state_reader c d = d
close_for-Done id other m sink_not_live c d = d

settle_pass-Done :
    (next : PassOn) (id other : SinkId) (cancelled : Bool)
    (r : WarmCoordinator × List ScopeEvent × Bool)
    → ((c : WarmCoordinator) → Done id c → Done id (next c).0)
    → Done id r.0
    → Done id (settle_pass next other cancelled r).0
settle_pass-Done next id other cancelled (c, events, true) n d = n _ (mark-Done id other c d)
settle_pass-Done next id other true (c, events, false) n d = d
settle_pass-Done next id other false (c, events, false) n d = n c d

module _ (meet : SinkId → BootMeeting) where
  reconcile-Done :
      (id : SinkId) (ids : List SinkId) (c : WarmCoordinator)
      → Done id c
      → Done id (reconcile_scope_epochs meet ids c).0
  unfolding reconcile_scope_epochs close_orphaned_scopes
  reconcile-Done id [] c d = d
  reconcile-Done id (other ∷ ids) c d = elim (Bool-cases (boot_reconciled other c)) [
    | inl y ↦ rw y (reconcile-Done id ids c d)
    | inr n ↦ rw n (
        settle_pass-Done (reconcile_scope_epochs meet ids) id other (meet other).cancelled _
          (λ c' d'. reconcile-Done id ids c' d')
          (close_for-Done id other (meet other) (reader_for (meet other).reading) c d))
  ]

  -- The sink's pass succeeds, whatever the coordinator holds.
  abbrev pub Succeeds : SinkId → Type 0
  Succeeds id = (c : WarmCoordinator) → (close_orphaned_scopes id (meet id) c).2 ≡ true

  settled-Done :
      (id : SinkId) (ids : List SinkId) (r : WarmCoordinator × List ScopeEvent × Bool)
      → r.2 ≡ true
      → Done id (settle_pass (reconcile_scope_epochs meet ids) id (meet id).cancelled r).0
        × ((P : WarmCoordinator → Type 0)
            → ((c : WarmCoordinator) → P (reconcile_scope_epochs meet ids c).0)
            → P (settle_pass (reconcile_scope_epochs meet ids) id (meet id).cancelled r).0)
  settled-Done id ids (c, events, true) ok =
      (reconcile-Done id ids _ (marked-Done id c), λ P all. all _)
  settled-Done id ids (c, events, false) ok = absurd (cc)

  if-Done :
      (b : Bool) (ids : List SinkId) (x y : WarmCoordinator × List (SinkId × ScopeEvent))
      → (b ≡ true → All (λ id. Done id x.0) ids)
      → (b ≡ false → All (λ id. Done id y.0) ids)
      → All (λ id. Done id (if b then x else y).0) ids
  if-Done true ids x y p q = p refl
  if-Done false ids x y p q = q refl

  all-Done :
      (ids : List SinkId) (c : WarmCoordinator)
      → All Succeeds ids
      → All (λ id. Done id (reconcile_scope_epochs meet ids c).0) ids
  unfolding reconcile_scope_epochs
  all-Done [] c ok = tt
  all-Done (id ∷ ids) c ok =
      if-Done (boot_reconciled id c) (id ∷ ids) (reconcile_scope_epochs meet ids c) _
        (λ y. (reconcile-Done id ids c y, all-Done ids c ok.1))
        (λ _.
          let (marked, others) =
            settled-Done id ids (close_orphaned_scopes id (meet id) c) (ok.0 c) in
          (marked, others (λ d. All (λ id. Done id d) ids) (λ d. all-Done ids d ok.1)))

-- Where the pass over every sink succeeds, the first one marks every sink; and a later one, whatever it
-- meets by then, writes nothing and changes nothing.
pub reconcile_scope_epochs-once :
    (meet later : SinkId → BootMeeting) (ids : List SinkId) (c : WarmCoordinator)
    → All (Succeeds meet) ids
    → All (λ id. boot_reconciled id (reconcile_scope_epochs meet ids c).0 ≡ true) ids
      × (reconcile_scope_epochs later ids (reconcile_scope_epochs meet ids c).0
          ≡ ((reconcile_scope_epochs meet ids c).0, []))
reconcile_scope_epochs-once meet later ids c ok =
    let marked = all-Done meet ids c ok in (marked, all_done later ids _ marked)
