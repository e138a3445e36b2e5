-- ===== src/Pipeline/Process/CloseOuts.antt =====
-- The close-outs that wait for their retry: none is lost and none is sent twice.
use mathlib.Core.List.{append-nil, append_assoc}
use mathlib.Core.Path.{subst}
use kuberecord.Base.{
  ◌≡◌, Bool, true, false, List, [], ◌∷◌, ◌++◌, arith, refl, sym, ap, ◌∙◌, text_eq, ◌==◌, inl, inr,
  if◌then◌else◌, Bool-cases, not,
}
use kuberecord.Base.Map.{lookup-insert, lookup-erase}
use kuberecord.Base.Text.{Text}
use kuberecord.Pipeline.Identity.{Key, cache_key}
use kuberecord.Pipeline.Process.{
  Writer, SinkState, Job, close_out, enqueue, enqueue_close_out, keep_close_out, add_close_out,
  pending_for, take_all, retry_all, retry_pending_close_outs,
}
use kuberecord.Sink.Record.{SinkRecord}

-- the rows that are taken, or refused
unfoldable pub which : (SinkRecord → Bool) → List SinkRecord → List SinkRecord
which test [] = []
which test (row ∷ rows) = let rest = which test rows in if test row then row ∷ rest else rest

-- the jobs of close-outs
unfoldable pub close_outs_of : Key → List SinkRecord → List Job
close_outs_of key [] = []
close_outs_of key (row ∷ rows) =
    record { row = row; commit = close_out key } ∷ close_outs_of key rows

module _ (w : Writer) (key : Key) where
  abbrev pub refuses : SinkRecord → Bool
  refuses row = not (w.takes row)

  -- What the rows leave: jobs for the ones taken, and the others waiting after those that waited.
  abbrev Splits : List SinkRecord → SinkState → SinkState → Type 0
  Splits rows s s' =
      (s'.jobs ≡ s.jobs ++ close_outs_of key (which w.takes rows))
      × ((k : Text)
          → pending_for k s' ≡ (
              if cache_key key == k
              then pending_for k s ++ which refuses rows
              else pending_for k s))

  enqueue_taken :
      (row : SinkRecord) (s : SinkState)
      → w.takes row ≡ true
      → enqueue_close_out w key row s
        ≡ record s { jobs = s.jobs ++ (record { row = row; commit = close_out key } ∷ []) }
  unfolding enqueue_close_out enqueue
  enqueue_taken row s h = rw h refl

  enqueue_refused :
      (row : SinkRecord) (s : SinkState)
      → w.takes row ≡ false
      → enqueue_close_out w key row s ≡ keep_close_out key row s
  unfolding enqueue_close_out enqueue
  enqueue_refused row s h = rw h refl

  pending-keep :
      (k : Text) (row : SinkRecord) (s : SinkState)
      → pending_for k (keep_close_out key row s)
        ≡ (if cache_key key == k then pending_for k s ++ (row ∷ []) else pending_for k s)
  unfolding pending_for add_close_out keep_close_out
  pending-keep k row s = grind (arith, lookup-insert)

  kept_then :
      (k : Text) (row : SinkRecord) (rest : List SinkRecord) (s : SinkState)
      → (if cache_key key == k
          then pending_for k (keep_close_out key row s) ++ rest
          else pending_for k (keep_close_out key row s))
        ≡ (if cache_key key == k then pending_for k s ++ (row ∷ rest) else pending_for k s)
  kept_then k row rest s = elim (Bool-cases (cache_key key == k)) [
    | inl y ↦ rw (pending-keep k row s) (rw y (append_assoc (pending_for k s) (row ∷ []) rest))
    | inr n ↦ rw (pending-keep k row s) (rw n refl)
  ]

  keep-jobs : (row : SinkRecord) (s : SinkState) → (keep_close_out key row s).jobs ≡ s.jobs
  unfolding keep_close_out add_close_out
  keep-jobs row s = refl

  pending-jobs :
      (k : Text) (jobs : List Job) (s : SinkState)
      → pending_for k (record s { jobs = jobs }) ≡ pending_for k s
  unfolding pending_for
  pending-jobs k jobs s = refl

  if-nil : (b : Bool) (rows : List SinkRecord) → rows ≡ (if b then rows ++ [] else rows)
  if-nil true rows = sym (append-nil rows)
  if-nil false rows = refl

  taken_first :
      (row : SinkRecord) (rows : List SinkRecord) (s s' : SinkState)
      → w.takes row ≡ true
      → Splits rows
          (record s { jobs = s.jobs ++ (record { row = row; commit = close_out key } ∷ []) })
          s'
      → Splits (row ∷ rows) s s'
  unfolding which close_outs_of
  taken_first row rows s s' y (jobs, pending) =
      rw y (jobs ∙ append_assoc s.jobs _ _, λ k. pending k ∙ rw (pending-jobs k _ s) refl)

  refused_first :
      (row : SinkRecord) (rows : List SinkRecord) (s s' : SinkState)
      → w.takes row ≡ false
      → Splits rows (keep_close_out key row s) s'
      → Splits (row ∷ rows) s s'
  unfolding which close_outs_of
  refused_first row rows s s' n (jobs, pending) =
      rw n
        (jobs ∙ rw (keep-jobs row s) refl, λ k. pending k ∙ kept_then k row (which refuses rows) s)

  retry_all-taken :
      (row : SinkRecord) (rows : List SinkRecord) (s : SinkState)
      → w.takes row ≡ true
      → retry_all w key (row ∷ rows) s
        ≡ retry_all w key rows
            (record s { jobs = s.jobs ++ (record { row = row; commit = close_out key } ∷ []) })
  unfolding retry_all
  retry_all-taken row rows s y =
      ap (λ (t : SinkState). retry_all w key rows t) (enqueue_taken row s y)

  retry_all-refused :
      (row : SinkRecord) (rows : List SinkRecord) (s : SinkState)
      → w.takes row ≡ false
      → retry_all w key (row ∷ rows) s ≡ retry_all w key rows (keep_close_out key row s)
  unfolding retry_all
  retry_all-refused row rows s n =
      ap (λ (t : SinkState). retry_all w key rows t) (enqueue_refused row s n)

  retry_all-Splits :
      (rows : List SinkRecord) (s : SinkState) → Splits rows s (retry_all w key rows s)
  retry_all-Splits [] s =
      unfold retry_all which close_outs_of in (sym (append-nil s.jobs), λ k. if-nil _ _)
  retry_all-Splits (row ∷ rows) s = elim (Bool-cases (w.takes row)) [
    | inl y ↦
        subst (λ (t : SinkState). Splits (row ∷ rows) s t) (sym (retry_all-taken row rows s y))
          (taken_first row rows s _ y (retry_all-Splits rows _))
    | inr n ↦
        subst (λ (t : SinkState). Splits (row ∷ rows) s t) (sym (retry_all-refused row rows s n))
          (refused_first row rows s _ n (retry_all-Splits rows _))
  ]

  pending-take_all :
      (k : Text) (s : SinkState)
      → pending_for k (take_all (cache_key key) s)
        ≡ (if cache_key key == k then [] else pending_for k s)
  unfolding pending_for take_all
  pending-take_all k s = grind (arith, lookup-erase)

  taken-jobs : (s : SinkState) → (take_all (cache_key key) s).jobs ≡ s.jobs
  unfolding take_all
  taken-jobs s = refl

  emptied_then :
      (k : Text) (s : SinkState)
      → (if cache_key key == k
          then pending_for k (take_all (cache_key key) s)
            ++ which refuses (pending_for (cache_key key) s)
          else pending_for k (take_all (cache_key key) s))
        ≡ (if cache_key key == k
            then which refuses (pending_for (cache_key key) s)
            else pending_for k s)
  emptied_then k s =
      rw (pending-take_all k s)
        (elim (Bool-cases (cache_key key == k)) [ inl y ↦ rw y refl | inr n ↦ rw n refl ])

  -- A retry hands over the waiting close-outs of the key that the sink takes, in order and once each,
  -- and keeps exactly the ones that it does not take waiting, in order; those of other keys stay.
  pub retry_pending_close_outs-splits :
      (s : SinkState)
      → ((retry_pending_close_outs w key s).jobs
          ≡ s.jobs ++ close_outs_of key (which w.takes (pending_for (cache_key key) s)))
        × ((k : Text)
            → pending_for k (retry_pending_close_outs w key s) ≡ (
                if cache_key key == k
                then which refuses (pending_for (cache_key key) s)
                else pending_for k s))
  unfolding retry_pending_close_outs
  retry_pending_close_outs-splits s =
      let (jobs, pending) =
        retry_all-Splits (pending_for (cache_key key) s) (take_all (cache_key key) s) in
      (jobs ∙ rw (taken-jobs s) refl, λ k. pending k ∙ emptied_then k s)
