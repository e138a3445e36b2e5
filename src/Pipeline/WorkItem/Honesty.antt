-- ===== src/Pipeline/WorkItem/Honesty.antt =====
-- Rows that say nothing of a deleted Event, through the close-outs and their retries.
use kuberecord.Base.{
  ◌≡◌, ◌≢◌, inl, inr, Bool, true, false, List, [], ◌∷◌, ◌++◌, arith, refl, text_eq, ◌==◌,
  if◌then◌else◌, All, Bool-cases,
}
use kuberecord.Base.Map.{lookup-insert, lookup-erase}
use kuberecord.Base.Text.{Text, codes}
use kuberecord.Pipeline.Identity.{Key, cache_key, ephemeral_kind}
use kuberecord.Pipeline.Process.{
  Writer, SinkState, Job, enqueue, enqueue_close_out, keep_close_out, or_keep, add_close_out,
  pending_for, take_all, retry_all, retry_pending_close_outs,
}
use kuberecord.Sink.Record.{SinkRecord}

-- The row does not say that an Event was deleted.
abbrev pub IsHonest : SinkRecord → Type 0
IsHonest row = ephemeral_kind row.api_group row.kind ≡ true → row.event_type ≢ codes "Deleted"

-- No row that was handed over, and none that waits for its retry, does.
pub record IsClean (s : SinkState) : Type 0 where
  pub written : All (λ (job : Job). IsHonest job.row) s.jobs
  pub waiting : (k : Text) → All IsHonest (pending_for k s)

All-snoc :
    {A : Type 0} (P : A → Type 0) (xs : List A) (x : A) → All P xs → P x → All P (xs ++ (x ∷ []))
All-snoc P [] x ps q = (q, tt)
All-snoc P (y ∷ ys) x ps q = (ps.0, All-snoc P ys x ps.1 q)

pub All-if :
    {A : Type 0} (P : A → Type 0) (b : Bool) (xs ys : List A)
    → All P xs
    → All P ys
    → All P (if b then xs else ys)
All-if P true xs ys px py = px
All-if P false xs ys px py = py

-- the logs decide
pub IsClean-of :
    (s s' : SinkState) → s'.jobs ≡ s.jobs → s'.close_outs ≡ s.close_outs → IsClean s → IsClean s'
unfolding pending_for
IsClean-of s s' e f c = record { written = rw e c.written; waiting = λ k. rw f (c.waiting k) }

pub enqueue-IsClean :
    (w : Writer) (job : Job) (s : SinkState)
    → IsHonest job.row
    → IsClean s
    → IsClean (enqueue w job s).0
unfolding enqueue pending_for
enqueue-IsClean w job s honest c = elim (Bool-cases (w.takes job.row)) [
  | inl y ↦ rw y (record { written = All-snoc _ s.jobs job c.written honest; waiting = c.waiting })
  | inr n ↦ rw n c
]

pending-add_close_out :
    (k j : Text) (row : SinkRecord) (s : SinkState)
    → pending_for j (add_close_out k row s)
      ≡ (if k == j then pending_for k s ++ (row ∷ []) else pending_for j s)
unfolding pending_for add_close_out
pending-add_close_out k j row s =
    ground (arith, lookup-insert k j (pending_for k s ++ (row ∷ [])) s.close_outs)

pub add_close_out-IsClean :
    (k : Text) (row : SinkRecord) (s : SinkState)
    → IsHonest row
    → IsClean s
    → IsClean (add_close_out k row s)
add_close_out-IsClean k row s honest c = record {
  written = unfold add_close_out in c.written;
  waiting = λ j. rw (pending-add_close_out k j row s) (
      All-if IsHonest (k == j) _ _ (All-snoc IsHonest (pending_for k s) row (c.waiting k) honest)
        (c.waiting j));
}

keep_close_out-IsClean :
    (key : Key) (row : SinkRecord) (s : SinkState)
    → IsHonest row
    → IsClean s
    → IsClean (keep_close_out key row s)
unfolding keep_close_out
keep_close_out-IsClean key row s honest c =
    IsClean-of (add_close_out (cache_key key) row s) _ refl refl
      (add_close_out-IsClean (cache_key key) row s honest c)

or_keep-IsClean :
    (key : Key) (row : SinkRecord) (r : SinkState × Bool)
    → IsHonest row
    → IsClean r.0
    → IsClean (or_keep key row r)
or_keep-IsClean key row (s, true) honest c = c
or_keep-IsClean key row (s, false) honest c = keep_close_out-IsClean key row s honest c

pub enqueue_close_out-IsClean :
    (w : Writer) (key : Key) (row : SinkRecord) (s : SinkState)
    → IsHonest row
    → IsClean s
    → IsClean (enqueue_close_out w key row s)
enqueue_close_out-IsClean w key row s honest c =
    unfold enqueue_close_out in or_keep-IsClean key row _ honest (enqueue-IsClean w _ s honest c)

retry_all-IsClean :
    (w : Writer) (key : Key) (rows : List SinkRecord) (s : SinkState)
    → All IsHonest rows
    → IsClean s
    → IsClean (retry_all w key rows s)
unfolding retry_all
retry_all-IsClean w key [] s h c = c
retry_all-IsClean w key (row ∷ rows) s h c =
    retry_all-IsClean w key rows (enqueue_close_out w key row s) h.1
      (enqueue_close_out-IsClean w key row s h.0 c)

pending-take_all :
    (k j : Text) (s : SinkState)
    → pending_for j (take_all k s) ≡ (if k == j then [] else pending_for j s)
unfolding pending_for take_all
pending-take_all k j s = ground (arith, lookup-erase k j s.close_outs)

pub retry_pending-IsClean :
    (w : Writer) (key : Key) (s : SinkState)
    → IsClean s
    → IsClean (retry_pending_close_outs w key s)
retry_pending-IsClean w key s c =
    unfold retry_pending_close_outs in
    retry_all-IsClean w key (pending_for (cache_key key) s) (take_all (cache_key key) s)
      (c.waiting (cache_key key))
      (record {
        written = unfold take_all in c.written;
        waiting = λ j.
            rw (pending-take_all (cache_key key) j s)
              (All-if IsHonest (cache_key key == j) _ _ tt (c.waiting j));
      })
