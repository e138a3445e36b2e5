-- ===== src/Watch/ScopeRecorder/RoundTrip.antt =====
-- The read plane's coverage, computed from what the recorder wrote.
use kuberecord.Base.{
  ℕ, ◌≤◌, ◌≡◌, ◌++◌, Bool, true, false, some, List, [], ◌∷◌, arith, refl, ap, sym, ◌∙◌, ◌==◌,
  text_eq, if◌then◌else◌, All,
}
use mathlib.Core.List.{append-nil}
use kuberecord.Base.Text.{Text}
use kuberecord.Watch.ScopeRecorder.{
  ScopeEpochRecorder, ScopeAction, started, stopped, PendingScopeEvent, RecorderKey,
  recorder_key_eq,
}
use kuberecord.Watch.ScopeRecorder.Epochs.{is_active, IsValid, key_of, actions_of, alternates}
use kuberecord.Watch.ScopeRecorder.Traffic.{Happening, play, HasRoom, play-alternates}
use kuberecord.Query.Scope.{ScopeChange, scope_started, scope_stopped, starts, stops, pair_scope}
use kuberecord.Query.Scope.Pairing.{Ascending, covers, says, status, pair_scope-covers}

-- The action's spelling in a sink's scope log.
unfoldable pub action_text : ScopeAction → Text
action_text started = scope_started
action_text stopped = scope_stopped

-- A queued transition as the row that is read back.
abbrev pub row : PendingScopeEvent → ScopeChange
row p = record {
  api_group = p.event.scope.api_group;
  kind = p.event.scope.kind;
  namespace = p.event.scope.namespace;
  action = action_text p.event.action;
  rule_ref = p.event.rule_ref;
  ts = p.event.ts;
}

unfoldable pub rows_of : RecorderKey → List PendingScopeEvent → List ScopeChange
rows_of k [] = []
rows_of k (p ∷ ps) = let rest = rows_of k ps in if key_of p == k then row p ∷ rest else rest

abbrev pub Before : ℕ → List ScopeChange → Type 0
Before u ts = All (λ (s : ScopeChange). s.ts ≤ u) ts

says-started :
    (live : Bool) (p : PendingScopeEvent) → p.event.action ≡ started → says live (row p) ≡ true
unfolding says starts stops action_text
says-started live p h = ground (arith, h)

says-stopped :
    (live : Bool) (p : PendingScopeEvent) → p.event.action ≡ stopped → says live (row p) ≡ false
unfolding says starts stops action_text
says-stopped live p h = ground (arith, h)

status-append :
    (u : ℕ) (k : RecorderKey) (live next : Bool) (ps : List PendingScopeEvent)
    (ys : List ScopeChange)
    → Before u (rows_of k ps)
    → alternates live (actions_of k ps) ≡ some next
    → status u live (rows_of k ps ++ ys) ≡ status u next ys
unfolding rows_of actions_of alternates status
status-append u k live next [] ys b h = ground arith
status-append u k live next (p ∷ ps) ys b h = ground (
  arith,
  status-append u k live next ps ys,
  status-append u k true next ps ys,
  status-append u k false next ps ys,
  says-started live p,
  says-stopped live p,
)

-- The scope log and its reader agree, from a valid recorder with an empty queue in which the scope is
-- idle. As long as no edge finds the queue full, and once the queue is drained: if the rows handed over
-- for the scope come in ascending order of time up to an instant, then the intervals that the read
-- plane pairs from them cover that instant exactly if the scope is being watched after the edges.
pub coverage-is_active :
    (u : ℕ) (k : RecorderKey) (hs : List Happening) (r : ScopeEpochRecorder)
    → IsValid r
    → r.pending ≡ []
    → is_active k r ≡ false
    → HasRoom hs r
    → (play hs r).0.pending ≡ []
    → Ascending (rows_of k (play hs r).1)
    → Before u (rows_of k (play hs r).1)
    → covers u (pair_scope (rows_of k (play hs r).1)) ≡ is_active k (play hs r).0
coverage-is_active u k hs r v empty off room drained asc b =
    let handed = (play hs r).1 in
    let told : alternates false (actions_of k handed) ≡ some (is_active k (play hs r).0) =
      rw off at (rw (append-nil handed) at (rw drained at (play-alternates k hs r v empty room))) in
    pair_scope-covers u (rows_of k handed) asc
    ∙ ap (status u false) (sym (append-nil (rows_of k handed)))
    ∙ status-append u k false (is_active k (play hs r).0) handed [] b told
    ∙ (unfold status in refl)
