-- ===== src/Pipeline/Sweep/Recovery.antt =====
-- internal/pipeline/warm.go: closing out the incarnations that the sweep proved dead and could not
-- claim, once the history shows a successor. The source walks the pending targets in the order of a Go
-- map, here in the order of their arrival.
use kuberecord.Base.{
  ℕ, ◌+◌, Bool, true, false, Option, none, some, List, [], ◌∷◌, text_eq, ◌==◌, if◌then◌else◌,
  contains,
}
use kuberecord.Base.Map.{Map, lookup, insert}
use kuberecord.Base.Text.{Text}
use kuberecord.Pipeline.Process.{Pipeline, SinkState}
use kuberecord.Pipeline.Warm.{
  KnownState, ScopeRef, GcTarget, target_eq, Reincarnation, Identity, identity_eq, identity_of,
  Group, group_by_identity, split_incarnations, target_of, prior_of, Reading, ReaderFor, ready,
  no_state_reader, sink_not_live, reader_for,
}
use kuberecord.Pipeline.Sweep.{Closing, emit_close_outs}

-- The two maps of `indexIncarnations`.
pub record Index : Type 0 where
  pub by_target : Map GcTarget KnownState
  pub current : Map Identity Text

unfoldable pub index_rows : List KnownState → Map GcTarget KnownState → Map GcTarget KnownState
index_rows [] by_target = by_target
index_rows (state ∷ states) by_target = index_rows states (insert (target_of state) state by_target)

abbrev pub group_list : Group → List KnownState
group_list (first, rest) = first ∷ rest

unfoldable pub index_groups : Map Identity Group → Index → Index
index_groups [] index = index
index_groups ((id, group) ∷ groups) index =
    let newest = (split_incarnations group).0 in
    index_groups groups (record {
      by_target = index_rows (group_list group) index.by_target;
      current = insert (identity_of newest) newest.uid index.current;
    })

-- `indexIncarnations`
unfoldable pub index_incarnations : List KnownState → Index
index_incarnations states =
    index_groups (group_by_identity states) (record { by_target = []; current = [] })

abbrev pub or_no_uid : Option Text → Text
or_no_uid none = []
or_no_uid (some uid) = uid

-- `current[identity{…}] == target.uid`
unfoldable pub is_current_uid : Index → GcTarget → Bool
is_current_uid index target =
    or_no_uid (lookup (record { namespace = target.namespace; name = target.name }) index.current)
    == target.uid

-- What a round of the loop leaves pending, and what it finds.
pub record Evidence : Type 0 where
  pub pending : List GcTarget
  pub found : List Reincarnation

abbrev pub weigh : GcTarget → Bool → Option KnownState → Evidence → Evidence
weigh target waits none rest = rest
weigh target true (some row) rest = record rest { pending = target ∷ rest.pending }
weigh target false (some row) rest = record rest { found = prior_of row ∷ rest.found }

-- The loop over the pending targets.
unfoldable pub gather : Index → List GcTarget → Evidence
gather index [] = record { pending = []; found = [] }
gather index (target ∷ targets) =
    weigh target (is_current_uid index target) (lookup target index.by_target)
      (gather index targets)

-- What one attempt meets: the reader, and the attempts to close out.
pub record Recovering : Type 0 where
  pub reading : Reading (List KnownState)
  pub closings : List Closing

-- The later attempts, from the pending targets, the count and the state.
abbrev pub Attempts : Type 0
Attempts = List GcTarget → ℕ → SinkState → SinkState × ℕ

abbrev pub go_on : Attempts → List GcTarget → ℕ → SinkState × ℕ → SinkState × ℕ
go_on again [] recovered (s, closed) = (s, recovered + closed)
go_on again (target ∷ targets) recovered (s, closed) =
    again (target ∷ targets) (recovered + closed) s

abbrev pub recover_read :
    Attempts
    → Pipeline
    → ScopeRef
    → List Closing
    → List GcTarget
    → ℕ
    → Option (List KnownState)
    → SinkState
    → SinkState × ℕ
recover_read again p ref closings pending recovered none s = again pending recovered s
recover_read again p ref closings pending recovered (some states) s =
    let evidence = gather (index_incarnations states) pending in
    go_on again evidence.pending recovered (emit_close_outs p ref evidence.found closings s)

abbrev pub recover_attempt :
    Attempts
    → Pipeline
    → ScopeRef
    → Recovering
    → List GcTarget
    → ℕ
    → ReaderFor
    → SinkState
    → SinkState × ℕ
recover_attempt again p ref at pending recovered ready s =
    recover_read again p ref at.closings pending recovered at.reading.read s
recover_attempt again p ref at pending recovered no_state_reader s = (s, recovered)
recover_attempt again p ref at pending recovered sink_not_live s = again pending recovered s

unfoldable pub recover_attempts :
    Pipeline → ScopeRef → List Recovering → List GcTarget → ℕ → SinkState → SinkState × ℕ
recover_attempts p ref [] pending recovered s = (s, recovered)
recover_attempts p ref (at ∷ ats) pending recovered s =
    recover_attempt (recover_attempts p ref ats) p ref at pending recovered (reader_for at.reading)
      s

-- The set that the source makes of the refused targets.
unfoldable pub target_set : List GcTarget → List GcTarget
target_set [] = []
target_set (target ∷ targets) =
    let rest = target_set targets in if contains rest target then rest else target ∷ rest

-- `recoverRefusedReincarnations`
unfoldable pub recover_refused :
    Pipeline → ScopeRef → List GcTarget → List Recovering → SinkState → SinkState × ℕ
recover_refused p ref [] ats s = (s, 0)
recover_refused p ref (target ∷ targets) ats s =
    recover_attempts p ref ats (target_set (target ∷ targets)) 0 s
