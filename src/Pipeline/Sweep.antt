-- ===== src/Pipeline/Sweep.antt =====
-- internal/pipeline/warm.go: the run of a warm-up, from the seeding to the sweep for zombies and the
-- close-outs of incarnations that nobody recorded as dead. An attempt is what the interfaces answer to
-- it; a list of attempts that ends is a context that is done, or a timeout. The run is taken as one step
-- on the state of its sink: what runs meanwhile on a key is before or after the step that it takes.
pub mod Recovery
pub mod Run
pub mod Keeping
pub mod Safety
pub mod Honesty
pub mod Evidence
use kuberecord.Base.{
  ℕ, ◌+◌, Bool, true, false, not, ◌&&◌, Option, none, some, List, [], ◌∷◌, ◌++◌, text_eq, ◌==◌,
  if◌then◌else◌, length,
}
use kuberecord.Base.Json.{Fields}
use kuberecord.Base.Text.{Text}
use kuberecord.Pipeline.HashCache.{DeleteClaimOutcome, claimed, uid_mismatch}
use kuberecord.Pipeline.Process.{
  Pipeline, Writer, Clock, SinkState, Failure, enqueue_close_out, emit_delete,
}
use kuberecord.Pipeline.WorkItem.{Lookup, failed, answer}
use kuberecord.Pipeline.Warm.{ScopeRef, ref_key, GcTarget, Reincarnation, close_out_record}

-- What one attempt to close out meets: the writer, and the priors at which the context is done.
pub record Closing : Type 0 where
  pub writer : Option Writer
  pub cancelled : Reincarnation → Bool

-- The loop of `emitCloseOuts`; `false` is the context's error.
unfoldable pub close_each :
    Pipeline
    → ScopeRef
    → Writer
    → (Reincarnation → Bool)
    → List Reincarnation
    → SinkState
    → SinkState × Bool
close_each p ref w cancelled [] s = (s, true)
close_each p ref w cancelled (prior ∷ priors) s =
    let key = ref_key ref prior.namespace prior.name in
    let rest =
      close_each p ref w cancelled priors
        (enqueue_close_out w key (close_out_record p.cluster_id key prior) s) in
    if cancelled prior then (s, false) else rest

abbrev pub counted : List Reincarnation → SinkState × Bool → SinkState × ℕ
counted priors (s, true) = (s, length priors)
counted priors (s, false) = (s, 0)

abbrev pub close_with :
    Pipeline
    → ScopeRef
    → List Reincarnation
    → (Reincarnation → Bool)
    → SinkState × ℕ
    → Option Writer
    → SinkState
    → SinkState × ℕ
close_with p ref priors cancelled again none s = again
close_with p ref priors cancelled again (some w) s =
    counted priors (close_each p ref w cancelled priors s)

-- The retries of `emitCloseOuts`.
unfoldable pub close_attempts :
    Pipeline → ScopeRef → List Reincarnation → List Closing → SinkState → SinkState × ℕ
close_attempts p ref priors [] s = (s, 0)
close_attempts p ref priors (closing ∷ closings) s =
    close_with p ref priors closing.cancelled (close_attempts p ref priors closings s)
      closing.writer s

-- `emitCloseOuts`
unfoldable pub emit_close_outs :
    Pipeline → ScopeRef → List Reincarnation → List Closing → SinkState → SinkState × ℕ
emit_close_outs p ref [] closings s = (s, 0)
emit_close_outs p ref (prior ∷ priors) closings s = close_attempts p ref (prior ∷ priors) closings s

-- What the sweep meets at a target.
pub record Sighting : Type 0 where
  pub cancelled : Bool
  pub found : Lookup
  pub clock : Clock

-- What one attempt of the sweep meets.
pub record Sweeping : Type 0 where
  pub writer : Option Writer
  pub sight : GcTarget → Sighting

-- `gcResult`
pub record GcResult : Type 0 where
  pub zombies : ℕ
  pub reincarnated : List GcTarget

-- The error of `gcPass`: none, one that is retried, or one that ends the sweep.
pub data GcEnd : Type 0 where
  complete retried abandoned : GcEnd

-- Whether the lister shows the object under the UID.
abbrev pub shows : Pipeline → Option Fields → Text → Bool
shows p none uid = false
shows p (some object) uid = p.encoding.get_uid object == uid

abbrev pub is_found : Option Fields → Bool
is_found none = false
is_found (some _) = true

abbrev pub is_mismatch : DeleteClaimOutcome → Bool
is_mismatch uid_mismatch = true
is_mismatch _ = false

-- The rounds of `gcPass` that follow, from the result and the state.
abbrev pub Rounds : Type 0
Rounds = GcResult → SinkState → SinkState × GcResult × GcEnd

-- A target's round once `emitDelete` has answered.
abbrev pub gc_claim :
    Rounds
    → GcTarget
    → Option Fields
    → GcResult
    → SinkState × DeleteClaimOutcome × Option Failure
    → SinkState × GcResult × GcEnd
gc_claim next target object result (s, outcome, some failure) = (s, result, retried)
gc_claim next target object result (s, claimed, none) =
    next (record result { zombies = result.zombies + 1 }) s
gc_claim next target object result (s, outcome, none) =
    next
      (if is_mismatch outcome && is_found object
        then record result { reincarnated = result.reincarnated ++ (target ∷ []) }
        else result)
      s

abbrev pub gc_found :
    Rounds
    → Pipeline
    → Writer
    → ScopeRef
    → GcTarget
    → Clock
    → Lookup
    → GcResult
    → SinkState
    → SinkState × GcResult × GcEnd
gc_found next p w ref target clock failed result s = (s, result, retried)
gc_found next p w ref target clock (answer object scope_active) result s =
    if not scope_active
    then (s, result, abandoned)
    else if shows p object target.uid
    then next result s
    else gc_claim next target object result
        (emit_delete p w clock (ref_key ref target.namespace target.name) target.uid s)

-- The loop of `gcPass`.
unfoldable pub gc_targets :
    Pipeline
    → Writer
    → ScopeRef
    → (GcTarget → Sighting)
    → List GcTarget
    → GcResult
    → SinkState
    → SinkState × GcResult × GcEnd
gc_targets p w ref sight [] result s = (s, result, complete)
gc_targets p w ref sight (target ∷ targets) result s =
    if (sight target).cancelled
    then (s, result, abandoned)
    else gc_found (gc_targets p w ref sight targets) p w ref target (sight target).clock
        (sight target).found result s

abbrev pub no_result : GcResult
no_result = record { zombies = 0; reincarnated = [] }

-- `gcPass`
abbrev pub gc_pass :
    Pipeline
    → ScopeRef
    → List GcTarget
    → (GcTarget → Sighting)
    → Option Writer
    → SinkState
    → SinkState × GcResult × GcEnd
gc_pass p ref seeded sight none s = (s, no_result, retried)
gc_pass p ref seeded sight (some w) s = gc_targets p w ref sight seeded no_result s

abbrev pub or_retry :
    (GcResult → SinkState → SinkState × GcResult)
    → SinkState × GcResult × GcEnd
    → SinkState × GcResult
or_retry again (s, result, retried) = again result s
or_retry again (s, result, _) = (s, result)

-- `collectZombies`, with the result of the last attempt
unfoldable pub collect_zombies :
    Pipeline
    → ScopeRef
    → List GcTarget
    → List Sweeping
    → GcResult
    → SinkState
    → SinkState × GcResult
collect_zombies p ref seeded [] result s = (s, result)
collect_zombies p ref seeded (sweeping ∷ sweepings) result s =
    or_retry (collect_zombies p ref seeded sweepings)
      (gc_pass p ref seeded sweeping.sight sweeping.writer s)
