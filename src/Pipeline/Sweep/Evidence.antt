-- ===== src/Pipeline/Sweep/Evidence.antt =====
-- A sweep records the deaths that it has evidence for, and no others.
use kuberecord.Base.{
  ℕ, ◌≡◌, ◌≢◌, inl, inr, Bool, true, false, Option, none, some, List, [], ◌∷◌, ◌++◌, arith, refl,
  sym, ◌∙◌, text_eq, if◌then◌else◌, All, All-append, Bool-cases,
}
use mathlib.Core.List.{append-nil, append_assoc}
use kuberecord.Base.Json.{Fields}
use kuberecord.Base.Lists.{Elem}
use kuberecord.Base.Map.{lookup}
use kuberecord.Base.Text.{Text, codes}
use kuberecord.Pipeline.HashCache.{
  CacheEntry, Claim, reserve_delete, claim_entry, DeleteClaimOutcome, claimed, absent, in_flight,
  uid_mismatch,
}
use kuberecord.Pipeline.Identity.{Key, cache_key}
use kuberecord.Pipeline.Process.{
  Pipeline, Writer, Clock, SinkState, Job, Failure, deletion, enqueue, deleted_row, emit_claimed,
  or_unclaim, emit_delete, if_claimed, set_cache,
}
use kuberecord.Pipeline.WorkItem.{Lookup, failed, answer}
use kuberecord.Pipeline.Warm.{ScopeRef, ref_key, GcTarget}
use kuberecord.Pipeline.Sweep.{
  Sighting, GcResult, GcEnd, Rounds, shows, gc_claim, gc_found, gc_targets, no_result, gc_pass,
}

-- The lister, whose scope is watched, does not show the target's object under its UID.
abbrev pub Gone : Pipeline → (GcTarget → Sighting) → GcTarget → Type 0
Gone p sight target =
    (object : Option Fields) × ((sight target).found ≡ answer object true)
    × (shows p object target.uid ≡ false)

module _ (p : Pipeline) (w : Writer) (ref : ScopeRef) (sight : GcTarget → Sighting)
    (I : SinkState → Type 0) where
  -- `emitDelete` keeps the invariant at a target that is gone.
  abbrev pub Deletes : GcTarget → Type 0
  Deletes target =
      Gone p sight target
      → (s : SinkState) → I s
      → I
          (emit_delete p w (sight target).clock (ref_key ref target.namespace target.name)
            target.uid s).0

  gc_claim-keeps :
      (next : Rounds) (target : GcTarget) (object : Option Fields) (result : GcResult)
      (r : SinkState × DeleteClaimOutcome × Option Failure)
      → ((found : GcResult) (s : SinkState) → I s → I (next found s).0)
      → I r.0
      → I (gc_claim next target object result r).0
  gc_claim-keeps next target object result (s, claimed, some failure) n i = i
  gc_claim-keeps next target object result (s, absent, some failure) n i = i
  gc_claim-keeps next target object result (s, in_flight, some failure) n i = i
  gc_claim-keeps next target object result (s, uid_mismatch, some failure) n i = i
  gc_claim-keeps next target object result (s, claimed, none) n i = n _ s i
  gc_claim-keeps next target object result (s, absent, none) n i = n _ s i
  gc_claim-keeps next target object result (s, in_flight, none) n i = n _ s i
  gc_claim-keeps next target object result (s, uid_mismatch, none) n i = n _ s i

  gc_found-keeps :
      (next : Rounds) (target : GcTarget) (found : Lookup) (result : GcResult) (s : SinkState)
      → (sight target).found ≡ found
      → ((r : GcResult) (t : SinkState) → I t → I (next r t).0)
      → Deletes target
      → I s
      → I (gc_found next p w ref target (sight target).clock found result s).0
  gc_found-keeps next target failed result s e n d i = i
  gc_found-keeps next target (answer object false) result s e n d i = i
  gc_found-keeps next target (answer object true) result s e n d i =
      elim (Bool-cases (shows p object target.uid)) [
        | inl y ↦ rw y (n result s i)
        | inr gone ↦
            rw gone (gc_claim-keeps next target object result _ n (d (object, e, gone) s i))
      ]

  if_cancelled :
      (b : Bool) (r t : SinkState × GcResult × GcEnd) → I r.0 → I t.0 → I (if b then r else t).0
  if_cancelled true r t x y = x
  if_cancelled false r t x y = y

  pub gc_targets-keeps :
      (targets : List GcTarget) (result : GcResult) (s : SinkState)
      → ((target : GcTarget) → Elem target targets → Deletes target)
      → I s
      → I (gc_targets p w ref sight targets result s).0
  unfolding gc_targets
  gc_targets-keeps [] result s d i = i
  gc_targets-keeps (target ∷ targets) result s d i = if_cancelled (sight target).cancelled _ _ i (
      gc_found-keeps (gc_targets p w ref sight targets) target (sight target).found result s refl
        (λ r t j. gc_targets-keeps targets r t (λ other m. d other (inr m)) j) (d target (inl refl))
        i)

-- The second state has the rows of the first and then only rows of which P holds.
abbrev pub Adds : (Job → Type 0) → SinkState → SinkState → Type 0
Adds P s s' = (added : List Job) × (s'.jobs ≡ s.jobs ++ added) × All P added

pub Adds-none : (P : Job → Type 0) (s s' : SinkState) → s'.jobs ≡ s.jobs → Adds P s s'
Adds-none P s s' e = ([], e ∙ sym (append-nil s.jobs), tt)

pub Adds-trans : (P : Job → Type 0) (s t u : SinkState) → Adds P s t → Adds P t u → Adds P s u
Adds-trans P s t u (xs, e, ps) (ys, f, qs) =
    (xs ++ ys, f ∙ rw e (append_assoc s.jobs xs ys), All-append P xs ys ps qs)

pub enqueue-Adds :
    (P : Job → Type 0) (w : Writer) (job : Job) (s : SinkState)
    → P job
    → Adds P s (enqueue w job s).0
unfolding enqueue
enqueue-Adds P w job s h = elim (Bool-cases (w.takes job.row)) [
  | inl y ↦ rw y (job ∷ [], refl, (h, tt))
  | inr n ↦ rw n (Adds-none P s s refl)
]

claim_entry-uid :
    (k uid : Text) (s : SinkState) (o : Option CacheEntry)
    → (claim_entry k uid s.cache o).outcome ≡ claimed
    → uid ≢ []
    → (claim_entry k uid s.cache o).entry.uid ≡ uid
unfolding claim_entry
claim_entry-uid k uid s none h other = cc
claim_entry-uid k uid s (some e) h other = ground arith

-- The row of a deletion that was claimed.
abbrev pub Deleted : Text → Key → Job → Type 0
Deleted uid key job =
    (job.row.event_type ≡ codes "Deleted")
    × (job.row.api_group ≡ key.group)
    × (job.row.kind ≡ key.kind)
    × (job.row.namespace ≡ key.namespace)
    × (job.row.name ≡ key.name)
    × (uid ≢ [] → job.row.uid ≡ uid)

module _ (p : Pipeline) (w : Writer) (clock : Clock) (key : Key) (uid : Text) (P : Job → Type 0)
    (holds : (job : Job) → Deleted uid key job → P job) where
  or_unclaim-Adds :
      (v : ℕ) (s : SinkState) (r : SinkState × Bool)
      → Adds P s r.0
      → Adds P s (or_unclaim key v r).0
  or_unclaim-Adds v s (t, true) a = a
  or_unclaim-Adds v s (t, false) a = a

  if_claimed-Adds :
      (o : DeleteClaimOutcome) (s : SinkState) (r : SinkState × DeleteClaimOutcome × Option Failure)
      → (o ≡ claimed → Adds P s r.0)
      → Adds P s (if_claimed o r (s, o, none)).0
  if_claimed-Adds claimed s r a = a refl
  if_claimed-Adds absent s r a = Adds-none P s s refl
  if_claimed-Adds in_flight s r a = Adds-none P s s refl
  if_claimed-Adds uid_mismatch s r a = Adds-none P s s refl

  emit_claimed-Adds :
      (claim : Claim) (s : SinkState)
      → (uid ≢ [] → claim.entry.uid ≡ uid)
      → Adds P s (emit_claimed p w clock key claim s).0
  unfolding emit_claimed
  emit_claimed-Adds claim s same =
      let job : Job = record {
        row = deleted_row p clock key claim.entry;
        commit = deletion key claim.version;
      } in
      or_unclaim-Adds claim.version s (enqueue w job (set_cache claim.cache s)) (
        enqueue-Adds P w job (set_cache claim.cache s)
          (unfold deleted_row in holds job (refl, refl, refl, refl, refl, same)))

  pub emit_delete-Adds : (s : SinkState) → Adds P s (emit_delete p w clock key uid s).0
  unfolding emit_delete reserve_delete
  emit_delete-Adds s =
      let claim : Claim = reserve_delete (cache_key key) uid s.cache in
      let emitted : SinkState × Option Failure = emit_claimed p w clock key claim s in
      if_claimed-Adds claim.outcome s (emitted.0, claimed, emitted.1)
        (λ granted. emit_claimed-Adds claim s (λ other.
          claim_entry-uid (cache_key key) uid s (lookup (cache_key key) s.cache) granted other))

-- Whatever the lister and the writer answer, each row that one attempt of the sweep hands over is the
-- Deleted row of a seeded target that a watched lister does not show under its UID, and it carries that
-- UID where there is one.
pub gc_pass-Gone :
    (p : Pipeline) (ref : ScopeRef) (seeded : List GcTarget) (sight : GcTarget → Sighting)
    (o : Option Writer) (s : SinkState)
    → Adds
        (λ job.
          (target : GcTarget) × Elem target seeded
          × Gone p sight target
          × Deleted target.uid (ref_key ref target.namespace target.name) job)
        s
        (gc_pass p ref seeded sight o s).0
gc_pass-Gone p ref seeded sight none s = Adds-none _ s s refl
gc_pass-Gone p ref seeded sight (some w) s =
    gc_targets-keeps p w ref sight (Adds _ s) seeded no_result s
      (λ target m gone t a.
        let key = ref_key ref target.namespace target.name in
        Adds-trans _ s t (emit_delete p w (sight target).clock key target.uid t).0 a (
          emit_delete-Adds p w (sight target).clock key target.uid _
            (λ job deleted. (target, m, gone, deleted)) t))
      (Adds-none _ s s refl)
