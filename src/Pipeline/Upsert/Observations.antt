-- ===== src/Pipeline/Upsert/Observations.antt =====
-- A life of an object, observed again and again, and its reconstruction by the read plane.
use kuberecord.Base.{
  ℕ, ◌≡◌, ◌≢◌, true, false, Option, none, some, List, [], ◌∷◌, ◌++◌, arith, refl, sym, ap, ◌∙◌,
  text_eq, All, Option-cases, inl, inr,
}
use mathlib.Core.List.{append-nil, append_assoc}
use kuberecord.Base.Map.{lookup}
use kuberecord.Base.Text.{Text}
use kuberecord.Pipeline.HashCache.{CacheEntry}
use kuberecord.Pipeline.Identity.{Key, cache_key, ephemeral}
use kuberecord.Pipeline.Normalize.{NormalizedObject}
use kuberecord.Pipeline.Process.{Pipeline, Writer, Clock, SinkState, Job, Failure}
use kuberecord.Pipeline.Upsert.{write_object}
use kuberecord.Pipeline.Upsert.Changes.{AreSound, IsNormal, Same}
use kuberecord.Pipeline.Upsert.Fidelity.{rows_of, Tells, Follows, rows_of-append}
use kuberecord.Pipeline.Upsert.Known.{write_object-Recorded}
use kuberecord.Query.Replay.{
  ReplayRow, Progress, Patching, Reconstruction, ok, replay_rows, base_row, replay,
}
use kuberecord.Query.Replay.Folding.{replay_rows_trans}
use kuberecord.Query.Replay.Bases.{replay-base}
use kuberecord.Sink.Record.{SinkRecord}

-- What one work item saw, and the writer and the clock that it had.
pub record Observation : Type 0 where
  pub writer : Writer
  pub clock : Clock
  pub norm : NormalizedObject

-- The observations of a key, one after another.
unfoldable pub observe : Pipeline → Key → List Observation → SinkState → SinkState
observe p key [] s = s
observe p key (o ∷ os) s = observe p key os (write_object p o.writer o.clock key o.norm s).0

-- The document is well-formed, and the writer takes its row.
abbrev pub IsTaken : (p : Pipeline) → Patching → Observation → Type 0
IsTaken p lib o = IsNormal p lib o.norm × ((row : SinkRecord) → o.writer.takes row ≡ true)

-- the document that was observed last
abbrev pub last_json : Text → List Observation → Text
last_json told [] = told
last_json told (o ∷ os) = last_json o.norm.json os

base_row-append : (xs ys : List ReplayRow) → base_row (xs ++ ys) ≡ none → base_row xs ≡ none
unfolding base_row
base_row-append [] ys h = refl
base_row-append (x ∷ xs) ys h = ground (arith, base_row-append xs ys)

base_row-found :
    (xs ys : List ReplayRow) → base_row xs ≢ none → (i : ℕ) × (base_row (xs ++ ys) ≡ some i)
base_row-found xs ys n = elim (Option-cases (base_row (xs ++ ys))) [
  | inl none_there ↦ absurd (n (base_row-append xs ys none_there))
  | inr found ↦ found
]

abbrev no_row : ReplayRow
no_row = record { ts = 0; event_type = []; state = []; diff = []; sha256 = [] }

abbrev no_progress : Progress
no_progress = record { state = []; applied = 0; last = no_row }

module _ (p : Pipeline) (lib : Patching) (sound : AreSound p lib) (key : Key)
    (lasting : ephemeral key ≡ false) where
  Tells-Follows :
      (document : Text) (o : Option CacheEntry) (q : Progress)
      → Tells p document o
      → Same lib q.state document
      → q.last.sha256 ≡ p.encoding.sha256 document
      → Follows p lib document o q
  Tells-Follows document none q told same stamped = absurd told
  Tells-Follows document (some e) q told same stamped = (told, same, stamped)

  observe_step :
      (o : Observation) (os : List Observation) (s s' : SinkState)
      → write_object p o.writer o.clock key o.norm s ≡ (s', none)
      → observe p key (o ∷ os) s ≡ observe p key os s'
  unfolding observe
  observe_step o os s s' done = ap (λ (r : SinkState × Option Failure). observe p key os r.0) done

  -- rows that a replay takes on to the document and its digest
  abbrev LeadTo : Text → SinkState → Progress → SinkState → Type 0
  LeadTo document s q s' =
      (new : List Job) × (s'.jobs ≡ s.jobs ++ new)
      × ((q' : Progress) × (replay_rows lib (rows_of new) q ≡ ok q')
          × Same lib q'.state document
          × (q'.last.sha256 ≡ p.encoding.sha256 document))

  LeadTo-trans :
      (s t u : SinkState) (q : Progress) (first next : Text) (l : LeadTo first s q t)
      → LeadTo next t (l.2).0 u
      → LeadTo next s q u
  LeadTo-trans s t u q first next (before, jobs, (q', replayed, _, _))
        (new, jobs', (q'', replayed', ends, digest)) =
      (
        before ++ new,
        jobs' ∙ rw jobs (append_assoc s.jobs before new),
        (
          q'',
          rw (rows_of-append before new)
              (replay_rows_trans lib (rows_of before) (rows_of new) q q' q'' replayed replayed'),
          ends,
          digest,
        ),
      )

  observe-LeadTo :
      (os : List Observation) (told : Text) (s : SinkState) (q : Progress)
      → All (IsTaken p lib) os
      → Same lib q.state told
      → Tells p told (lookup (cache_key key) s.cache)
      → q.last.sha256 ≡ p.encoding.sha256 told
      → LeadTo (last_json told os) s q (observe p key os s)
  observe-LeadTo [] told s q t e tells stamped =
      ([], unfold observe in sym (append-nil s.jobs), (q, unfold replay_rows in refl, e, stamped))
  observe-LeadTo (o ∷ os) told s q t e tells stamped =
      let follows = Tells-Follows told (lookup (cache_key key) s.cache) q tells e stamped in
      let (s', done, (new, jobs, (q', replayed, ends, digest), tells', _)) =
        write_object-Recorded p lib sound o.writer o.clock key o.norm (t.0).0 lasting (t.0).1 told s
          q follows in
      rw (observe_step o os s s' done) (
        LeadTo-trans s s' (observe p key os s') q o.norm.json (last_json o.norm.json os)
          (new, jobs, (q', replayed, ends, digest))
          (observe-LeadTo os o.norm.json s' q' t.1 ends tells' digest))

  -- An object that is no Event is seen for the first time and then observed again and again, its
  -- key untouched otherwise, in documents that read back as objects and carry their digests, by writers
  -- that take its rows, with sound libraries, under which a patch keeps the object and no order of its
  -- keys. Then the rows handed over for it hold a full state, and from the newest one the read plane
  -- rebuilds the object that the document observed last reads back as, under the digest of that
  -- document.
  pub observe-replay :
      (o : Observation) (os : List Observation) (s : SinkState) (object : lib.Object)
      → All (IsTaken p lib) (o ∷ os)
      → lookup (cache_key key) s.cache ≡ none
      → lib.unmarshal (last_json o.norm.json os) ≡ some object
      → (new : List Job) × ((observe p key (o ∷ os) s).jobs ≡ s.jobs ++ new)
        × (i : ℕ) × (base_row (rows_of new) ≡ some i)
        × (r : Reconstruction lib.Object) × (replay lib (rows_of new) i ≡ ok r)
        × (r.object ≡ object)
        × (r.sha256 ≡ p.encoding.sha256 (last_json o.norm.json os))
  observe-replay o os s object t unseen u =
      let (s', done, (first, jobs, (q', replayed, ends, digest), tells, based)) =
        write_object-Recorded p lib sound o.writer o.clock key o.norm (t.0).0 lasting (t.0).1 [] s
          no_progress (rw unseen tt) in
      let (next, jobs', (q'', replayed', ends', digest')) =
        observe-LeadTo os o.norm.json s' q' t.1 ends tells digest in
      let (i, at) = base_row-found (rows_of first) (rows_of next) (based unseen) in
      let (r, rebuilt, same, checked) =
        replay-base lib (rows_of first ++ rows_of next) no_progress q'' i object
          (replay_rows_trans lib (rows_of first) (rows_of next) no_progress q' q'' replayed
            replayed')
          at (cc (ends'.2, ends'.1, u)) in
      (
        first ++ next,
        rw (observe_step o os s s' done) (jobs' ∙ rw jobs (append_assoc s.jobs first next)),
        i,
        rw (rows_of-append first next) at,
        r,
        rw (rows_of-append first next) rebuilt,
        same,
        checked ∙ digest',
      )
