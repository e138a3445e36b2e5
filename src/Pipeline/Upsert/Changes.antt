-- ===== src/Pipeline/Upsert/Changes.antt =====
-- A change says enough: from the state that the sink was told, its row leads a replay to the object.
use kuberecord.Base.{
  ℕ, ◌+◌, ◌≡◌, ◌≢◌, ◌⊎◌, inl, inr, true, false, Option, none, some, [], arith, refl, text_eq,
}
use kuberecord.Base.Text.{Text}
use kuberecord.Pipeline.Diff.{
  Diff, patch, refused, comparing, marshalling, empty_interior_token, Decoded, decode_baseline,
  compute_diff, checkpoint_due, CheckpointReason,
}
use kuberecord.Pipeline.Diff.Tokens.{IsCodec}
use kuberecord.Pipeline.HashCache.{CacheEntry}
use kuberecord.Pipeline.Identity.{Key}
use kuberecord.Pipeline.Normalize.{NormalizedObject}
use kuberecord.Pipeline.Process.{Pipeline, Writer, Clock, checkpoint_every_for}
use kuberecord.Pipeline.Change.{
  Change, of_reason, of_stored, diffed, of_diff, of_baseline, modified, row_of,
}
use kuberecord.Query.Replay.{ReplayRow, Progress, Patching, ok, replay_row, apply_diff}
use kuberecord.Sink.Record.{SinkRecord}

-- The columns of a row that a replay reads.
abbrev pub to_replay : SinkRecord → ReplayRow
to_replay row = record {
  ts = row.timestamp;
  event_type = row.event_type;
  state = row.state;
  diff = row.diff;
  sha256 = row.sha256;
}

-- Two texts of one object, as JSON orders no keys.
abbrev pub Same : (lib : Patching) → Text → Text → Type 0
Same lib a b = (o : lib.Object) × (lib.unmarshal a ≡ some o) × (lib.unmarshal b ≡ some o)

-- What the writing and the reading plane rely on of their libraries: zstd's codec reads its frames
-- back, SHA-256 tells documents apart, a patch is not empty, and a recorded patch without an empty
-- interior token takes every text of the object that it was computed from to some text of the object
-- that it was computed to, whatever order its keys have.
pub record AreSound (p : Pipeline) (lib : Patching) : Type 0 where
  pub codec : IsCodec p.codec
  pub digests : (a b : Text) → p.encoding.sha256 a ≡ p.encoding.sha256 b → a ≡ b
  pub patches :
      (a b bytes : Text)
      → compute_diff p.diffing a b ≡ patch bytes
      → (bytes ≢ [])
        × ((pt : lib.Patch) × (lib.decode_patch bytes ≡ some pt)
            × ((text : Text) (o : lib.Object)
                → Same lib text a
                → lib.unmarshal b ≡ some o
                → (next : Text) × (lib.apply_patch pt text ≡ some next)
                  × (lib.unmarshal next ≡ some o)))

-- What `normalizeObject` makes: a document that reads back as an object, and its digest.
pub record IsNormal (p : Pipeline) (lib : Patching) (norm : NormalizedObject) : Type 0 where
  pub object : lib.Object
  pub parsed : lib.unmarshal norm.json ≡ some object
  pub written : norm.json ≢ []
  pub digested : norm.hash ≡ p.encoding.sha256 norm.json

-- A change that leads from the document `told` to the object: with the state, or with a diff that
-- applies.
abbrev pub Leads : Patching → Change → Text → NormalizedObject → Type 0
Leads lib change told norm =
    (change.carries_full_state ≡ true)
    ⊎ ((change.carries_full_state ≡ false)
        × (change.diff ≢ [])
        × ((pt : lib.Patch) × (lib.decode_patch change.diff ≡ some pt)
            × ((text : Text) (o : lib.Object)
                → Same lib text told
                → lib.unmarshal norm.json ≡ some o
                → (next : Text) × (lib.apply_patch pt text ≡ some next)
                  × (lib.unmarshal next ≡ some o))))

module _ (p : Pipeline) (lib : Patching) (sound : AreSound p lib) (w : Writer)
    (norm : NormalizedObject) where
  of_reason-Leads :
      (told bytes : Text) (run : ℕ) (o : Option CheckpointReason)
      → compute_diff p.diffing told norm.json ≡ patch bytes
      → Leads lib (of_reason bytes run o) told norm
  of_reason-Leads told bytes run (some reason) e = inl refl
  of_reason-Leads told bytes run none e =
      let (full, applies) = sound.patches told norm.json bytes e in inr (refl, full, applies)

  diffed-Leads :
      (told bytes : Text) (run : ℕ)
      → compute_diff p.diffing told norm.json ≡ patch bytes
      → Leads lib (diffed w norm run bytes) told norm
  unfolding diffed
  diffed-Leads told bytes run e =
      of_reason-Leads told bytes run (checkpoint_due (checkpoint_every_for w) run bytes norm.json) e

  of_diff-Leads :
      (told : Text) (run : ℕ) (d : Diff)
      → compute_diff p.diffing told norm.json ≡ d
      → Leads lib (of_diff w norm run d) told norm
  unfolding of_diff
  of_diff-Leads told run (refused comparing) e = inl refl
  of_diff-Leads told run (refused marshalling) e = inl refl
  of_diff-Leads told run (refused empty_interior_token) e = inl refl
  of_diff-Leads told run (patch bytes) e = diffed-Leads told bytes run e

  -- whether the entry has a baseline, it is the document that was told
  abbrev pub Holds : CacheEntry → Text → Type 0
  Holds entry told = (entry.json ≡ none) ⊎ (decode_baseline p.codec entry ≡ Decoded.ok (some told))

  of_baseline-Leads :
      (told : Text) (run : ℕ) (d : Decoded)
      → d ≡ Decoded.ok (some told)
      → Leads lib (of_baseline p w norm run d) told norm
  unfolding of_baseline
  of_baseline-Leads told run Decoded.err e = inl refl
  of_baseline-Leads told run (Decoded.ok none) e = absurd (cc)
  of_baseline-Leads told run (Decoded.ok (some baseline)) e =
      let same : baseline ≡ told = cc in rw same (of_diff-Leads told run _ refl)

  of_stored-Leads :
      (change : Change) (told : Text) (o : Option Text)
      → ((o ≡ none) ⊎ Leads lib change told norm)
      → Leads lib (of_stored change o) told norm
  of_stored-Leads change told none l = inl refl
  of_stored-Leads change told (some b) (inl e) = absurd (cc)
  of_stored-Leads change told (some b) (inr l) = l

  pub modified-Leads :
      (entry : CacheEntry) (told : Text)
      → Holds entry told
      → Leads lib (modified p w false entry norm) told norm
  unfolding modified
  modified-Leads entry told (inl e) = of_stored-Leads _ told entry.json (inl e)
  modified-Leads entry told (inr e) = of_stored-Leads _ told entry.json (
      inr (
        of_baseline-Leads told (entry.modified_since_checkpoint + 1) (decode_baseline p.codec entry)
          e))

  -- a replay that has the document goes on to the object by the row of a change that leads there
  pub replay_row-Leads :
      (clock : Clock) (key : Key) (change : Change) (told : Text) (q : Progress)
      → IsNormal p lib norm
      → Leads lib change told norm
      → ((change.carries_full_state ≡ true) ⊎ Same lib q.state told)
      → (q' : Progress) × (replay_row lib (to_replay (row_of p clock key norm change)) q ≡ ok q')
        × Same lib q'.state norm.json
        × (q'.last.sha256 ≡ norm.hash)
  unfolding replay_row row_of apply_diff
  replay_row-Leads clock key change told q n (inl full) e = (
    record q { state = norm.json; last = to_replay (row_of p clock key norm change) },
    ground (arith, n.written),
    (n.object, n.parsed, n.parsed),
    refl,
  )
  replay_row-Leads clock key change told q n (inr (bare, kept, step)) (inl full) = absurd (cc)
  replay_row-Leads clock key change told q n (inr (bare, kept, (pt, decodes, applies))) (inr e) =
      let (next, applied, reads) = applies q.state n.object e n.parsed in
      (
        record {
          state = next;
          applied = q.applied + 1;
          last = to_replay (row_of p clock key norm change);
        },
        ground (arith, decodes, applied),
        (n.object, reads, n.parsed),
        refl,
      )
