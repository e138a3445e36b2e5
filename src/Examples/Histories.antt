-- ===== src/Examples/Histories.antt =====
-- A ConfigMap that is seen for the first time, changes, and is seen again, on a sink that takes every
-- row; its diffs are patches that hold the new document, of which they make another text.
use native.Mathlib.Decide.{ℕ_discrete}
use kuberecord.Base.{
  ℕ, ◌≡◌, true, false, none, some, List, [], ◌∷◌, ◌++◌, arith, refl, text_eq, All, ap, ◌∙◌, ◌==◌,
  nat_eq, if◌then◌else◌,
}
use kuberecord.Base.Json.{end}
use kuberecord.Base.Map.{lookup}
use kuberecord.Base.Text.{Text, codes}
use kuberecord.Pipeline.Diff.{Codec, Diffing, PatchOp, patch, compute_diff}
use kuberecord.Pipeline.Diff.Tokens.{IsCodec}
use kuberecord.Pipeline.Identity.{Key, cache_key, ephemeral}
use kuberecord.Pipeline.Normalize.{Encoding, NormalizedObject}
use kuberecord.Pipeline.Process.{Pipeline, Writer, Clock, SinkState, Job}
use kuberecord.Pipeline.Upsert.Changes.{AreSound}
use kuberecord.Pipeline.Upsert.Fidelity.{rows_of}
use kuberecord.Pipeline.Upsert.Observations.{
  Observation, observe, IsTaken, last_json, observe-replay,
}
use kuberecord.Pipeline.WorkItem.{empty_state, Item, answer, process_next}
use kuberecord.Pipeline.WorkItem.Honesty.{IsHonest}
use kuberecord.Pipeline.WorkItem.Events.{Runs, here, works, Runs-IsHonest}
use kuberecord.Query.Replay.{Patching, Reconstruction, ok, base_row, replay}

-- A text without the spaces before it.
unfoldable skip_spaces : Text → Text
skip_spaces [] = []
skip_spaces (c ∷ s) = let rest = skip_spaces s in if c == b' ' then rest else c ∷ s

skip_one : (s : Text) → skip_spaces (b' ' ∷ s) ≡ skip_spaces s
unfolding skip_spaces
skip_one s = ground arith

-- A patch replaces the document by another text of the new one.
abbrev replacing : Patching
replacing = record {
  Patch = Text;
  Object = Text;
  decode_patch = λ bytes. elim bytes [ [] ↦ none | c ∷ document ↦ some document ];
  apply_patch = λ document s. some (b' ' ∷ document);
  unmarshal = λ s. some (skip_spaces s);
}

abbrev replace_with : Text → List PatchOp
replace_with document = record { type = codes "replace"; path = document; from = [] } ∷ []

abbrev path_of : List PatchOp → Text
path_of [] = []
path_of (op ∷ ops) = op.path

abbrev comparison : Diffing
comparison = record {
  compare_json = λ before after. some (replace_with after);
  marshal_patch = λ ops. some (b'=' ∷ path_of ops);
}

abbrev plain_codec : Codec
plain_codec = record { encoder = none; decoder = none }

abbrev no_builtin : Encoding
no_builtin = record {
  get_uid = λ object. codes "u1";
  get_resource_version = λ object. codes "1";
  get_version = λ object. codes "v1";
  get_labels = λ object. [];
  get_annotations = λ object. [];
  marshal = λ object. some (codes "{}");
  sha256 = λ document. document;
  builtin_redaction = record { paths = [] };
}

abbrev pub pipeline : Pipeline
pipeline = record {
  cluster_id = codes "c1";
  encoding = no_builtin;
  codec = plain_codec;
  diffing = comparison;
  digest = λ fields. none;
}

abbrev pub writer : Writer
writer = record { checkpoint_every = some 10; coalesce_window = none; takes = λ row. true }

abbrev pub clock : Clock
clock = record { closed_at = 1; decided_at = 2; stamped_at = 3 }

abbrev pub config : Key
config = record {
  sink = record { kind = codes "S3Sink"; name = codes "default" };
  group = [];
  kind = codes "ConfigMap";
  namespace = codes "shop";
  name = codes "web";
}

abbrev pub of_document : Text → NormalizedObject
of_document document = record {
  json = document;
  hash = document;
  uid = codes "u1";
  resource_version = codes "1";
  api_version = codes "v1";
  labels = [];
  actors = [];
  normalized = end;
}

abbrev seen : Text → Observation
seen document = record { writer = writer; clock = clock; norm = of_document document }

plain_codec-IsCodec : IsCodec plain_codec
plain_codec-IsCodec = record {
  framed = λ encode s e. absurd (ground arith);
  decoded = λ encode s e. absurd (ground arith);
}

replaced :
    (before after bytes : Text)
    → compute_diff comparison before after ≡ patch bytes
    → (b'=' ∷ after) ≡ bytes
unfolding compute_diff
replaced before after bytes e = ground arith

libraries-AreSound : AreSound pipeline replacing
libraries-AreSound = record {
  codec = plain_codec-IsCodec;
  digests = λ a b e. e;
  patches = λ a b bytes e.
      rw (← replaced a b bytes e)
        ((λ n. cc), (b, refl, λ text o same reads. (b' ' ∷ b, refl, ap some (skip_one b) ∙ reads)));
}

seen-IsTaken : (c : ℕ) (s : Text) → IsTaken pipeline replacing (seen (c ∷ s))
seen-IsTaken c s = (
  record { object = skip_spaces (c ∷ s); parsed = refl; written = λ n. cc; digested = refl },
  λ row. refl,
)

config-lasts : ephemeral config ≡ false
unfolding ephemeral
config-lasts = ground arith

unseen : lookup (cache_key config) empty_state.cache ≡ none
unfolding lookup
unseen = refl

reads_b : skip_spaces (codes "b") ≡ codes "b"
unfolding skip_spaces ℕ_discrete
reads_b = refl

observe-replay_example :
    (new : List Job) × ((observe pipeline config
        (seen (codes "a") ∷ seen (codes "b") ∷ seen (codes "b") ∷ [])
        empty_state).jobs
      ≡ empty_state.jobs ++ new)
    × (i : ℕ) × (base_row (rows_of new) ≡ some i)
    × (r : Reconstruction Text) × (replay replacing (rows_of new) i ≡ ok r)
    × (r.object ≡ codes "b")
    × (r.sha256
        ≡ pipeline.encoding.sha256
            (last_json (codes "a") (seen (codes "b") ∷ seen (codes "b") ∷ [])))
observe-replay_example =
    observe-replay pipeline replacing libraries-AreSound config config-lasts (seen (codes "a"))
      (seen (codes "b") ∷ seen (codes "b") ∷ []) empty_state (codes "b")
      (seen-IsTaken b'a' [], (seen-IsTaken b'b' [], (seen-IsTaken b'b' [], tt))) unseen
      (ap some reads_b)

-- An Event that is seen, and then leaves the watch cache.
abbrev event : Key
event = record config { kind = codes "Event" }

abbrev there : Item
there = record {
  found = answer (some end) true;
  writer = some writer;
  redaction = some none;
  clock = clock;
}

abbrev gone : Item
gone = record there { found = answer none true }

abbrev after_event : SinkState
after_event = process_next pipeline gone event (process_next pipeline there event empty_state)

event_expires : Runs empty_state after_event
event_expires = works pipeline there event (works pipeline gone event here)

Runs-IsHonest_example : All (λ (job : Job). IsHonest job.row) after_event.jobs
Runs-IsHonest_example = Runs-IsHonest event_expires
