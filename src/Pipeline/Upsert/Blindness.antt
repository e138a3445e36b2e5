-- ===== src/Pipeline/Upsert/Blindness.antt =====
-- Content that a redaction path names leaves no trace: neither in the rows nor in the cache.
use kuberecord.Base.{
  ◌≡◌, ◌++◌, true, Option, none, some, List, arith, refl, ap, sym, ◌∙◌, text_eq, contains,
}
use kuberecord.Base.Json.{Fields, obj}
use kuberecord.Base.Map.{lookup}
use kuberecord.Base.Text.{Text}
use kuberecord.Pipeline.Identity.{Key}
use kuberecord.Pipeline.Normalize.{
  Encoding, NormalizedObject, actors_annotation, extract_actors, strip_volatile_fields,
  normalized_content, normalize_object, normalized_from, marshalled, actors_of, is_there,
}
use kuberecord.Pipeline.Process.{Pipeline, Writer, Clock, SinkState}
use kuberecord.Pipeline.Redact.{
  RedactionPath, RedactionPolicy, Quoting, Result, ok, compile_redaction, builtin_paths,
  parse_redaction_path,
}
use kuberecord.Pipeline.Redact.Compile.{compile_redaction-blind}
use kuberecord.Pipeline.Redact.Scrub.{scrub}
use kuberecord.Pipeline.Upsert.{process_upsert, normalized}

-- What is recorded of an object beside its content is the same.
pub record AgreeBeside (lib : Encoding) (a b : Fields) : Type 0 where
  pub uids : lib.get_uid a ≡ lib.get_uid b
  pub resource_versions : lib.get_resource_version a ≡ lib.get_resource_version b
  pub versions : lib.get_version a ≡ lib.get_version b
  pub labels : lib.get_labels a ≡ lib.get_labels b
  pub annotated :
      lookup actors_annotation (lib.get_annotations a)
      ≡ lookup actors_annotation (lib.get_annotations b)
  pub extracted : extract_actors a ≡ extract_actors b

-- the object without what `stripVolatileFields` takes off
abbrev pub stripped : Encoding → Fields → Fields
stripped lib object =
    strip_volatile_fields object (is_there (lookup actors_annotation (lib.get_annotations object)))

abbrev with_actors : Encoding → Fields → Fields → Text → List Text → NormalizedObject
with_actors lib b content json actors = record {
  json = json;
  hash = lib.sha256 json;
  uid = lib.get_uid b;
  resource_version = lib.get_resource_version b;
  api_version = lib.get_version b;
  labels = lib.get_labels b;
  actors = actors;
  normalized = content;
}

actors_of-same :
    (a b : Fields) (o : Option Text)
    → extract_actors a ≡ extract_actors b
    → actors_of a o ≡ actors_of b o
actors_of-same a b none e = e
actors_of-same a b (some value) e = refl

marshalled-same :
    (lib : Encoding) (a b content : Fields) (json : Option Text)
    → AgreeBeside lib a b
    → marshalled lib a content json ≡ marshalled lib b content json
marshalled-same lib a b content none h = refl
marshalled-same lib a b content (some json) h =
    rw (h.uids, h.resource_versions, h.versions, h.labels, h.annotated)
      (ap (λ (actors : List Text). some (with_actors lib b content json actors))
        (actors_of-same a b (lookup actors_annotation (lib.get_annotations b)) h.extracted))

normalized_from-same :
    (lib : Encoding) (a b : Fields) (content : Option Fields)
    → AgreeBeside lib a b
    → normalized_from lib a content ≡ normalized_from lib b content
normalized_from-same lib a b none h = refl
normalized_from-same lib a b (some content) h =
    marshalled-same lib a b content (lib.marshal content) h

normalize_object-same :
    (lib : Encoding) (policy : Option RedactionPolicy) (a b : Fields)
    → AgreeBeside lib a b
    → normalized_content lib a policy ≡ normalized_content lib b policy
    → normalize_object lib a policy ≡ normalize_object lib b policy
unfolding normalize_object
normalize_object-same lib policy a b h e =
    ap (normalized_from lib a) e ∙ normalized_from-same lib a b _ h

segments_of_ok :
    {r : Result RedactionPath} {found path : RedactionPath}
    → r ≡ ok found
    → r ≡ ok path
    → found.segments ≡ path.segments
segments_of_ok e f = ground arith

normalized_content-blind :
    (quoting : Quoting) (lib : Encoding) (raws : List Text) (raw : Text) (path : RedactionPath)
    (policy : RedactionPolicy) (a b : Fields)
    → compile_redaction quoting raws ≡ ok policy
    → contains (raws ++ builtin_paths quoting) raw ≡ true
    → parse_redaction_path quoting raw ≡ ok path
    → scrub path.segments (obj (stripped lib a)) ≡ scrub path.segments (obj (stripped lib b))
    → normalized_content lib a (some policy) ≡ normalized_content lib b (some policy)
unfolding normalized_content
normalized_content-blind quoting lib raws raw path policy a b compiled listed parsed same =
    let (found, parsed', blind) =
      compile_redaction-blind quoting lib.builtin_redaction raws raw policy compiled listed in
    let at : found.segments ≡ path.segments = segments_of_ok parsed' parsed in
    let (result, left, right) = blind (stripped lib a) (stripped lib b) (rw at same) in
    left ∙ sym right

-- Two objects that agree in UID, versions, labels and actors, and in what is hashed of them but for
-- what a path of a redaction list, or the built-in path, names: under the policy compiled from the
-- list, recording either leaves the same state, rows, cached entries and all, and fails alike.
pub process_upsert-blind :
    (quoting : Quoting) (raws : List Text) (raw : Text) (path : RedactionPath)
    (policy : RedactionPolicy) (p : Pipeline) (w : Writer) (clock : Clock) (key : Key)
    (a b : Fields) (s : SinkState)
    → compile_redaction quoting raws ≡ ok policy
    → contains (raws ++ builtin_paths quoting) raw ≡ true
    → parse_redaction_path quoting raw ≡ ok path
    → AgreeBeside p.encoding a b
    → scrub path.segments (obj (stripped p.encoding a))
      ≡ scrub path.segments (obj (stripped p.encoding b))
    → process_upsert p w clock key (some (some policy)) a s
      ≡ process_upsert p w clock key (some (some policy)) b s
unfolding process_upsert
process_upsert-blind quoting raws raw path policy p w clock key a b s compiled listed parsed h
      same =
    ap (λ (o : Option NormalizedObject). normalized p w clock key o s)
      (normalize_object-same p.encoding (some policy) a b h (
        normalized_content-blind quoting p.encoding raws raw path policy a b compiled listed parsed
          same))
