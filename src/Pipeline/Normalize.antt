-- ===== src/Pipeline/Normalize.antt =====
-- internal/pipeline/process.go and actors.go: what of an object is hashed, diffed and recorded. The
-- typed accessors of k8s.io/apimachinery and `json.Marshal` are parameters, as is SHA-256.
pub mod Stripping
pub mod Actors
use kuberecord.Base.{
  Bool, true, false, Option, none, some, List, [], ◌∷◌, ◌++◌, nat_eq, text_eq, ◌==◌, if◌then◌else◌,
  contains,
}
use kuberecord.Base.Json.{Value, str, arr, obj, Items, nil, cons, Fields, end, field, get, put}
use kuberecord.Base.Map.{Map, lookup}
use kuberecord.Base.Sorting.{sort_stable}
use kuberecord.Base.Text.{Text, codes, compare_text}
use kuberecord.Pipeline.Redact.{RedactionPolicy}
use kuberecord.Pipeline.Redact as Redact

abbrev pub actors_annotation : Text
actors_annotation = codes "internal.kuberecord.io/actors"

-- `normalizedObject`
pub record NormalizedObject : Type 0 where
  pub json : Text
  pub hash : Text
  pub uid : Text
  pub resource_version : Text
  pub api_version : Text
  pub labels : Map Text Text
  pub actors : List Text
  pub normalized : Fields

-- `strings.SplitSeq(value, ",")`, which has a part more than the text has commas
unfoldable pub split_comma : Text → List Text
split_comma [] = [] ∷ []
split_comma (c ∷ s) =
    let rest = split_comma s in
    if c == b','
    then [] ∷ rest
    else elim rest [ [] ↦ (c ∷ []) ∷ [] | part ∷ parts ↦ (c ∷ part) ∷ parts ]

-- The loop of `decodeActors`: the parts that are not empty.
unfoldable pub non_empty : List Text → List Text
non_empty [] = []
non_empty (part ∷ parts) = let rest = non_empty parts in if part == [] then rest else part ∷ rest

-- `decodeActors`
unfoldable pub decode_actors : Text → List Text
unfolding split_comma non_empty
decode_actors value = non_empty (split_comma value)

-- `EncodeActors`
unfoldable pub encode_actors : List Text → Text
encode_actors [] = []
encode_actors (actor ∷ []) = actor
encode_actors (actor ∷ next ∷ actors) = actor ++ (b',' ∷ encode_actors (next ∷ actors))

-- The manager that an entry of managedFields names; `none` for an entry that is no map.
abbrev or_unknown : Option Value → Text
or_unknown (some (str name)) = if name == [] then codes "unknown" else name
or_unknown _ = codes "unknown"

abbrev manager_of : Value → Option Text
manager_of (obj entry) = some (or_unknown (get (codes "manager") entry))
manager_of _ = none

-- The set of the managers, each once.
unfoldable pub managers : Items → List Text
managers nil = []
managers (cons entry rest) = elim (manager_of entry) [
  | none ↦ managers rest
  | some manager ↦
      let others = managers rest in if contains others manager then others else manager ∷ others
]

abbrev array_or_nil : Option Value → Items
array_or_nil (some (arr items)) = items
array_or_nil _ = nil

abbrev managed_fields : Option Value → Items
managed_fields (some (obj metadata)) = array_or_nil (get (codes "managedFields") metadata)
managed_fields _ = nil

-- `ExtractActors`
unfoldable pub extract_actors : Fields → List Text
unfolding managers
extract_actors object =
    sort_stable compare_text (managers (managed_fields (get (codes "metadata") object)))

-- The annotations but the operator's own.
unfoldable pub without_actors : Fields → Fields
without_actors end = end
without_actors (field name annotation rest) =
    if name == actors_annotation
    then without_actors rest
    else field name annotation (without_actors rest)

-- `len(object) == 1`
abbrev is_single : Fields → Bool
is_single (field name v end) = true
is_single _ = false

-- What `stripVolatileFields` makes of the annotations; `none` drops them.
unfoldable pub strip_annotations : Value → Option Value
strip_annotations (obj existing) =
    if is_single existing then none else some (obj (without_actors existing))
strip_annotations value = some value

abbrev pub volatile_fields : List Text
volatile_fields = codes "managedFields" ∷ codes "resourceVersion" ∷ codes "generation" ∷ []

-- The switch of `stripVolatileFields` on one field of the metadata.
unfoldable pub strip_field : Bool → Text → Value → Option Value
unfolding strip_annotations
strip_field strip_actors name value =
    if contains volatile_fields name
    then none
    else if name == codes "annotations"
    then (if strip_actors then strip_annotations value else some value)
    else some value

abbrev pub keep_field : Text → Option Value → Fields → Fields
keep_field name none rest = rest
keep_field name (some value) rest = field name value rest

-- The loop of `stripVolatileFields`.
unfoldable pub strip_metadata : Bool → Fields → Fields
strip_metadata strip_actors end = end
strip_metadata strip_actors (field name value rest) =
    keep_field name (strip_field strip_actors name value) (strip_metadata strip_actors rest)

-- `stripVolatileFields` once the metadata is looked up.
abbrev pub strip_found : Bool → Fields → Option Value → Fields
strip_found strip_actors object (some (obj metadata)) =
    put (codes "metadata") (obj (strip_metadata strip_actors metadata)) object
strip_found strip_actors object _ = object

-- `stripVolatileFields`
unfoldable pub strip_volatile_fields : Fields → Bool → Fields
unfolding strip_metadata
strip_volatile_fields object strip_actors =
    strip_found strip_actors object (get (codes "metadata") object)

-- What normalising uses of its libraries; `none` is an error of `json.Marshal`.
pub record Encoding : Type 0 where
  pub get_uid : Fields → Text
  pub get_resource_version : Fields → Text
  pub get_version : Fields → Text
  pub get_labels : Fields → Map Text Text
  pub get_annotations : Fields → Map Text Text
  pub marshal : Fields → Option Text
  pub sha256 : Text → Text
  pub builtin_redaction : RedactionPolicy

-- The actors of an object whose annotations hold, or do not hold, the operator's own.
abbrev pub actors_of : Fields → Option Text → List Text
actors_of object none = extract_actors object
actors_of object (some value) = decode_actors value

abbrev pub is_there : Option Text → Bool
is_there none = false
is_there (some _) = true

-- The content that is hashed: stripped and redacted; `none` where the redaction would panic.
unfoldable pub normalized_content : Encoding → Fields → Option RedactionPolicy → Option Fields
normalized_content lib object policy = Redact.apply lib.builtin_redaction policy (
    strip_volatile_fields object (is_there (lookup actors_annotation (lib.get_annotations object))))

abbrev pub marshalled : Encoding → Fields → Fields → Option Text → Option NormalizedObject
marshalled lib object content none = none
marshalled lib object content (some json) = some (record {
  json = json;
  hash = lib.sha256 json;
  uid = lib.get_uid object;
  resource_version = lib.get_resource_version object;
  api_version = lib.get_version object;
  labels = lib.get_labels object;
  actors = actors_of object (lookup actors_annotation (lib.get_annotations object));
  normalized = content;
})

abbrev pub normalized_from : Encoding → Fields → Option Fields → Option NormalizedObject
normalized_from lib object none = none
normalized_from lib object (some content) = marshalled lib object content (lib.marshal content)

-- `normalizeObject`; `none` is its error.
unfoldable pub normalize_object :
    Encoding → Fields → Option RedactionPolicy → Option NormalizedObject
unfolding normalized_content
normalize_object lib object policy =
    normalized_from lib object (normalized_content lib object policy)

-- `ObjectHash`
unfoldable pub object_hash : Encoding → Fields → Option RedactionPolicy → Option Text
unfolding normalize_object
object_hash lib object policy = elim (normalize_object lib object policy) [
  | none ↦ none
  | some norm ↦ some norm.hash
]

-- `NormalizedJSON`
unfoldable pub normalized_json : Encoding → Fields → Option RedactionPolicy → Option Text
unfolding normalize_object
normalized_json lib object policy = elim (normalize_object lib object policy) [
  | none ↦ none
  | some norm ↦ some norm.json
]
