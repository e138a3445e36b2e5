-- ===== src/Pipeline/Diff.antt =====
-- internal/pipeline/process.go and hashcache.go: the stored baselines, the diffs between them, and
-- when a checkpoint interrupts a run of diffs. zstd, wI2L/jsondiff and `json.Marshal` are
-- parameters.
pub mod Tokens
use kuberecord.Base.{
  ℕ, zero, suc, ◌+◌, ◌≤◌, ◌≡◌, Bool, true, false, not, ◌&&◌, ◌||◌, Option, none, some, List, [],
  ◌∷◌, arith, nat_eq, text_eq, ◌==◌, if◌then◌else◌, length, leb, ltb,
}
use kuberecord.Base.Text.{Text, has_prefix}
use kuberecord.Pipeline.HashCache.{CacheEntry, EntryEncoding, raw, zstd}

-- The two codecs of github.com/klauspost/compress/zstd, each `none` if its construction failed.
pub record Codec : Type 0 where
  pub encoder : Option (Text → Text)
  pub decoder : Option (Text → Option Text)

-- `zstdMagic`
abbrev pub zstd_magic : Text
zstd_magic = 0x28 ∷ 0xB5 ∷ 0x2F ∷ 0xFD ∷ []

-- `compressBaseline`: the bytes, their encoding, and whether they are compressed. `EncodeAll` on
-- no bytes is never called.
unfoldable pub compress_baseline : Codec → Text → Text × EntryEncoding × Bool
compress_baseline codec [] = ([], raw, false)
compress_baseline codec (b ∷ bytes) = elim codec.encoder [
  | none ↦ (b ∷ bytes, raw, false)
  | some encode ↦ (encode (b ∷ bytes), zstd, true)
]

-- `decodeBaseline` on what the entry stores: `ok none` where the source returns nil, nil.
pub data Decoded : Type 0 where
  ok : Option Text → Decoded
  err : Decoded

abbrev pub of_decoder : Option Text → Decoded
of_decoder none = err
of_decoder (some bytes) = ok (some bytes)

unfoldable pub decode_stored : Codec → Option Text → EntryEncoding → Decoded
decode_stored codec none encoding = ok none
decode_stored codec (some bytes) raw = ok (some bytes)
decode_stored codec (some bytes) zstd =
    if not (has_prefix zstd_magic bytes)
    then err
    else elim codec.decoder [ none ↦ err | some decode ↦ of_decoder (decode bytes) ]

-- `CacheEntry.decodeBaseline`
unfoldable pub decode_baseline : Codec → CacheEntry → Decoded
unfolding decode_stored
decode_baseline codec e = decode_stored codec e.json e.encoding

-- An operation of a JSON patch.
pub record PatchOp : Type 0 where
  pub type : Text
  pub path : Text
  pub from : Text

-- What the diff uses of its libraries; `none` is their error.
pub record Diffing : Type 0 where
  pub compare_json : Text → Text → Option (List PatchOp)
  pub marshal_patch : List PatchOp → Option Text

-- `strings.Split(s, "/")`, which has a token more than `s` has separators
unfoldable pub split_slash : Text → List Text
split_slash [] = [] ∷ []
split_slash (c ∷ s) =
    let rest = split_slash s in
    if c == b'/'
    then [] ∷ rest
    else elim rest [ [] ↦ (c ∷ []) ∷ [] | token ∷ tokens ↦ (c ∷ token) ∷ tokens ]

-- Whether a token but the last is empty.
unfoldable pub empty_before_last : List Text → Bool
empty_before_last [] = false
empty_before_last (token ∷ []) = false
empty_before_last (token ∷ next ∷ tokens) = token == [] || empty_before_last (next ∷ tokens)

-- The tokens after the first, of a pointer with at least three.
abbrev pub interior : List Text → Bool
interior [] = false
interior (first ∷ tokens) = empty_before_last tokens

-- `hasEmptyInteriorToken`
unfoldable pub has_empty_interior_token : Text → Bool
unfolding split_slash empty_before_last
has_empty_interior_token pointer =
    if ltb (length (split_slash pointer)) 3 then false else interior (split_slash pointer)

-- The errors of `ComputeDiff`.
pub data DiffError : Type 0 where
  comparing marshalling empty_interior_token : DiffError

pub data Diff : Type 0 where
  patch : Text → Diff
  refused : DiffError → Diff

-- The loop of `ComputeDiff`: whether some operation is refused.
unfoldable pub some_refused : List PatchOp → Bool
some_refused [] = false
some_refused (op ∷ ops) =
    has_empty_interior_token op.path || has_empty_interior_token op.from || some_refused ops

abbrev pub marshalled : Option Text → Diff
marshalled none = refused marshalling
marshalled (some bytes) = patch bytes

abbrev pub checked : Diffing → Option (List PatchOp) → Diff
checked lib none = refused comparing
checked lib (some ops) =
    if some_refused ops then refused empty_interior_token else marshalled (lib.marshal_patch ops)

-- `ComputeDiff`
unfoldable pub compute_diff : Diffing → Text → Text → Diff
compute_diff lib before after = checked lib (lib.compare_json before after)

-- `checkpointReason`
pub data CheckpointReason : Type 0 where
  count size : CheckpointReason

-- `checkpointDue`; an interval of 0 stands for one of 0 or less.
unfoldable pub checkpoint_due : ℕ → ℕ → Text → Text → Option CheckpointReason
checkpoint_due every modified_run diff full =
    if leb every 0
    then none
    else if leb every modified_run
    then some count
    else if ltb (length full) (length diff)
    then some size
    else none
