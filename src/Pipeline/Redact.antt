-- ===== src/Pipeline/Redact.antt =====
-- internal/pipeline/redact.go: the compiled paths of a redaction policy, and what they scrub. The
-- functions on values also say whether something changed, as the source's do.
pub mod Scrub
pub mod Absorption
pub mod Compile
pub mod Fuel
pub mod Annotations
use Prim.Native.Nat.{Ordering}
use kuberecord.Base.{
  ℕ, zero, suc, ◌≡◌, Bool, true, false, not, ◌&&◌, ◌||◌, Option, none, some, List, [], ◌∷◌, ◌++◌,
  arith, nat_eq, text_eq, ◌==◌, if◌then◌else◌, length, leb, contains,
}
use kuberecord.Base.Json.{
  Value, null, bool, num, str, arr, obj, Items, nil, cons, Fields, end, field, get, put, as_object,
}
use kuberecord.Base.Sorting.{sort_stable}
use kuberecord.Base.Text.{Text, codes, has_prefix, compare_text}

abbrev pub redaction_sentinel : Text
redaction_sentinel = codes "[REDACTED]"

abbrev pub last_applied_config_annotation : Text
last_applied_config_annotation = codes "kubectl.kubernetes.io/last-applied-configuration"

-- `redactionSegment`
pub record RedactionSegment : Type 0 where
  pub name : Text
  pub wildcard : Bool

-- `redactionPath`
pub record RedactionPath : Type 0 where
  pub raw : Text
  pub segments : List RedactionSegment

-- `RedactionPolicy`; a nil pointer is `none` where the source takes one.
pub record RedactionPolicy : Type 0 where
  pub paths : List RedactionPath

-- The leaf of `redactValue`.
unfoldable pub redact_leaf : Value → Value × Bool
redact_leaf (str existing) =
    if existing == redaction_sentinel then (str existing, false) else (str redaction_sentinel, true)
redact_leaf _ = (str redaction_sentinel, true)

-- The loop of `redactElements`, over what the remaining segments do to one element.
unfoldable pub redact_items : (Value → Value × Bool) → Items → Items × Bool
redact_items redact nil = (nil, false)
redact_items redact (cons item items) =
    let rest = redact_items redact items in
    if (redact item).1 then (cons (redact item).0 rest.0, true) else (cons item rest.0, rest.1)

-- `redactElements`
unfoldable pub redact_elements : (Value → Value × Bool) → Value → Value × Bool
redact_elements redact (arr items) =
    if (redact_items redact items).1
    then (arr (redact_items redact items).0, true)
    else (arr items, false)
redact_elements redact value = (value, false)

-- The copy that `redactValue` makes of an object whose child changed.
unfoldable pub replace_child : Text → Fields → Value × Bool → Value × Bool
replace_child name object child =
    if child.1 then (obj (put name child.0 object), true) else (obj object, false)

-- `redactValue` on an object, from its child lookup on.
unfoldable pub redact_child :
    RedactionSegment → (Value → Value × Bool) → Fields → Option Value → Value × Bool
redact_child segment redact object none = (obj object, false)
redact_child segment redact object (some child) =
    replace_child segment.name object
      (if segment.wildcard then redact_elements redact child else redact child)

-- `redactValue`
unfoldable pub redact_value : List RedactionSegment → Value → Value × Bool
redact_value [] value = redact_leaf value
redact_value (segment ∷ segments) (obj object) =
    redact_child segment (redact_value segments) object (get segment.name object)
redact_value (segment ∷ segments) value = (value, false)

-- The loop of `Apply`; `none` where the source's type assertion would panic.
unfoldable pub apply_paths : List RedactionPath → Fields → Option Fields
apply_paths [] current = some current
apply_paths (path ∷ paths) current =
    if (redact_value path.segments (obj current)).1
    then elim (as_object (redact_value path.segments (obj current)).0) [
      | none ↦ none
      | some next ↦ apply_paths paths next
    ]
    else apply_paths paths current

-- What the paths use of strconv: `Quote`, and `Unquote` with `none` for its error.
pub record Quoting : Type 0 where
  pub quote : Text → Text
  pub unquote : Text → Option Text

-- The errors of `parseRedactionPath`.
pub data PathError : Type 0 where
  empty_path invalid_name unterminated not_quoted empty_key bad_subscript : PathError
  trailing_dot junk : PathError

pub data Result {ℓ} (A : Type ℓ) : Type ℓ where
  ok : A → Result A
  err : PathError → Result A

infixl 5 ◌>>=◌
abbrev pub ◌>>=◌ {ℓ κ} :
    {Got : Type ℓ} {Next : Type κ} → Result Got → (Got → Result Next) → Result Next
ok got >>= next = next got
err error >>= next = err error

-- a letter or underscore, and those, digits and hyphens
abbrev pub opens_name : ℕ → Bool
opens_name c = (leb b'a' c && leb c b'z') || (leb b'A' c && leb c b'Z') || c == b'_'

abbrev pub in_name : ℕ → Bool
in_name c = opens_name c || (leb b'0' c && leb c b'9') || c == b'-'

unfoldable pub all_in_name : Text → Bool
all_in_name [] = true
all_in_name (c ∷ s) = in_name c && all_in_name s

-- `redactionSegmentPattern.MatchString`
unfoldable pub is_segment_name : Text → Bool
unfolding all_in_name
is_segment_name [] = false
is_segment_name (c ∷ s) = opens_name c && all_in_name s

-- The text before the first byte that stops it, and the rest from that byte on.
unfoldable pub cut_at : (ℕ → Bool) → Text → Text × Text
cut_at stop [] = ([], [])
cut_at stop (c ∷ s) =
    let rest = cut_at stop s in if stop c then ([], c ∷ s) else (c ∷ rest.0, rest.1)

-- `parseSegmentName`
unfoldable pub parse_segment_name : Text → Result (Text × Text)
unfolding is_segment_name cut_at
parse_segment_name rest =
    let cut = cut_at (λ c. c == b'.' || c == b'[') rest in
    if is_segment_name cut.0 then ok cut else err invalid_name

abbrev pub plain : Text → RedactionSegment
plain name = record { name = name; wildcard = false }

abbrev quoted_key : Text → Option Text → Result (List RedactionSegment)
quoted_key name none = err not_quoted
quoted_key name (some key) = if key == [] then err empty_key else ok (plain name ∷ plain key ∷ [])

-- What a subscript makes of the segment before it.
unfoldable pub parse_subscript : Quoting → Text → Text → Result (List RedactionSegment)
parse_subscript lib name subscript =
    if subscript == b'*' ∷ []
    then ok (record { name = name; wildcard = true } ∷ [])
    else if has_prefix (b'"' ∷ []) subscript
    then quoted_key name (lib.unquote subscript)
    else err bad_subscript

abbrev pub subscripted : Quoting → Text → Text × Text → Result (List RedactionSegment × Text)
subscripted lib name (inside, []) = err unterminated
subscripted lib name (inside, bracket ∷ rest) = do
  segments ← parse_subscript lib name inside
  ok (segments, rest)

-- One round of the loop of `parseRedactionPath`, up to the separator.
unfoldable pub parse_segment : Quoting → Text × Text → Result (List RedactionSegment × Text)
unfolding parse_subscript cut_at
parse_segment lib (name, []) = ok (plain name ∷ [], [])
parse_segment lib (name, c ∷ rest) =
    if c == b'['
    then subscripted lib name (cut_at (λ d. d == b']') rest)
    else ok (plain name ∷ [], c ∷ rest)

-- What follows a segment: the end, or a dot and more.
unfoldable pub after_segment : Text → Result (Option Text)
after_segment [] = ok none
after_segment (c ∷ []) = if c == b'.' then err trailing_dot else err junk
after_segment (c ∷ d ∷ rest) = if c == b'.' then ok (some (d ∷ rest)) else err junk

-- The end of a round: the segments so far, before those of what is left.
unfoldable pub continue_path :
    (Text → Result (List RedactionSegment))
    → List RedactionSegment
    → Option Text
    → Result (List RedactionSegment)
continue_path parse segments none = ok segments
continue_path parse segments (some rest) = do others ← parse rest; ok (segments ++ others)

-- The loop of `parseRedactionPath`, on fuel: each round takes at least one byte.
unfoldable pub parse_segments : Quoting → ℕ → Text → Result (List RedactionSegment)
unfolding continue_path
parse_segments lib zero rest = err junk
parse_segments lib (suc fuel) rest = do
  named ← parse_segment_name rest
  (segments, remainder) ← parse_segment lib named
  more ← after_segment remainder
  continue_path (parse_segments lib fuel) segments more

-- `parseRedactionPath`
unfoldable pub parse_redaction_path : Quoting → Text → Result RedactionPath
unfolding parse_segments parse_segment_name parse_segment after_segment
parse_redaction_path lib raw =
    if raw == []
    then err empty_path
    else parse_segments lib (length raw) raw >>= λ segments.
        ok (record { raw = raw; segments = segments })

-- `AnnotationRedactionPath`
unfoldable pub annotation_redaction_path : Quoting → Text → Text
annotation_redaction_path lib key = codes "metadata.annotations[" ++ (lib.quote key ++ codes "]")

-- `builtinPaths`
unfoldable pub builtin_paths : Quoting → List Text
unfolding annotation_redaction_path
builtin_paths lib = annotation_redaction_path lib last_applied_config_annotation ∷ []

-- The loop of `CompileRedaction`: the paths not seen before, parsed in order.
unfoldable pub compile_all : Quoting → List Text → List Text → Result (List RedactionPath)
compile_all lib seen [] = ok []
compile_all lib seen (raw ∷ raws) =
    let skipped = compile_all lib seen raws in
    let compiled = (do
      path ← parse_redaction_path lib raw
      paths ← compile_all lib (raw ∷ seen) raws
      ok (path ∷ paths)) in
    if contains seen raw then skipped else compiled

abbrev pub compare_paths : RedactionPath → RedactionPath → Ordering
compare_paths a b = compare_text a.raw b.raw

-- `CompileRedaction`
unfoldable pub compile_redaction : Quoting → List Text → Result RedactionPolicy
unfolding compile_all
compile_redaction lib paths = do
  compiled ← compile_all lib [] (paths ++ builtin_paths lib)
  ok (record { paths = sort_stable compare_paths compiled })

-- The loop of `MergeRedaction` over one policy: the paths not seen before.
unfoldable pub merge_paths : List Text → List RedactionPath → List RedactionPath
merge_paths seen [] = []
merge_paths seen (path ∷ paths) =
    let skipped = merge_paths seen paths in
    let merged = path ∷ merge_paths (path.raw ∷ seen) paths in
    if contains seen path.raw then skipped else merged

-- The paths of the policies that are there, in order.
unfoldable pub all_paths : List (Option RedactionPolicy) → List RedactionPath
all_paths [] = []
all_paths (none ∷ policies) = all_paths policies
all_paths (some policy ∷ policies) = policy.paths ++ all_paths policies

abbrev policy_of : List RedactionPath → Option RedactionPolicy
policy_of [] = none
policy_of (path ∷ paths) = some (record { paths = sort_stable compare_paths (path ∷ paths) })

-- `MergeRedaction`
unfoldable pub merge_redaction : List (Option RedactionPolicy) → Option RedactionPolicy
unfolding merge_paths all_paths
merge_redaction policies = policy_of (merge_paths [] (all_paths policies))

-- `builtinRedaction`, the policy of which is a parameter of `Apply`'s nil case.
abbrev or_builtin : RedactionPolicy → Option RedactionPolicy → RedactionPolicy
or_builtin builtin none = builtin
or_builtin builtin (some policy) = policy

-- `Apply`, where `builtin` is the policy that the package compiles at its start
unfoldable pub apply : RedactionPolicy → Option RedactionPolicy → Fields → Option Fields
unfolding apply_paths
apply builtin policy object = apply_paths (or_builtin builtin policy).paths object
