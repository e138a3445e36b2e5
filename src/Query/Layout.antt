-- ===== src/Query/Layout.antt =====
-- internal/query/objectsource/layout.go and internal/sink/s3/encoder.go: where the archive keeps an object,
-- and what the reader lists. An instant is a number of nanoseconds since 1970, and one at the start of
-- an hour is its number of hours; a span reaches back to 1970 at most.
pub mod Keys
pub mod Tiling
use kuberecord.Base.{
  ℕ, zero, suc, ◌+◌, ◌-◌, ◌*◌, ◌/◌, Bool, not, ◌&&◌, List, [], ◌∷◌, ◌++◌, map, text_eq, nat_eq,
  ◌==◌, if◌then◌else◌, ltb,
}
use mathlib.Core.List.{reverse}
use kuberecord.Base.Text.{Text, codes, has_prefix}

-- `time.Time.Format` under the two layouts, at an hour.
pub record Calendar : Type 0 where
  pub date : ℕ → Text
  pub clock : ℕ → Text

abbrev pub hour : ℕ
hour = 3600000000000

abbrev pub hours_per_day : ℕ
hours_per_day = 24

abbrev pub format_partition : Text
format_partition = codes "format=jsonl-v1"

abbrev pub scopes_partition : Text
scopes_partition = codes "scopes"

abbrev pub object_suffix : Text
object_suffix = codes ".jsonl.zst"

-- `strings.Trim(s, "/")` from the left, and from both sides.
unfoldable pub trim_left : Text → Text
trim_left [] = []
trim_left (c ∷ s) = let rest = trim_left s in if c == b'/' then rest else c ∷ s

unfoldable pub trim : Text → Text
trim s = reverse (trim_left (reverse (trim_left s)))

-- The loop of `joinSegments`.
unfoldable pub kept_segments : List Text → List Text
kept_segments [] = []
kept_segments (s ∷ segments) =
    let rest = kept_segments segments in if not (s == []) then trim s ∷ rest else rest

-- `strings.Join(segments, "/")`
unfoldable pub join : List Text → Text
join [] = []
join (s ∷ []) = s
join (s ∷ t ∷ segments) = s ++ (b'/' ∷ join (t ∷ segments))

-- `joinSegments`
unfoldable pub join_segments : List Text → Text
join_segments segments = join (kept_segments segments)

-- `recordsRoot`
unfoldable pub records_root : Text → Text → Text
records_root prefix cluster_id =
    join_segments (prefix ∷ format_partition ∷ (codes "cluster_id=" ++ cluster_id) ∷ [])
    ++ (b'/' ∷ [])

-- `scopesRoot`
unfoldable pub scopes_root : Text → Text
scopes_root prefix =
    join_segments (prefix ∷ format_partition ∷ scopes_partition ∷ []) ++ (b'/' ∷ [])

-- `strings.HasSuffix(s, suffix)`
unfoldable pub has_suffix : Text → Text → Bool
has_suffix suffix s = has_prefix (reverse suffix) (reverse s)

-- `isObjectKey`
unfoldable pub is_object_key : Text → Bool
is_object_key key = has_suffix object_suffix key

-- `partition`
pub record Partition : Type 0 where
  pub prefix : Text
  pub start : ℕ

-- `hourStart` and `dayStart`
unfoldable pub hour_start : ℕ → ℕ
hour_start t = t / hour

unfoldable pub day_start : ℕ → ℕ
day_start h = h / hours_per_day * hours_per_day

-- The partition of a whole day, and of an hour.
abbrev pub day_prefix : Calendar → Text → ℕ → Text
day_prefix cal root h = root ++ (codes "date=" ++ (cal.date h ++ (b'/' ∷ [])))

abbrev pub hour_prefix : Calendar → Text → ℕ → Text
hour_prefix cal root h =
    root
    ++ (codes "date=" ++ (cal.date h ++ (b'/' ∷ codes "hour=" ++ (cal.clock h ++ (b'/' ∷ [])))))

-- The test for a day that is covered whole.
unfoldable pub whole_day : ℕ → ℕ → Bool
whole_day cur end = cur == day_start cur && not (ltb end (day_start cur + (hours_per_day - 1)))

-- The loop of `partitionSpans`; each round goes on by an hour at least.
unfoldable pub spans : Calendar → Text → ℕ → ℕ → ℕ → List Partition
spans cal root zero cur end = []
spans cal root (suc fuel) cur end =
    let day =
      record { prefix = day_prefix cal root cur; start = cur }
      ∷ spans cal root fuel (cur + hours_per_day) end in
    let partial =
      record { prefix = hour_prefix cal root cur; start = cur }
      ∷ spans cal root fuel (cur + 1) end in
    if ltb end cur then [] else if whole_day cur end then day else partial

-- `partitionSpans`
unfoldable pub partition_spans : Calendar → Text → (from to span : ℕ) → List Partition
partition_spans cal root from to span =
    let start = hour_start (from - span) in
    let end = hour_start to in spans cal root (suc end - start) start end

-- `partitionPrefixes`
unfoldable pub partition_prefixes : Calendar → Text → (from to span : ℕ) → List Text
partition_prefixes cal root from to span =
    map (λ (q : Partition). q.prefix) (partition_spans cal root from to span)

-- The hours of `dayPrefixes`.
unfoldable pub hour_prefixes : Calendar → Text → (count cur : ℕ) → List Text
hour_prefixes cal root zero cur = []
hour_prefixes cal root (suc count) cur =
    hour_prefix cal root cur ∷ hour_prefixes cal root count (cur + 1)

-- `dayPrefixes`, where `day` and `through` are hours
unfoldable pub day_prefixes : Calendar → Text → (day through : ℕ) → List Text
day_prefixes cal root day through =
    let first = day_start day in
    if ltb through first
    then []
    else if not (ltb through (first + (hours_per_day - 1)))
    then day_prefix cal root first ∷ []
    else hour_prefixes cal root (suc through - first) first

-- `objectKey`, of an object whose first record is at `ts`
unfoldable pub object_key : Calendar → Text → Text → ℕ → Text → Text
object_key cal prefix cluster_id ts content_hash =
    let rest =
      format_partition
      ∷ (codes "cluster_id=" ++ cluster_id)
      ∷ (codes "date=" ++ cal.date (ts / hour))
      ∷ (codes "hour=" ++ cal.clock (ts / hour))
      ∷ (content_hash ++ object_suffix)
      ∷ [] in
    join (if not (prefix == []) then prefix ∷ rest else rest)
