-- ===== src/Query/Layout/Tiling.antt =====
-- The listed partitions tile the hours of a window: each object of it is listed once.
use kuberecord.Base.{
  ℕ, zero, suc, ◌+◌, ◌-◌, ◌/◌, ◌≡◌, ◌≤◌, true, ◌&&◌, List, [], ◌∷◌, ◌++◌, arith, refl, ◌∙◌, nat_eq,
  ◌==◌, if◌then◌else◌, ltb, leb, Bool-cases, inl, inr,
}
use kuberecord.Base.Text.{Text, has_prefix}
use kuberecord.Query.Layout.{
  Calendar, Partition, hour, hour_start, day_start, day_prefix, hour_prefix, whole_day, spans,
  partition_spans, records_root, object_key,
}
use kuberecord.Query.Layout.Keys.{
  IsCalendar, IsPlain, tail, object_key-tail, has_prefix-day, has_prefix-hour,
}

-- How often a listing of the partitions gives the key.
unfoldable pub times_listed : List Partition → Text → ℕ
times_listed [] key = 0
times_listed (q ∷ qs) key =
    let rest = times_listed qs key in if has_prefix q.prefix key then suc rest else rest

-- whether an hour lies in the range that is left
abbrev within : ℕ → ℕ → ℕ → ℕ
within cur end k = if leb cur k && leb k end then 1 else 0

day_tiles :
    (cur end k : ℕ)
    → whole_day cur end ≡ true
    → (if cur / 24 == k / 24 then suc (within (cur + 24) end k) else within (cur + 24) end k)
      ≡ within cur end k
unfolding whole_day day_start
day_tiles cur end k w = ground arith

hour_tiles :
    (cur end k : ℕ)
    → cur ≤ end
    → (if cur == k then suc (within (cur + 1) end k) else within (cur + 1) end k) ≡ within cur end k
hour_tiles cur end k h = ground arith

in_range : (a b d : ℕ) → a ≤ b → b ≤ d → within a d b ≡ 1
in_range a b d h k = ground arith

module _ (cal : Calendar) (c : IsCalendar cal) (root content_hash : Text) (k : ℕ) where
  abbrev key : Text
  key = root ++ tail cal k content_hash

  day_first :
      (qs : List Partition) (cur : ℕ)
      → times_listed (record { prefix = day_prefix cal root cur; start = cur } ∷ qs) key
        ≡ (if cur / 24 == k / 24 then suc (times_listed qs key) else times_listed qs key)
  unfolding times_listed
  day_first qs cur = rw (has_prefix-day cal c cur k root content_hash) refl

  hour_first :
      (qs : List Partition) (cur : ℕ)
      → times_listed (record { prefix = hour_prefix cal root cur; start = cur } ∷ qs) key
        ≡ (if cur == k then suc (times_listed qs key) else times_listed qs key)
  unfolding times_listed
  hour_first qs cur = rw (has_prefix-hour cal c cur k root content_hash) refl

  times_listed-spans :
      (fuel cur end : ℕ)
      → suc end ≤ cur + fuel
      → times_listed (spans cal root fuel cur end) key ≡ within cur end k
  unfolding spans times_listed
  times_listed-spans zero cur end h = ground arith
  times_listed-spans (suc fuel) cur end h = elim (Bool-cases (ltb end cur)) [
    | inl past ↦ rw past (ground arith)
    | inr more ↦ elim (Bool-cases (whole_day cur end)) [
      | inl whole ↦ rw more (
          rw whole (
            day_first (spans cal root fuel (cur + 24) end) cur
            ∙ rw (times_listed-spans fuel (cur + 24) end (omega arith))
                (day_tiles cur end k whole)))
      | inr partial ↦ rw more (
          rw partial (
            hour_first (spans cal root fuel (cur + 1) end) cur
            ∙ rw (times_listed-spans fuel (cur + 1) end (omega arith))
                (hour_tiles cur end k (ground arith))))
    ]
  ]

-- For an object that the writer files under its first record's time, with a prefix and a cluster that
-- have no slashes at their ends: a reader of a window lists it exactly once if that time's hour lies
-- between the hours of the window's start, less the span, and of its end; and otherwise not at all.
pub partition_spans-lists :
    (cal : Calendar) (prefix cluster_id content_hash : Text) (first from to span : ℕ)
    → IsCalendar cal
    → IsPlain prefix cluster_id
    → times_listed
        (partition_spans cal (records_root prefix cluster_id) from to span)
        (object_key cal prefix cluster_id first content_hash)
      ≡ (if leb ((from - span) / hour) (first / hour) && leb (first / hour) (to / hour)
          then 1
          else 0)
unfolding partition_spans hour_start
partition_spans-lists cal prefix cluster_id content_hash first from to span c v =
    rw (object_key-tail cal prefix cluster_id first content_hash v) (
      times_listed-spans cal c (records_root prefix cluster_id) content_hash (first / hour)
        (suc (to / hour) - (from - span) / hour) ((from - span) / hour) (to / hour) (omega arith))

-- Where dates and hours are formatted one to one and without a slash, and neither the prefix nor the
-- cluster's segment has a slash at its end or the prefix one at its start: an object that holds a record
-- of the window, and took its first one at most the span earlier, is listed exactly once.
pub partition_spans-finds :
    (cal : Calendar) (prefix cluster_id content_hash : Text) (first ts from to span : ℕ)
    → IsCalendar cal
    → IsPlain prefix cluster_id
    → first ≤ ts
    → ts ≤ first + span
    → from ≤ ts
    → ts ≤ to
    → times_listed
        (partition_spans cal (records_root prefix cluster_id) from to span)
        (object_key cal prefix cluster_id first content_hash)
      ≡ 1
partition_spans-finds cal prefix cluster_id content_hash first ts from to span c v before age after
      until =
    partition_spans-lists cal prefix cluster_id content_hash first from to span c v
    ∙ in_range ((from - span) / hour) (first / hour) (to / hour) (omega arith) (omega arith)
