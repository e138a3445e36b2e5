-- ===== src/Watch/EventFilter/Meaning.antt =====
-- What a filter's canonical text keeps of it, and what compiling canonical texts makes.
use kuberecord.Base.{
  ◌≡◌, Bool, true, false, not, ◌&&◌, ◌||◌, List, [], ◌∷◌, arith, refl, ◌∙◌, text_eq, nat_eq, ◌==◌,
  contains,
}
use Prim.Native.Nat.{Ordering}
use kuberecord.Base.Sorting.{insert_stable, sort_stable}
use kuberecord.Base.Json.{Fields}
use kuberecord.Base.Text.{Text, codes, compare_text}
use kuberecord.Watch.EventFilter.PushDown.{contains-new_set, no_values-new_set}
use kuberecord.Watch.EventFilter.{
  canonical_event_filter_list, non_empty_values, compact, compact_after, no_values,
  in_event_filter_set, new_event_field_set, filter_matches, compiled_event_filter, canonical_spec,
  component_matches, plain_string, nested_string, subject_field, EventFilterSpec,
  constrains_nothing,
}

contains-insert_stable :
    (cmp : Text → Text → Ordering) (x v : Text) (ys : List Text)
    → contains (insert_stable cmp x ys) v ≡ (x == v || contains ys v)
unfolding contains insert_stable
contains-insert_stable cmp x v [] = refl
contains-insert_stable cmp x v (y ∷ ys) = ground (arith, contains-insert_stable cmp x v ys)

contains-sort_stable :
    (cmp : Text → Text → Ordering) (xs : List Text) (v : Text)
    → contains (sort_stable cmp xs) v ≡ contains xs v
unfolding contains sort_stable
contains-sort_stable cmp [] v = refl
contains-sort_stable cmp (x ∷ xs) v =
    contains-insert_stable cmp x v (sort_stable cmp xs) ∙ rw (contains-sort_stable cmp xs v) refl

contains-non_empty :
    (xs : List Text) (v : Text) → contains (non_empty_values xs) v ≡ in_event_filter_set xs v
unfolding contains non_empty_values in_event_filter_set
contains-non_empty [] v = ground arith
contains-non_empty ([] ∷ xs) [] = ground (arith, contains-non_empty xs [])
contains-non_empty ([] ∷ xs) (d ∷ v) = ground (arith, contains-non_empty xs (d ∷ v))
contains-non_empty ((c ∷ x) ∷ xs) [] = ground (arith, contains-non_empty xs [])
contains-non_empty ((c ∷ x) ∷ xs) (d ∷ v) = ground (arith, contains-non_empty xs (d ∷ v))

contains-compact_after :
    (last v : Text) (xs : List Text)
    → (last == v || contains (compact_after last xs) v) ≡ (last == v || contains xs v)
unfolding contains compact_after
contains-compact_after last v [] = refl
contains-compact_after last v (x ∷ xs) = ground (arith, contains-compact_after x v xs)

contains-compact : (xs : List Text) (v : Text) → contains (compact xs) v ≡ contains xs v
unfolding contains
contains-compact [] v = refl
contains-compact (x ∷ xs) v = contains-compact_after x v xs

-- the canonical list has the values that are not empty
pub contains-canonical :
    (xs : List Text) (v : Text)
    → contains (canonical_event_filter_list xs) v ≡ in_event_filter_set xs v
unfolding canonical_event_filter_list
contains-canonical xs v =
    contains-compact (sort_stable compare_text (non_empty_values xs)) v
    ∙ contains-sort_stable compare_text (non_empty_values xs) v
    ∙ contains-non_empty xs v

no_values-insert_stable :
    (cmp : Text → Text → Ordering) (x : Text) (ys : List Text)
    → no_values (insert_stable cmp x ys) ≡ false
unfolding insert_stable
no_values-insert_stable cmp x [] = refl
no_values-insert_stable cmp x (y ∷ ys) = ground arith

no_values-sort_stable :
    (cmp : Text → Text → Ordering) (xs : List Text) → no_values (sort_stable cmp xs) ≡ no_values xs
unfolding sort_stable
no_values-sort_stable cmp [] = refl
no_values-sort_stable cmp (x ∷ xs) = no_values-insert_stable cmp x (sort_stable cmp xs)

no_values-compact : (xs : List Text) → no_values (compact xs) ≡ no_values xs
no_values-compact [] = refl
no_values-compact (x ∷ xs) = refl

-- Nothing is listed that is not empty.
unfoldable pub is_free : List Text → Bool
is_free [] = true
is_free (v ∷ vs) = v == [] && is_free vs

no_values-non_empty : (xs : List Text) → no_values (non_empty_values xs) ≡ is_free xs
unfolding non_empty_values is_free
no_values-non_empty [] = refl
no_values-non_empty (x ∷ xs) = ground (arith, no_values-non_empty xs)

no_values-canonical : (xs : List Text) → no_values (canonical_event_filter_list xs) ≡ is_free xs
unfolding canonical_event_filter_list
no_values-canonical xs =
    no_values-compact (sort_stable compare_text (non_empty_values xs))
    ∙ no_values-sort_stable compare_text (non_empty_values xs)
    ∙ no_values-non_empty xs

-- the set that is compiled of a list, and the list
abbrev compiled_set : List Text → List Text
compiled_set xs = new_event_field_set (canonical_event_filter_list xs)

no_values-compiled : (xs : List Text) → no_values (compiled_set xs) ≡ is_free xs
no_values-compiled xs = no_values-new_set (canonical_event_filter_list xs) ∙ no_values-canonical xs

in_compiled :
    (xs : List Text) (v : Text) → in_event_filter_set (compiled_set xs) v ≡ in_event_filter_set xs v
unfolding in_event_filter_set
in_compiled xs v =
    let kept : contains (canonical_event_filter_list xs) v ≡ (not (v == []) && contains xs v) =
      contains-canonical xs v in
    ground (arith, contains-new_set (canonical_event_filter_list xs) v)

listed-is_free : (xs : List Text) (v : Text) → is_free xs ≡ true → in_event_filter_set xs v ≡ false
unfolding is_free in_event_filter_set contains
listed-is_free [] v h = ground arith
listed-is_free (x ∷ xs) v h = ground (arith, listed-is_free xs v)

-- What an author's filter asks of an Event: each facet that lists something lists the Event's value,
-- any of the four spellings of its source, and its reason is not excluded. An empty value is listed
-- nowhere.
unfoldable pub admits : EventFilterSpec → Fields → Bool
admits s object =
    let listed = in_event_filter_set in
    let reason = plain_string object (codes "reason") in
    (is_free s.types || listed s.types (plain_string object (codes "type")))
    && (is_free s.reasons || listed s.reasons reason)
    && not (listed s.exclude_reasons reason)
    && (is_free s.source_components
        || (listed s.source_components (nested_string object (codes "source") (codes "component"))
            || listed s.source_components (plain_string object (codes "reportingComponent"))
            || listed s.source_components (plain_string object (codes "reportingController"))
            || listed s.source_components
                (nested_string object (codes "deprecatedSource") (codes "component"))))
    && (is_free s.subject_kinds || listed s.subject_kinds (subject_field object (codes "kind")))
    && (is_free s.subject_names || listed s.subject_names (subject_field object (codes "name")))

excludes_same :
    (xs : List Text) (v : Text)
    → not (not (no_values (compiled_set xs)) && in_event_filter_set (compiled_set xs) v)
      ≡ not (in_event_filter_set xs v)
excludes_same xs v =
    rw (no_values-compiled xs) (rw (in_compiled xs v) (ground (arith, listed-is_free xs v)))

pub filter_matches-canonical :
    (s : EventFilterSpec) (object : Fields)
    → filter_matches (compiled_event_filter (canonical_spec s)) object ≡ admits s object
unfolding filter_matches compiled_event_filter canonical_spec admits component_matches
filter_matches-canonical s object = rw (excludes_same s.exclude_reasons _) (
    rw
      (
        no_values-compiled s.types,
        no_values-compiled s.reasons,
        no_values-compiled s.source_components,
        no_values-compiled s.subject_kinds,
        no_values-compiled s.subject_names,
      )
      (simp in_compiled))

pub is_free-admits :
    (s : EventFilterSpec) (object : Fields)
    → constrains_nothing (canonical_spec s) ≡ true
    → admits s object ≡ true
unfolding constrains_nothing canonical_spec admits
is_free-admits s object h = ground (
  arith,
  no_values-canonical s.types,
  no_values-canonical s.reasons,
  no_values-canonical s.exclude_reasons,
  no_values-canonical s.source_components,
  no_values-canonical s.subject_kinds,
  no_values-canonical s.subject_names,
  listed-is_free s.exclude_reasons (plain_string object (codes "reason")),
)
