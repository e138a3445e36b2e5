-- ===== src/Examples/Filters.antt =====
-- Two filters on Events, and an Event that the second one asks for.
use kuberecord.Base.{
  ◌≡◌, Bool, true, false, ◌&&◌, ◌||◌, Option, some, none, List, [], ◌∷◌, All, arith, refl,
  if◌then◌else◌, text_eq, nat_eq, ◌==◌, List-ℕ_discrete,
}
use native.Mathlib.Decide.{ℕ_discrete}
use mathlib.Core.Path.{subst}
use kuberecord.Base.Json.{str, Fields, end, field, get}
use kuberecord.Base.Sorting.{sort_stable}
use kuberecord.Base.Text.{Text, codes}
use kuberecord.Watch.EventFilter.{
  EventFilterSpec, FieldTerm, equal, not_equal, FilterLibrary, EventFieldLabels, GroupResource,
  EventMatcher, event_selectable_fields, compile_event_filters, matches, plain_string,
  subject_field, nested_string, canonical_event_filter, canonical_spec, canonical_event_filter_list,
  constrains_nothing, non_empty_values, compact_after,
}
use kuberecord.Watch.EventFilter.PushDown.{Holds, Reads, IsEventApi, IsFilterCodec, Texts}
use kuberecord.Watch.EventFilter.Recording.{some_admits, compile_event_filters-records}

-- A filter on one type, or the exclusion of one reason.
abbrev types_only : Text → EventFilterSpec
types_only v = record {
  types = v ∷ [];
  reasons = [];
  exclude_reasons = [];
  source_components = [];
  subject_kinds = [];
  subject_names = [];
}

abbrev excluding_only : Text → EventFilterSpec
excluding_only v = record {
  types = [];
  reasons = [];
  exclude_reasons = v ∷ [];
  source_components = [];
  subject_kinds = [];
  subject_names = [];
}

-- An encoding of these alone; it fails on others.
abbrev encode : (types reasons excluded components kinds names : List Text) → Option Text
encode (v ∷ []) [] [] [] [] [] = some (1 ∷ v)
encode [] [] (v ∷ []) [] [] [] = some (2 ∷ v)
encode _ _ _ _ _ _ = none

abbrev decode : Text → Option EventFilterSpec
decode [] = none
decode (c ∷ v) = some (if c == 1 then types_only v else excluding_only v)

-- Selectors of one condition on the type.
abbrev selector_text : List FieldTerm → Text
selector_text (equal label value ∷ []) = if label == codes "type" then 61 ∷ value else []
selector_text _ = []

abbrev pub filters : FilterLibrary
filters = record {
  marshal = λ s.
      encode s.types s.reasons s.exclude_reasons s.source_components s.subject_kinds
        s.subject_names;
  unmarshal = decode;
  and_selectors = selector_text;
}

encode-decode :
    (types reasons excluded components kinds names : List Text) (raw : Text)
    → encode types reasons excluded components kinds names ≡ some raw
    → (decode raw
        ≡ some (record {
          types = types;
          reasons = reasons;
          exclude_reasons = excluded;
          source_components = components;
          subject_kinds = kinds;
          subject_names = names;
        }))
      × ((raw == []) ≡ false)
unfolding ℕ_discrete List-ℕ_discrete
encode-decode (v ∷ []) [] [] [] [] [] raw e =
    let same : 1 ∷ v ≡ raw = cc in rw (← same) (refl, refl)
encode-decode [] [] (v ∷ []) [] [] [] raw e =
    let same : 2 ∷ v ≡ raw = cc in rw (← same) (refl, refl)
encode-decode _ _ _ _ _ _ raw e = absurd (ground arith)

filters-IsFilterCodec : IsFilterCodec filters
filters-IsFilterCodec = record {
  decoded = λ s raw e.
      (encode-decode s.types s.reasons s.exclude_reasons s.source_components s.subject_kinds
        s.subject_names raw e).0;
  written = λ s raw e.
      (encode-decode s.types s.reasons s.exclude_reasons s.source_components s.subject_kinds
        s.subject_names raw e).1;
}

abbrev core_events : GroupResource
core_events = record { group = []; resource = codes "events" }

abbrev event : Fields
event =
    field (codes "type") (str (codes "Warning"))
      (field (codes "reason") (str (codes "Killing")) end)

some_labels : {a b : EventFieldLabels} → some a ≡ some b → a ≡ b
some_labels e = cc

-- The labels of the Event.
abbrev label_of : Text → Text
label_of label =
    if label == codes "type"
    then codes "Warning"
    else if label == codes "reason"
    then codes "Killing"
    else []

abbrev served : Text → Bool
served raw = raw == [] || raw == 61 ∷ codes "Warning"

core_Reads :
    (labels : EventFieldLabels)
    → event_selectable_fields core_events ≡ some labels
    → Reads label_of labels event
unfolding ℕ_discrete List-ℕ_discrete event_selectable_fields plain_string subject_field get
    nested_string
core_Reads labels e =
    subst (λ (o : EventFieldLabels). Reads label_of o event) (some_labels e)
      (record { types = refl; reasons = refl; kinds = refl; names = refl })

sole_type :
    (value : Text) (b : Bool) (label : Text)
    → (label == codes "type") ≡ b
    → label_of label ≡ value
    → served (if b then 61 ∷ value else []) ≡ true
unfolding ℕ_discrete List-ℕ_discrete
sole_type value true label y h = let same : codes "Warning" ≡ value = rw y at h in rw (← same) refl
sole_type value false label n h = refl

served-Holds :
    (terms : List FieldTerm) → All (Holds label_of) terms → served (selector_text terms) ≡ true
unfolding ℕ_discrete List-ℕ_discrete
served-Holds [] h = refl
served-Holds (equal label value ∷ []) h = sole_type value _ label refl h.0
served-Holds (not_equal label value ∷ []) h = refl
served-Holds (equal _ _ ∷ _ ∷ _) h = refl
served-Holds (not_equal _ _ ∷ _ ∷ _) h = refl

served-IsEventApi : IsEventApi filters core_events event label_of served
unfolding ℕ_discrete List-ℕ_discrete
served-IsEventApi = record { everything = refl; selects = served-Holds; registered = core_Reads }

abbrev two_filters : List EventFilterSpec
two_filters = types_only (codes "Normal") ∷ excluding_only (codes "Pulled") ∷ []

abbrev two_texts : List Text
two_texts = (1 ∷ codes "Normal") ∷ (2 ∷ codes "Pulled") ∷ []

two_Texts : Texts filters two_filters two_texts
unfolding ℕ_discrete List-ℕ_discrete canonical_event_filter constrains_nothing canonical_spec
    canonical_event_filter_list sort_stable non_empty_values compact_after
two_Texts = (refl, (refl, tt))

compile_event_filters-records_example :
    (m : EventMatcher) × (compile_event_filters filters core_events two_texts ≡ some m)
    × ((served m.field_selector && matches m event) ≡ some_admits two_filters event)
compile_event_filters-records_example =
    compile_event_filters-records filters core_events event label_of served
      (types_only (codes "Normal")) (excluding_only (codes "Pulled") ∷ []) two_texts
      filters-IsFilterCodec served-IsEventApi two_Texts
