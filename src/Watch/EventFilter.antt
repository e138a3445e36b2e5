-- ===== src/Watch/EventFilter.antt =====
-- internal/watch/eventfilter.go: filters on Events, their canonical text, and the part of a filter that
-- the API server evaluates. A set of values is a list in which each stands once.
pub mod PushDown
pub mod Meaning
pub mod Recording
use kuberecord.Base.{
  Bool, true, false, not, ◌&&◌, ◌||◌, Option, none, some, List, [], ◌∷◌, ◌++◌, map, text_eq, ◌==◌,
  if◌then◌else◌, length, contains, nat_eq,
}
use kuberecord.Base.Json.{Value, str, obj, Fields, get}
use kuberecord.Base.Sorting.{sort_stable}
use kuberecord.Base.Text.{Text, codes, compare_text}

-- `EventFilterSpec`
pub record EventFilterSpec : Type 0 where
  pub types : List Text
  pub reasons : List Text
  pub exclude_reasons : List Text
  pub source_components : List Text
  pub subject_kinds : List Text
  pub subject_names : List Text

-- A condition of a field selector.
pub data FieldTerm : Type 0 where
  equal : (label value : Text) → FieldTerm
  not_equal : (label value : Text) → FieldTerm

-- What filters use of their libraries: `json.Marshal`, `json.Unmarshal`, and the text of the
-- conjunction of k8s.io/apimachinery's selectors; `none` is an error.
pub record FilterLibrary : Type 0 where
  pub marshal : EventFilterSpec → Option Text
  pub unmarshal : Text → Option EventFilterSpec
  pub and_selectors : List FieldTerm → Text

-- The loop of `canonicalEventFilterList`.
unfoldable pub non_empty_values : List Text → List Text
non_empty_values [] = []
non_empty_values (value ∷ values) =
    let rest = non_empty_values values in if value == [] then rest else value ∷ rest

-- `slices.Compact` after a value
unfoldable pub compact_after : Text → List Text → List Text
compact_after last [] = []
compact_after last (value ∷ values) =
    let rest = compact_after value values in if value == last then rest else value ∷ rest

abbrev pub compact : List Text → List Text
compact [] = []
compact (value ∷ values) = value ∷ compact_after value values

-- `canonicalEventFilterList`; an empty list is nil.
unfoldable pub canonical_event_filter_list : List Text → List Text
canonical_event_filter_list values = compact (sort_stable compare_text (non_empty_values values))

abbrev pub no_values : List Text → Bool
no_values [] = true
no_values (_ ∷ _) = false

-- `constrainsNothing`
unfoldable pub constrains_nothing : EventFilterSpec → Bool
constrains_nothing s =
    no_values s.types
    && no_values s.reasons
    && no_values s.exclude_reasons
    && no_values s.source_components
    && no_values s.subject_kinds
    && no_values s.subject_names

unfoldable pub canonical_spec : EventFilterSpec → EventFilterSpec
canonical_spec s = record {
  types = canonical_event_filter_list s.types;
  reasons = canonical_event_filter_list s.reasons;
  exclude_reasons = canonical_event_filter_list s.exclude_reasons;
  source_components = canonical_event_filter_list s.source_components;
  subject_kinds = canonical_event_filter_list s.subject_kinds;
  subject_names = canonical_event_filter_list s.subject_names;
}

-- `CanonicalEventFilter`; `none` is its error.
unfoldable pub canonical_event_filter : FilterLibrary → EventFilterSpec → Option Text
canonical_event_filter lib s =
    if constrains_nothing (canonical_spec s) then some [] else lib.marshal (canonical_spec s)

-- `newEventFieldSet`
unfoldable pub new_event_field_set : List Text → List Text
new_event_field_set [] = []
new_event_field_set (value ∷ values) =
    let rest = new_event_field_set values in if contains rest value then rest else value ∷ rest

-- `compiledEventFilter`, as `compileEventFilters` makes it
unfoldable pub compiled_event_filter : EventFilterSpec → EventFilterSpec
compiled_event_filter s = record {
  types = new_event_field_set s.types;
  reasons = new_event_field_set s.reasons;
  exclude_reasons = new_event_field_set s.exclude_reasons;
  source_components = new_event_field_set s.source_components;
  subject_kinds = new_event_field_set s.subject_kinds;
  subject_names = new_event_field_set s.subject_names;
}

-- `eventFieldLabels`
pub record EventFieldLabels : Type 0 where
  pub event_type : Text
  pub reason : Text
  pub subject_kind : Text
  pub subject_name : Text

-- `schema.GroupResource`
pub record GroupResource : Type 0 where
  pub group : Text
  pub resource : Text

-- `eventSelectableFields`
unfoldable pub event_selectable_fields : GroupResource → Option EventFieldLabels
event_selectable_fields gr =
    if gr.group == [] && gr.resource == codes "events"
    then some (record {
      event_type = codes "type";
      reason = codes "reason";
      subject_kind = codes "involvedObject.kind";
      subject_name = codes "involvedObject.name";
    })
    else if gr.group == codes "events.k8s.io" && gr.resource == codes "events"
    then some (record {
      event_type = codes "type";
      reason = codes "reason";
      subject_kind = codes "regarding.kind";
      subject_name = codes "regarding.name";
    })
    else none

-- A condition where there is exactly one value.
abbrev pub sole_term : Text → List Text → List FieldTerm
sole_term label (value ∷ []) = equal label value ∷ []
sole_term label _ = []

-- The switch on the reasons.
abbrev pub reason_terms : Text → List Text → List Text → List FieldTerm
reason_terms label (reason ∷ []) [] = equal label reason ∷ []
reason_terms label [] excluded = map (not_equal label) excluded
reason_terms label _ _ = []

-- The terms of `deriveEventFieldSelector`.
unfoldable pub event_field_terms : EventFieldLabels → EventFilterSpec → List FieldTerm
event_field_terms labels s =
    sole_term labels.event_type s.types
    ++ (reason_terms labels.reason s.reasons s.exclude_reasons
        ++ (sole_term labels.subject_kind s.subject_kinds
            ++ sole_term labels.subject_name s.subject_names))

abbrev pub selector_of : FilterLibrary → List FieldTerm → Text
selector_of lib [] = []
selector_of lib (term ∷ terms) = lib.and_selectors (term ∷ terms)

abbrev pub selector_for : FilterLibrary → EventFilterSpec → Option EventFieldLabels → Text
selector_for lib s none = []
selector_for lib s (some labels) = selector_of lib (event_field_terms labels s)

-- `deriveEventFieldSelector`
unfoldable pub derive_event_field_selector : FilterLibrary → GroupResource → EventFilterSpec → Text
derive_event_field_selector lib gr s = selector_for lib s (event_selectable_fields gr)

-- `eventMatcher`
pub record EventMatcher : Type 0 where
  pub match_all : Bool
  pub filters : List EventFilterSpec
  pub field_selector : Text

abbrev pub no_spec : EventFilterSpec
no_spec = record {
  types = [];
  reasons = [];
  exclude_reasons = [];
  source_components = [];
  subject_kinds = [];
  subject_names = [];
}

abbrev pub with_spec :
    (EventMatcher → EventFilterSpec → Option (EventMatcher × EventFilterSpec))
    → EventMatcher
    → Option EventFilterSpec
    → Option (EventMatcher × EventFilterSpec)
with_spec next m none = none
with_spec next m (some s) =
    next (record m { filters = m.filters ++ (compiled_event_filter s ∷ []) }) s

-- The loop of `compileEventFilters`, with `sole`; `none` is an error of `json.Unmarshal`.
unfoldable pub compile_loop :
    FilterLibrary
    → List Text
    → EventMatcher
    → EventFilterSpec
    → Option (EventMatcher × EventFilterSpec)
compile_loop lib [] m sole = some (m, sole)
compile_loop lib (raw ∷ raws) m sole =
    let open_filter = compile_loop lib raws (record m { match_all = true }) sole in
    let decoded = with_spec (compile_loop lib raws) m (lib.unmarshal raw) in
    if raw == [] then open_filter else decoded

-- The end of `compileEventFilters`.
abbrev pub without_filters : EventMatcher → Bool
without_filters m = length m.filters == 0

unfoldable pub finish_matcher :
    FilterLibrary → GroupResource → EventMatcher × EventFilterSpec → EventMatcher
finish_matcher lib gr (m, sole) =
    let match_all = m.match_all || without_filters m in
    record m {
      match_all = match_all;
      field_selector =
          if not match_all && length m.filters == 1
          then derive_event_field_selector lib gr sole
          else [];
    }

abbrev pub empty_matcher : EventMatcher
empty_matcher = record { match_all = false; filters = []; field_selector = [] }

abbrev pub finished :
    FilterLibrary → GroupResource → Option (EventMatcher × EventFilterSpec) → Option EventMatcher
finished lib gr none = none
finished lib gr (some r) = some (finish_matcher lib gr r)

-- `compileEventFilters`; `none` is its error.
unfoldable pub compile_event_filters :
    FilterLibrary → GroupResource → List Text → Option EventMatcher
compile_event_filters lib gr canonical =
    finished lib gr (compile_loop lib canonical empty_matcher no_spec)

abbrev pub string_or_empty : Option Value → Text
string_or_empty (some (str s)) = s
string_or_empty _ = []

-- `plainString`
unfoldable pub plain_string : Fields → Text → Text
plain_string object field = string_or_empty (get field object)

abbrev pub inner_string : Text → Option Value → Text
inner_string field (some (obj inner)) = plain_string inner field
inner_string field _ = []

-- `nestedString`
unfoldable pub nested_string : Fields → Text → Text → Text
nested_string object outer field = inner_string field (get outer object)

-- `inEventFilterSet`
unfoldable pub in_event_filter_set : List Text → Text → Bool
in_event_filter_set set value = not (value == []) && contains set value

-- `componentMatches`
unfoldable pub component_matches : List Text → Fields → Bool
component_matches set object =
    in_event_filter_set set (nested_string object (codes "source") (codes "component"))
    || in_event_filter_set set (plain_string object (codes "reportingComponent"))
    || in_event_filter_set set (plain_string object (codes "reportingController"))
    || in_event_filter_set set (nested_string object (codes "deprecatedSource") (codes "component"))

-- `subjectField`
unfoldable pub subject_field : Fields → Text → Text
subject_field object field =
    let legacy = nested_string object (codes "involvedObject") field in
    if legacy == [] then nested_string object (codes "regarding") field else legacy

-- `compiledEventFilter.matches`
unfoldable pub filter_matches : EventFilterSpec → Fields → Bool
filter_matches f object =
    let reason = plain_string object (codes "reason") in
    (no_values f.types || in_event_filter_set f.types (plain_string object (codes "type")))
    && (no_values f.reasons || in_event_filter_set f.reasons reason)
    && not (not (no_values f.exclude_reasons) && in_event_filter_set f.exclude_reasons reason)
    && (no_values f.source_components || component_matches f.source_components object)
    && (no_values f.subject_kinds
        || in_event_filter_set f.subject_kinds (subject_field object (codes "kind")))
    && (no_values f.subject_names
        || in_event_filter_set f.subject_names (subject_field object (codes "name")))

unfoldable pub some_matches : List EventFilterSpec → Fields → Bool
some_matches [] object = false
some_matches (f ∷ fs) object = filter_matches f object || some_matches fs object

-- `eventMatcher.matches`; a nil matcher is one that matches all.
unfoldable pub matches : EventMatcher → Fields → Bool
matches m object = m.match_all || some_matches m.filters object
