-- ===== src/Watch/EventFilter/PushDown.antt =====
-- The API server drops no Event that the filters want.
use kuberecord.Base.{
  ◌≡◌, ◌≢◌, ◌⊎◌, inl, inr, Bool, true, false, not, ◌&&◌, ◌||◌, Option, none, some, List, [], ◌∷◌,
  ◌++◌, map, arith, refl, ◌∙◌, text_eq, nat_eq, ◌==◌, length, contains, All, All-append, Bool-cases,
  Option-cases,
}
use mathlib.Core.Path.{subst}
use kuberecord.Base.Json.{Fields}
use kuberecord.Base.Text.{Text, codes}
use kuberecord.Watch.EventFilter.{
  EventFilterSpec, FieldTerm, equal, not_equal, FilterLibrary, EventFieldLabels, GroupResource,
  EventMatcher, event_selectable_fields, event_field_terms, sole_term, reason_terms, selector_of,
  selector_for, derive_event_field_selector, new_event_field_set, compiled_event_filter, no_values,
  in_event_filter_set, plain_string, subject_field, filter_matches, some_matches, matches,
  compile_loop, finish_matcher, finished, canonical_event_filter, no_spec, empty_matcher,
  without_filters,
}

pub contains-new_set :
    (vs : List Text) (v : Text) → contains (new_event_field_set vs) v ≡ contains vs v
unfolding contains new_event_field_set
contains-new_set [] v = refl
contains-new_set (w ∷ vs) v = ground (arith, contains-new_set vs v, contains-new_set vs w)

occupied : (xs : List Text) (w : Text) → contains xs w ≡ true → no_values xs ≡ false
unfolding contains
occupied [] w h = absurd (ground arith)
occupied (x ∷ xs) w h = refl

pub no_values-new_set : (vs : List Text) → no_values (new_event_field_set vs) ≡ no_values vs
unfolding new_event_field_set contains
no_values-new_set [] = refl
no_values-new_set (w ∷ vs) = elim (Bool-cases (contains (new_event_field_set vs) w)) [
  | inl y ↦ rw y (occupied (new_event_field_set vs) w y)
  | inr n ↦ rw n refl
]

-- A set wants a value if it is empty or has it.
abbrev pub Wants : List Text → Text → Type 0
Wants set value = (no_values set || in_event_filter_set set value) ≡ true

unexcluded :
    (excluded : List Text) (value : Text)
    → contains excluded [] ≡ false
    → (not (no_values (new_event_field_set excluded))
        && in_event_filter_set (new_event_field_set excluded) value)
      ≡ false
    → contains excluded value ≡ false
unfolding in_event_filter_set
unexcluded [] value c x = unfold contains in refl
unexcluded (v ∷ vs) value c x =
    ground (arith, contains-new_set (v ∷ vs) value, no_values-new_set (v ∷ vs))

module _ (read : Text → Text) where
  -- what a field selector asks of the labels
  abbrev pub Holds : FieldTerm → Type 0
  Holds (equal label value) = read label ≡ value
  Holds (not_equal label value) = read label ≢ value

  sole_term-Holds :
      (label : Text) (values : List Text) (value : Text)
      → read label ≡ value
      → Wants (new_event_field_set values) value
      → All Holds (sole_term label values)
  unfolding new_event_field_set in_event_filter_set contains
  sole_term-Holds label [] value e h = tt
  sole_term-Holds label (v ∷ []) value e h = (e ∙ ground arith, tt)
  sole_term-Holds label (v ∷ w ∷ vs) value e h = tt

  excluded-Holds :
      (label : Text) (excluded : List Text) (value : Text)
      → read label ≡ value
      → contains excluded value ≡ false
      → All Holds (map (not_equal label) excluded)
  unfolding contains
  excluded-Holds label [] value e h = tt
  excluded-Holds label (x ∷ xs) value e h =
      (ground arith, excluded-Holds label xs value e (ground arith))

  reason_terms-Holds :
      (label : Text) (reasons excluded : List Text) (value : Text)
      → read label ≡ value
      → contains excluded [] ≡ false
      → Wants (new_event_field_set reasons) value
      → (not (no_values (new_event_field_set excluded))
          && in_event_filter_set (new_event_field_set excluded) value)
        ≡ false
      → All Holds (reason_terms label reasons excluded)
  reason_terms-Holds label [] [] value e c w x = tt
  reason_terms-Holds label [] (v ∷ vs) value e c w x =
      excluded-Holds label (v ∷ vs) value e (unexcluded (v ∷ vs) value c x)
  reason_terms-Holds label (r ∷ []) [] value e c w x = sole_term-Holds label (r ∷ []) value e w
  reason_terms-Holds label (r ∷ []) (v ∷ vs) value e c w x = tt
  reason_terms-Holds label (r ∷ s ∷ rs) excluded value e c w x = tt

-- The labels of an Event API read what an Event of it has in those places.
pub record Reads (read : Text → Text) (labels : EventFieldLabels) (object : Fields) : Type 0 where
  pub types : read labels.event_type ≡ plain_string object (codes "type")
  pub reasons : read labels.reason ≡ plain_string object (codes "reason")
  pub kinds : read labels.subject_kind ≡ subject_field object (codes "kind")
  pub names : read labels.subject_name ≡ subject_field object (codes "name")

event_field_terms-Holds :
    (read : Text → Text) (labels : EventFieldLabels) (s : EventFilterSpec) (object : Fields)
    → Reads read labels object
    → contains s.exclude_reasons [] ≡ false
    → filter_matches (compiled_event_filter s) object ≡ true
    → All (Holds read) (event_field_terms labels s)
unfolding event_field_terms filter_matches compiled_event_filter
event_field_terms-Holds read labels s object r c h =
    All-append (Holds read) _ _
      (sole_term-Holds read labels.event_type s.types _ r.types (ground arith))
      (All-append (Holds read) _ _
        (reason_terms-Holds read labels.reason s.reasons s.exclude_reasons _ r.reasons c
          (ground arith) (ground arith))
        (All-append (Holds read) _ _
          (sole_term-Holds read labels.subject_kind s.subject_kinds _ r.kinds (ground arith))
          (sole_term-Holds read labels.subject_name s.subject_names _ r.names (ground arith))))

-- What the API server does with an Event under a field selector, where `read` are its labels: no
-- selector selects all, and a conjunction selects where each of its terms holds.
pub record IsEventApi (lib : FilterLibrary) (gr : GroupResource) (object : Fields)
    (read : Text → Text) (serves : Text → Bool) : Type 0 where
  pub everything : serves [] ≡ true
  pub selects :
      (terms : List FieldTerm) → All (Holds read) terms → serves (lib.and_selectors terms) ≡ true
  pub registered :
      (labels : EventFieldLabels)
      → event_selectable_fields gr ≡ some labels
      → Reads read labels object

-- a text that excludes no empty reason
abbrev pub Excludes : FilterLibrary → Text → Type 0
Excludes lib raw =
    (s : EventFilterSpec)
    → (raw == []) ≡ false
    → lib.unmarshal raw ≡ some s
    → contains s.exclude_reasons [] ≡ false

module _ (lib : FilterLibrary) (gr : GroupResource) (object : Fields) (read : Text → Text)
    (serves : Text → Bool) (api : IsEventApi lib gr object read serves) where
  selector_of-serves :
      (terms : List FieldTerm) → All (Holds read) terms → serves (selector_of lib terms) ≡ true
  selector_of-serves [] h = api.everything
  selector_of-serves (t ∷ ts) h = api.selects (t ∷ ts) h

  selector_for-serves :
      (s : EventFilterSpec) (o : Option EventFieldLabels)
      → event_selectable_fields gr ≡ o
      → contains s.exclude_reasons [] ≡ false
      → filter_matches (compiled_event_filter s) object ≡ true
      → serves (selector_for lib s o) ≡ true
  selector_for-serves s none e c h = api.everything
  selector_for-serves s (some labels) e c h =
      selector_of-serves (event_field_terms labels s)
        (event_field_terms-Holds read labels s object (api.registered labels e) c h)

  -- there is no filter yet, or `sole` is the last one and excludes no empty reason
  abbrev Compiled : EventMatcher → EventFilterSpec → Type 0
  Compiled m sole =
      (m.filters ≡ [])
      ⊎ ((before : List EventFilterSpec) × (m.filters ≡ before ++ (compiled_event_filter sole ∷ []))
          × (contains sole.exclude_reasons [] ≡ false))

  compile_loop-Compiled :
      (raws : List Text) (m : EventMatcher) (sole : EventFilterSpec)
      (r : EventMatcher × EventFilterSpec)
      → All (Excludes lib) raws
      → Compiled m sole
      → compile_loop lib raws m sole ≡ some r
      → Compiled r.0 r.1
  unfolding compile_loop
  compile_loop-Compiled [] m sole r x c e = ground (arith, c)
  compile_loop-Compiled (raw ∷ raws) m sole r x c e = elim (Bool-cases (raw == [])) [
    | inl y ↦ compile_loop-Compiled raws (record m { match_all = true }) sole r x.1 c (rw y at e)
    | inr n ↦ elim (Option-cases (lib.unmarshal raw)) [
      | inl undecoded ↦ absurd (ground arith)
      | inr (s, decoded) ↦
          compile_loop-Compiled raws
            (record m { filters = m.filters ++ (compiled_event_filter s ∷ []) }) s r x.1
            (inr (m.filters, refl, x.0 s n decoded)) (rw decoded at rw n at e)
    ]
  ]

  sole_filter :
      (fs before : List EventFilterSpec) (f : EventFilterSpec)
      → (length fs == 1) ≡ true
      → fs ≡ before ++ (f ∷ [])
      → fs ≡ f ∷ []
  sole_filter fs [] f one e = e
  sole_filter fs (b ∷ []) f one e = absurd (ground arith)
  sole_filter fs (b ∷ c ∷ before) f one e = absurd (ground arith)

  sole-serves :
      (m : EventMatcher) (sole : EventFilterSpec)
      → Compiled m sole
      → (length m.filters == 1) ≡ true
      → some_matches m.filters object ≡ true
      → serves (derive_event_field_selector lib gr sole) ≡ true
  unfolding derive_event_field_selector some_matches
  sole-serves m sole (inl none_yet) one h = absurd (ground arith)
  sole-serves m sole (inr (before, e, c)) one h =
      let same = sole_filter m.filters before (compiled_event_filter sole) one e in
      selector_for-serves sole (event_selectable_fields gr) refl c (ground arith)

  finish_matcher-serves :
      (m : EventMatcher) (sole : EventFilterSpec)
      → Compiled m sole
      → matches (finish_matcher lib gr (m, sole)) object ≡ true
      → serves (finish_matcher lib gr (m, sole)).field_selector ≡ true
  unfolding finish_matcher matches
  finish_matcher-serves m sole c h = elim (Bool-cases (m.match_all || without_filters m)) [
    | inl open_filter ↦ rw open_filter api.everything
    | inr closed ↦ elim (Bool-cases (length m.filters == 1)) [
      | inl one ↦ rw closed (rw one (sole-serves m sole c one (ground arith)))
      | inr more ↦ rw closed (rw more api.everything)
    ]
  ]

  pub finished-serves :
      (raws : List Text) (o : Option (EventMatcher × EventFilterSpec)) (m : EventMatcher)
      → compile_loop lib raws empty_matcher no_spec ≡ o
      → All (Excludes lib) raws
      → finished lib gr o ≡ some m
      → matches m object ≡ true
      → serves m.field_selector ≡ true
  finished-serves raws none m e x f h = cc
  finished-serves raws (some r) m e x f h =
      let same : finish_matcher lib gr r ≡ m = ground arith in
      subst (λ (k : EventMatcher). serves k.field_selector ≡ true) same
        (finish_matcher-serves r.0 r.1
          (compile_loop-Compiled raws empty_matcher no_spec r x (inl refl) e) (rw same h))

-- What is documented of the encoding of filters: it is read back, and is not the empty text.
pub record IsFilterCodec (lib : FilterLibrary) : Type 0 where
  pub decoded :
      (s : EventFilterSpec) (raw : Text) → lib.marshal s ≡ some raw → lib.unmarshal raw ≡ some s
  pub written : (s : EventFilterSpec) (raw : Text) → lib.marshal s ≡ some raw → (raw == []) ≡ false

-- The texts are the canonical ones of the filters, one by one.
abbrev pub Texts : FilterLibrary → List EventFilterSpec → List Text → Type 0
Texts lib [] [] = Unit
Texts lib [] (_ ∷ _) = ⊥
Texts lib (_ ∷ _) [] = ⊥
Texts lib (s ∷ ss) (raw ∷ raws) = (canonical_event_filter lib s ≡ some raw) × Texts lib ss raws
