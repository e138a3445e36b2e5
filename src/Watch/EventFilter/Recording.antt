-- ===== src/Watch/EventFilter/Recording.antt =====
-- Filters as their authors write them, through their canonical texts, the compiled matcher and the API
-- server: what is recorded is what some filter asks for.
use kuberecord.Base.{
  ◌≡◌, ◌⊎◌, inl, inr, Bool, true, false, not, ◌&&◌, ◌||◌, Option, some, List, [], ◌∷◌, ◌++◌, arith,
  refl, ◌∙◌, text_eq, nat_eq, ◌==◌, length, contains, Bool-cases, All,
}
use kuberecord.Base.Json.{Fields}
use kuberecord.Base.Tests.{==_self}
use kuberecord.Base.Text.{Text}
use kuberecord.Watch.EventFilter.{
  filter_matches, compiled_event_filter, canonical_spec, EventFilterSpec, FilterLibrary,
  GroupResource, EventMatcher, constrains_nothing, canonical_event_filter, some_matches, matches,
  compile_loop, finish_matcher, compile_event_filters, no_spec, empty_matcher, without_filters,
  in_event_filter_set,
}
use kuberecord.Watch.EventFilter.Meaning.{
  admits, filter_matches-canonical, is_free-admits, contains-canonical,
}
use kuberecord.Watch.EventFilter.PushDown.{
  IsFilterCodec, Texts, IsEventApi, finished-serves, Excludes,
}

unfoldable pub some_admits : List EventFilterSpec → Fields → Bool
some_admits [] object = false
some_admits (s ∷ ss) object = admits s object || some_admits ss object

some_matches-snoc :
    (fs : List EventFilterSpec) (f : EventFilterSpec) (object : Fields)
    → some_matches (fs ++ (f ∷ [])) object ≡ (some_matches fs object || filter_matches f object)
unfolding some_matches
some_matches-snoc [] f object = ground arith
some_matches-snoc (g ∷ fs) f object = ground (arith, some_matches-snoc fs f object)

without-snoc :
    (fs : List EventFilterSpec) (f : EventFilterSpec) → (length (fs ++ (f ∷ [])) == 0) ≡ false
without-snoc [] f = ground arith
without-snoc (g ∷ fs) f = ground arith

abbrev has_filters : List EventFilterSpec → Bool
has_filters [] = false
has_filters (_ ∷ _) = true

text_of : {a b : Text} → some a ≡ some b → a ≡ b
text_of e = cc

-- the text of a filter that constrains nothing, or of one that is encoded
canonical-cases :
    (lib : FilterLibrary) (s : EventFilterSpec) (raw : Text)
    → IsFilterCodec lib
    → canonical_event_filter lib s ≡ some raw
    → (((raw == []) ≡ true) × (constrains_nothing (canonical_spec s) ≡ true))
      ⊎ (((raw == []) ≡ false) × (lib.unmarshal raw ≡ some (canonical_spec s)))
unfolding canonical_event_filter
canonical-cases lib s raw codec e = elim (Bool-cases (constrains_nothing (canonical_spec s))) [
  | inl y ↦
      let empty : [] ≡ raw = text_of (rw y at e) in inl (rw (← empty) (==_self {A = Text} []), y)
  | inr n ↦
      let marshalled : lib.marshal (canonical_spec s) ≡ some raw = rw n at e in
      inr (
        codec.written (canonical_spec s) raw marshalled,
        codec.decoded (canonical_spec s) raw marshalled,
      )
]

unlisted : (xs : List Text) → in_event_filter_set xs [] ≡ false
unfolding in_event_filter_set
unlisted xs = ground arith

excludes_of :
    (s spec : EventFilterSpec) → canonical_spec s ≡ spec → contains spec.exclude_reasons [] ≡ false
unfolding canonical_spec
excludes_of s spec e =
    rw (← e) (contains-canonical s.exclude_reasons [] ∙ unlisted s.exclude_reasons)

decoded_as :
    {o : Option EventFilterSpec} {s spec : EventFilterSpec} → o ≡ some s → o ≡ some spec → s ≡ spec
decoded_as e f = ground arith

and_same : (a b : Bool) → (b ≡ true → a ≡ true) → (a && b) ≡ b
and_same true b h = refl
and_same false true h = h refl
and_same false false h = refl

module _ (lib : FilterLibrary) (codec : IsFilterCodec lib) (object : Fields) where
  -- what a loop's result matches
  abbrev Sees : EventMatcher → Bool → Type 0
  Sees m b = (m.match_all || some_matches m.filters object) ≡ b

  -- whether there is something to match by
  abbrev decides : EventMatcher → Bool
  decides m = m.match_all || not (without_filters m)

  compile_loop-Sees :
      (ss : List EventFilterSpec) (raws : List Text) (m : EventMatcher) (sole : EventFilterSpec)
      → Texts lib ss raws
      → (r : EventMatcher × EventFilterSpec) × (compile_loop lib raws m sole ≡ some r)
        × Sees r.0 (m.match_all || some_matches m.filters object || some_admits ss object)
        × (decides r.0 ≡ (decides m || has_filters ss))
  unfolding compile_loop some_admits
  compile_loop-Sees [] [] m sole t = ((m, sole), refl, ground arith, ground arith)
  compile_loop-Sees [] (_ ∷ _) m sole t = absurd t
  compile_loop-Sees (_ ∷ _) [] m sole t = absurd t
  compile_loop-Sees (s ∷ ss) (raw ∷ raws) m sole t = elim (canonical-cases lib s raw codec t.0) [
    | inl (named, open_filter) ↦
        let (r, done, sees, decided) =
          compile_loop-Sees ss raws (record m { match_all = true }) sole t.1 in
        (
          r,
          rw named done,
          sees ∙ ground (arith, is_free-admits s object open_filter),
          decided ∙ ground arith,
        )
    | inr (named, decoded) ↦
        let (r, done, sees, decided) =
          compile_loop-Sees ss raws
            (record m { filters = m.filters ++ (compiled_event_filter (canonical_spec s) ∷ []) })
            (canonical_spec s) t.1 in
        (
          r,
          rw named (rw decoded done),
          sees
              ∙ ground (
                arith,
                some_matches-snoc m.filters (compiled_event_filter (canonical_spec s)) object,
                filter_matches-canonical s object,
              ),
          decided
              ∙ ground (arith, without-snoc m.filters (compiled_event_filter (canonical_spec s))),
        )
  ]

  Texts-Excludes :
      (ss : List EventFilterSpec) (raws : List Text) → Texts lib ss raws → All (Excludes lib) raws
  Texts-Excludes [] [] t = tt
  Texts-Excludes [] (_ ∷ _) t = absurd t
  Texts-Excludes (_ ∷ _) [] t = absurd t
  Texts-Excludes (s ∷ ss) (raw ∷ raws) t = (
    λ spec named decoded. elim (canonical-cases lib s raw codec t.0) [
      | inl (empty, _) ↦ absurd (ground arith)
      | inr (_, canonical) ↦ excludes_of s spec (decoded_as canonical decoded)
    ],
    Texts-Excludes ss raws t.1,
  )

  finish_matcher-matches :
      (gr : GroupResource) (m : EventMatcher) (sole : EventFilterSpec)
      → decides m ≡ true
      → matches (finish_matcher lib gr (m, sole)) object
        ≡ (m.match_all || some_matches m.filters object)
  unfolding finish_matcher matches
  finish_matcher-matches gr m sole d = ground arith

-- For one or more filters, as their authors write them, and an API server that reads an Event's fields
-- under the labels of its resource: compiling the filters' canonical texts succeeds, and an Event is
-- let through by the server's selector and matched exactly if some filter asks for it.
pub compile_event_filters-records :
    (lib : FilterLibrary) (gr : GroupResource) (object : Fields) (read : Text → Text)
    (serves : Text → Bool) (s : EventFilterSpec) (ss : List EventFilterSpec) (raws : List Text)
    → IsFilterCodec lib
    → IsEventApi lib gr object read serves
    → Texts lib (s ∷ ss) raws
    → (m : EventMatcher) × (compile_event_filters lib gr raws ≡ some m)
      × ((serves m.field_selector && matches m object) ≡ some_admits (s ∷ ss) object)
unfolding compile_event_filters some_admits some_matches
compile_event_filters-records lib gr object read serves s ss raws codec api t =
    let ((m, sole), done, sees, decided) =
      compile_loop-Sees lib codec object (s ∷ ss) raws empty_matcher no_spec t in
    let same : matches (finish_matcher lib gr (m, sole)) object ≡ some_admits (s ∷ ss) object =
      finish_matcher-matches lib codec object gr m sole (decided ∙ ground arith)
      ∙ sees
      ∙ ground arith in
    (
      finish_matcher lib gr (m, sole),
      rw done refl,
      and_same (serves (finish_matcher lib gr (m, sole)).field_selector) _ (
            finished-serves lib gr object read serves api raws (some (m, sole)) _ done
              (Texts-Excludes lib codec object (s ∷ ss) raws t) refl)
          ∙ same,
    )
