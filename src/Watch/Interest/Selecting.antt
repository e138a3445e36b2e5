-- ===== src/Watch/Interest/Selecting.antt =====
-- An interest matches what some of its selectors selects.
use kuberecord.Base.{
  ◌≡◌, Bool, true, false, not, ◌||◌, Option, none, some, List, [], ◌∷◌, ◌++◌, arith, refl, ap, ◌∙◌,
  text_eq, nat_eq, ◌==◌, length, Bool-cases, Option-cases, inl, inr,
}
use kuberecord.Base.Map.{Map}
use kuberecord.Base.Text.{Text}
use kuberecord.Pipeline.Redact.{RedactionPolicy}
use kuberecord.Plan.Registry.{TargetState}
use kuberecord.Watch.EventFilter.{EventMatcher}
use kuberecord.Watch.Interest.{
  InformerScope, InterestLibrary, ScopeInterest, Selection, parse_selectors, assemble,
  new_scope_interest, some_test, matches_labels, matches_either,
}

-- Whether some text selects the labels: the empty text selects all.
abbrev pub test_of : Option (Map Text Text → Bool) → Map Text Text → Bool
test_of none labels = false
test_of (some test) labels = test labels

unfoldable pub some_selects :
    (Text → Option (Map Text Text → Bool)) → List Text → Map Text Text → Bool
some_selects parse [] labels = false
some_selects parse (raw ∷ raws) labels =
    (raw == [] || test_of (parse raw) labels) || some_selects parse raws labels

abbrev pub is_empty : List Text → Bool
is_empty [] = true
is_empty (_ ∷ _) = false

some_test-snoc :
    (tests : List (Map Text Text → Bool)) (test : Map Text Text → Bool) (labels : Map Text Text)
    → some_test (tests ++ (test ∷ [])) labels ≡ (some_test tests labels || test labels)
unfolding some_test
some_test-snoc [] test labels = ground arith
some_test-snoc (t ∷ tests) test labels = ground (arith, some_test-snoc tests test labels)

length-snoc :
    (tests : List (Map Text Text → Bool)) (test : Map Text Text → Bool)
    → (length (tests ++ (test ∷ [])) == 0) ≡ false
length-snoc [] test = ground arith
length-snoc (t ∷ tests) test = ground arith

or_swap : (a b c d : Bool) → ((a || b || c) || d) ≡ (a || b || c || d)
or_swap true b c d = refl
or_swap false true c d = refl
or_swap false false c d = refl

module _ (parse : Text → Option (Map Text Text → Bool)) (labels : Map Text Text) where
  -- what the selection so far selects
  abbrev sees : Selection → Bool
  sees s = s.everything || some_test s.tests labels

  -- whether the interest is narrowed or opened by a text
  abbrev decides : Selection → Bool
  decides s = s.everything || not (length s.tests == 0)

  abbrev Parses : List Text → Selection → Selection → Type 0
  Parses raws s r =
      (sees r ≡ (sees s || some_selects parse raws labels))
      × (decides r ≡ (decides s || not (is_empty raws)))

  parse_selectors-Parses :
      (raws : List Text) (s r : Selection) → parse_selectors parse raws s ≡ some r → Parses raws s r
  unfolding parse_selectors some_selects
  parse_selectors-Parses [] s r e = ground arith
  parse_selectors-Parses (raw ∷ raws) s r e = elim (Bool-cases (raw == [])) [
    | inl named ↦
        let (seen, decided) =
          parse_selectors-Parses raws (record s { everything = true }) r (rw named at e) in
        (seen ∙ ground arith, decided ∙ ground arith)
    | inr other ↦ elim (Option-cases (parse raw)) [
      | inl malformed ↦ absurd (ground arith)
      | inr (test, parsed) ↦
          let (seen, decided) =
            parse_selectors-Parses raws (record s { tests = s.tests ++ (test ∷ []) }) r
              (rw parsed at rw other at e) in
          (
            seen ∙ ground (arith, some_test-snoc s.tests test labels),
            decided ∙ ground (arith, length-snoc s.tests test),
          )
    ]
  ]

assembled :
    (state : TargetState) (scope : InformerScope) (s : Option Selection)
    (policy : Option (Option RedactionPolicy)) (events : Option EventMatcher) (i : ScopeInterest)
    → assemble state scope s policy events ≡ some i
    → (r : Selection) × (s ≡ some r)
      × (i.selectors ≡ r.tests)
      × (i.match_all ≡ (r.everything || length r.tests == 0))
assembled state scope none policy events i e = absurd (ground arith)
assembled state scope (some s) none events i e = absurd (ground arith)
assembled state scope (some s) (some policy) none i e = absurd (ground arith)
assembled state scope (some s) (some policy) (some events) i e =
    (s, refl, ground arith, ground arith)

opened : (e z m n s : Bool) → (e || s) ≡ m → (e || not z) ≡ not n → ((e || z) || s) ≡ (n || m)
opened true z m true s h d = absurd (ground arith)
opened true z m false s h d = h
opened false true m true s h d = refl
opened false true m false s h d = absurd (ground arith)
opened false false m true s h d = absurd (ground arith)
opened false false m false s h d = h

matches_labels-selects :
    (lib : InterestLibrary) (state : TargetState) (scope : InformerScope) (i : ScopeInterest)
    (labels : Map Text Text)
    → new_scope_interest lib state scope ≡ some i
    → matches_labels i labels
      ≡ (is_empty state.selectors || some_selects lib.parse state.selectors labels)
unfolding new_scope_interest matches_labels some_test
matches_labels-selects lib state scope i labels e =
    let (r, parsed, tests, all) = assembled state scope _ _ _ i e in
    let (seen, decided) =
      parse_selectors-Parses lib.parse labels state.selectors
        (record { tests = []; everything = false }) r parsed in
    let read : matches_labels i labels
        ≡ ((r.everything || length r.tests == 0) || some_test r.tests labels) =
      ap (λ (b : Bool). b || some_test i.selectors labels) all
      ∙ ap
          (λ (ts : List (Map Text Text → Bool)).
            (r.everything || length r.tests == 0) || some_test ts labels)
          tests in
    read
    ∙ opened r.everything (length r.tests == 0) _ _ (some_test r.tests labels) seen
        (decided ∙ ground arith)

-- The interest compiled from a merged target matches an object, as it is or as it was before an update,
-- exactly if the target has no selector, or one of its selectors is empty or selects the labels.
pub new_scope_interest-selects :
    (lib : InterestLibrary) (state : TargetState) (scope : InformerScope) (i : ScopeInterest)
    (current : Map Text Text) (previous : Option (Map Text Text))
    → new_scope_interest lib state scope ≡ some i
    → (matches_labels i current
        ≡ (is_empty state.selectors || some_selects lib.parse state.selectors current))
      × (matches_either i current previous ≡ (
          matches_labels i current || elim previous [
            | none ↦ false
            | some labels ↦
                is_empty state.selectors || some_selects lib.parse state.selectors labels
          ]))
unfolding new_scope_interest matches_labels matches_either some_test
new_scope_interest-selects lib state scope i current none e =
    (matches_labels-selects lib state scope i current e, refl)
new_scope_interest-selects lib state scope i current (some labels) e = (
  matches_labels-selects lib state scope i current e,
  ap (λ (b : Bool). matches_labels i current || b)
      (matches_labels-selects lib state scope i labels e),
)
