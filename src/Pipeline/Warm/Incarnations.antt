-- ===== src/Pipeline/Warm/Incarnations.antt =====
-- The current incarnation of an identity is a matter of its rows, not of their order.
use kuberecord.Base.{
  ◌≡◌, ◌≢◌, ◌↔◌, inl, inr, true, false, List, [], ◌∷◌, arith, refl, sym, ap, ◌∙◌, nat_eq, text_eq,
  ◌==◌, All, Bool-cases,
}
use mathlib.Core.Path.{subst}
use kuberecord.Base.Lists.{Elem, Elem-All}
use kuberecord.Base.Tests.{eq_of_==, ne_of_==}
use kuberecord.Base.Text.{Text, compare_text, compare_text-eq, compare_text-flip}
use kuberecord.Pipeline.Warm.{
  KnownState, Group, is_greater, succeeds, newest, other_uids, split_incarnations,
}

abbrev pub rows : Group → List KnownState
rows (first, rest) = first ∷ rest

not_greater_trans :
    (a b c : Text)
    → is_greater (compare_text a b) ≡ false
    → is_greater (compare_text b c) ≡ false
    → is_greater (compare_text a c) ≡ false
unfolding compare_text
not_greater_trans [] b [] h k = refl
not_greater_trans [] b (z ∷ c) h k = refl
not_greater_trans (x ∷ a) [] c h k = absurd (ground arith)
not_greater_trans (x ∷ a) (y ∷ b) [] h k = absurd (ground arith)
not_greater_trans (x ∷ a) (y ∷ b) (z ∷ c) h k = ground (arith, not_greater_trans a b c)

greater_flip :
    (a b : Text) → is_greater (compare_text a b) ≡ true → is_greater (compare_text b a) ≡ false
greater_flip a b h = ground (arith, compare_text-flip a b)

not_greater-eq :
    (a b : Text)
    → is_greater (compare_text a b) ≡ false
    → is_greater (compare_text b a) ≡ false
    → a ≡ b
not_greater-eq a b h k = compare_text-eq a b (ground (arith, compare_text-flip a b))

succeeds_trans :
    (a b c : KnownState) → succeeds a b ≡ false → succeeds b c ≡ false → succeeds a c ≡ false
unfolding succeeds
succeeds_trans a b c h k = ground (arith, not_greater_trans a.uid b.uid c.uid)

succeeds_flip : (a b : KnownState) → succeeds a b ≡ true → succeeds b a ≡ false
unfolding succeeds
succeeds_flip a b h = ground (arith, greater_flip a.uid b.uid)

succeeds_self : (a : KnownState) → succeeds a a ≡ false
succeeds_self a = elim (Bool-cases (succeeds a a)) [ inl y ↦ succeeds_flip a a y | inr n ↦ n ]

succeeds-uid : (a b : KnownState) → succeeds a b ≡ false → succeeds b a ≡ false → a.uid ≡ b.uid
unfolding succeeds
succeeds-uid a b h k = not_greater-eq a.uid b.uid (ground arith) (ground arith)

past : (x y z : KnownState) (zs : List KnownState) → Elem z (x ∷ zs) → Elem z (x ∷ y ∷ zs)
past x y z zs (inl e) = inl e
past x y z zs (inr m) = inr (inr m)

module _ (current state : KnownState) (states : List KnownState) where
  newest_later :
      succeeds state current ≡ true → newest state states ≡ newest current (state ∷ states)
  unfolding newest
  newest_later h = rw h refl

  newest_earlier :
      succeeds state current ≡ false → newest current states ≡ newest current (state ∷ states)
  unfolding newest
  newest_earlier h = rw h refl

newest-Elem :
    (current : KnownState) (states : List KnownState)
    → Elem (newest current states) (current ∷ states)
unfolding newest
newest-Elem current [] = inl refl
newest-Elem current (state ∷ states) = elim (Bool-cases (succeeds state current)) [
  | inl y ↦
      subst (λ (top : KnownState). Elem top (current ∷ state ∷ states))
        (newest_later current state states y) (inr (newest-Elem state states))
  | inr n ↦
      subst (λ (top : KnownState). Elem top (current ∷ state ∷ states))
        (newest_earlier current state states n)
        (past current state (newest current states) states (newest-Elem current states))
]

-- No row succeeds `top`.
abbrev pub Tops : List KnownState → KnownState → Type 0
Tops states top = All (λ (state : KnownState). succeeds state top ≡ false) states

newest-Tops :
    (current : KnownState) (states : List KnownState)
    → Tops (current ∷ states) (newest current states)
unfolding newest
newest-Tops current [] = (succeeds_self current, tt)
newest-Tops current (state ∷ states) = elim (Bool-cases (succeeds state current)) [
  | inl y ↦
      let (at, others) = newest-Tops state states in
      subst (Tops (current ∷ state ∷ states)) (newest_later current state states y)
        (succeeds_trans current state _ (succeeds_flip state current y) at, (at, others))
  | inr n ↦
      let (at, others) = newest-Tops current states in
      subst (Tops (current ∷ state ∷ states)) (newest_earlier current state states n)
        (at, (succeeds_trans state current _ n at, others))
]

other_uids-Elem :
    (uid : Text) (states : List KnownState) (state : KnownState)
    → Elem state (other_uids uid states) ↔ (Elem state states × (state.uid ≢ uid))
unfolding other_uids
other_uids-Elem uid [] state = (λ m. absurd m, λ m. m.0)
other_uids-Elem uid (first ∷ states) state = elim (Bool-cases (first.uid == uid)) [
  | inl y ↦ rw y (
    λ m. let (i, other) = (other_uids-Elem uid states state).0 m in (inr i, other),
    λ m. elim m.0 [
      | inl e ↦ absurd (m.1 (ap (λ (s : KnownState). s.uid) (sym e) ∙ eq_of_== first.uid uid y))
      | inr i ↦ (other_uids-Elem uid states state).1 (i, m.1)
    ],
  )
  | inr n ↦ rw n (
    λ m. elim m [
      | inl e ↦ (inl e, subst (λ (s : KnownState). s.uid ≢ uid) e (ne_of_== first.uid uid n))
      | inr i ↦ let (j, other) = (other_uids-Elem uid states state).0 i in (inr j, other)
    ],
    λ m. elim m.0 [ inl e ↦ inl e | inr i ↦ inr ((other_uids-Elem uid states state).1 (i, m.1)) ],
  )
]

-- The current incarnation of a group is one of its rows, no row succeeds it, and the unclosed ones are
-- exactly the rows under other UIDs.
pub split_incarnations_lem :
    (g : Group)
    → Elem (split_incarnations g).0 (rows g)
      × Tops (rows g) (split_incarnations g).0
      × ((state : KnownState)
          → Elem state (split_incarnations g).1
            ↔ (Elem state (rows g) × (state.uid ≢ (split_incarnations g).0.uid)))
unfolding split_incarnations
split_incarnations_lem (first, rest) = (
  newest-Elem first rest,
  newest-Tops first rest,
  other_uids-Elem (newest first rest).uid (first ∷ rest),
)

-- For two groups that hold the same rows, in whatever order, with one row for each UID: the current
-- incarnation and the unclosed ones are the same.
pub split_incarnations-any_order :
    (g h : Group)
    → ((state : KnownState) → Elem state (rows g) ↔ Elem state (rows h))
    → ((a b : KnownState) → Elem a (rows g) → Elem b (rows g) → a.uid ≡ b.uid → a ≡ b)
    → ((split_incarnations g).0 ≡ (split_incarnations h).0)
      × ((state : KnownState)
          → Elem state (split_incarnations g).1 ↔ Elem state (split_incarnations h).1)
split_incarnations-any_order g h same one =
    let (g_in, g_top, g_others) = split_incarnations_lem g in
    let (h_in, h_top, h_others) = split_incarnations_lem h in
    let current : (split_incarnations g).0 ≡ (split_incarnations h).0 =
      one _ _ g_in ((same _).1 h_in) (
        succeeds-uid _ _ (Elem-All _ _ (rows h) ((same _).0 g_in) h_top)
          (Elem-All _ _ (rows g) ((same _).1 h_in) g_top)) in
    (
      current,
      λ state. (
        λ m.
            let (i, other) = (g_others state).0 m in
            (h_others state).1
              ((same state).0 i, subst (λ (c : KnownState). state.uid ≢ c.uid) current other),
        λ m.
            let (i, other) = (h_others state).0 m in
            (g_others state).1
              ((same state).1 i, subst (λ (c : KnownState). state.uid ≢ c.uid) (sym current) other),
      ),
    )
