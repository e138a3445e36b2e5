-- ===== src/Pipeline/Warm/Seeding.antt =====
-- What a warm-up takes from a history: every row of it is accounted for, and no live entry is lost.
use kuberecord.Base.{
  ◌≡◌, ◌≢◌, ◌⊎◌, inl, inr, false, Option, none, some, List, [], ◌∷◌, map, arith, refl, sym, ap, ◌∙◌,
  ◌==◌, ◌<◌, nat_eq, text_eq, Bool-cases, Option-cases,
}
use mathlib.Core.Path.{subst}
use kuberecord.Base.Lists.{
  Elem, Elem-All, Elem-append_left, Elem-append_right, Elem-append, Elem-map, map-Elem,
}
use kuberecord.Base.Tests.{==_self, eq_of_==, ne_of_==}
use kuberecord.Base.Map.{Map, lookup, lookup-insert, Distinct}
use kuberecord.Base.Text.{Text, compare_text}
use Prim.Native.Nat.{Ordering}
use kuberecord.Pipeline.HashCache.{CacheEntry, HashCache, store_if_absent}
use kuberecord.Pipeline.Identity.{cache_key}
use kuberecord.Pipeline.Process.{SinkState, record_cache_entries}
use kuberecord.Pipeline.Warm.{
  KnownState, ScopeRef, Identity, identity_eq, identity_of, Group, GcTarget, Reincarnation,
  target_of, prior_of, is_greater, succeeds, split_incarnations, seed_groups, seed_states,
  group_by_identity, seed_entry, baseline_of, ref_key,
}
use kuberecord.Pipeline.Warm.Incarnations.{rows, split_incarnations_lem}
use kuberecord.Pipeline.Warm.Grouping.{rows_at, with_identity, group_by_identity_lem}

with_identity-Elem :
    (states : List KnownState) (state : KnownState)
    → Elem state states
    → Elem state (with_identity (identity_of state) states)
unfolding with_identity
with_identity-Elem [] state m = absurd m
with_identity-Elem (first ∷ states) state (inl e) =
    rw e (rw (==_self (identity_of state)) (inl refl))
with_identity-Elem (first ∷ states) state (inr m) =
    elim (Bool-cases (identity_of first == identity_of state)) [
      | inl y ↦ rw y (inr (with_identity-Elem states state m))
      | inr n ↦ rw n (with_identity-Elem states state m)
    ]

Elem-with_identity :
    (id : Identity) (states : List KnownState) (state : KnownState)
    → Elem state (with_identity id states)
    → Elem state states × (identity_of state ≡ id)
unfolding with_identity
Elem-with_identity id [] state m = absurd m
Elem-with_identity id (first ∷ states) state m = elim (Bool-cases (identity_of first == id)) [
  | inl y ↦ elim (rw y at m) [
    | inl e ↦ (inl e, ap identity_of (sym e) ∙ eq_of_== (identity_of first) id y)
    | inr i ↦ let (j, same) = Elem-with_identity id states state i in (inr j, same)
  ]
  | inr n ↦ let (j, same) = Elem-with_identity id states state (rw n at m) in (inr j, same)
]

module _ (ref : ScopeRef) where
  seed_groups-has :
      (id : Identity) (g : Group) (groups : Map Identity Group) (s : SinkState)
      → lookup id groups ≡ some g
      → Elem (target_of (split_incarnations g).0) (seed_groups ref groups s).1.seeded
        × ((prior : KnownState)
            → Elem prior (split_incarnations g).1
            → Elem (prior_of prior) (seed_groups ref groups s).1.priors)
  unfolding seed_groups lookup
  seed_groups-has id g [] s e = absurd (ground arith)
  seed_groups-has id g ((other, h) ∷ groups) s e = elim (Bool-cases (other == id)) [
    | inl y ↦
        let same : h ≡ g = ground arith in
        subst
          (λ (k : Group).
            Elem (target_of (split_incarnations k).0)
              (seed_groups ref ((other, h) ∷ groups) s).1.seeded
            × ((prior : KnownState)
                → Elem prior (split_incarnations k).1
                → Elem (prior_of prior) (seed_groups ref ((other, h) ∷ groups) s).1.priors))
          same (inl refl, λ prior m. Elem-append_left _ _ _ (Elem-map prior_of prior _ m))
    | inr n ↦
        let (target, priors) =
          seed_groups-has id g groups (seed_entry ref (split_incarnations h).0 s) (rw n at e) in
        (
          inr target,
          λ prior m. Elem-append_right _ (map prior_of (split_incarnations h).1) _ (priors prior m),
        )
  ]

  -- a prior is an unclosed row of some group
  seed_groups-priors :
      (r : Reincarnation) (groups : Map Identity Group) (s : SinkState)
      → Distinct groups
      → Elem r (seed_groups ref groups s).1.priors
      → (id : Identity) × (g : Group) × (lookup id groups ≡ some g)
        × ((prior : KnownState) × Elem prior (split_incarnations g).1 × (prior_of prior ≡ r))
  unfolding seed_groups lookup
  seed_groups-priors r [] s d m = absurd m
  seed_groups-priors r ((other, h) ∷ groups) s d m =
      elim (Elem-append r (map prior_of (split_incarnations h).1) _ m) [
        | inl here ↦
            (other, h, rw (==_self other) refl, map-Elem prior_of r (split_incarnations h).1 here)
        | inr later ↦
            let (id, g, e, found) =
              seed_groups-priors r groups (seed_entry ref (split_incarnations h).0 s) d.1 later in
            (
              id,
              g,
              elim (Bool-cases (other == id)) [
                | inl y ↦ absurd (cc (d.0, e, eq_of_== other id y))
                | inr n ↦ rw n e
              ],
              found,
            )
      ]

at_most :
    (o : Option Group) (state : KnownState) → Elem state (rows_at o) → (g : Group) × (o ≡ some g)
at_most none state m = absurd m
at_most (some g) state m = (g, refl)

-- the rows of an identity's group
group_rows :
    (id : Identity) (g : Group) (states : List KnownState)
    → lookup id (group_by_identity states) ≡ some g
    → rows g ≡ with_identity id states
group_rows id g states e = sym (ap rows_at e) ∙ (group_by_identity_lem states).1 id

-- A row is no later than another: it is older, or as old and its UID is not greater byte by byte.
abbrev pub NoLater : KnownState → KnownState → Type 0
NoLater state top =
    (state.ts < top.ts) ⊎ ((state.ts ≡ top.ts) × (compare_text state.uid top.uid ≢ Ordering.gt))

-- No other row that a history has of the identity is later than `newest`.
pub record IsNewest (states : List KnownState) (id : Identity) (newest : KnownState) : Type 0 where
  pub recorded : Elem newest states
  pub named : identity_of newest ≡ id
  pub last :
      (state : KnownState) → Elem state states → identity_of state ≡ id → NoLater state newest

not_greater : (o : Ordering) → is_greater o ≡ false → o ≢ Ordering.gt
not_greater Ordering.lt h = λ e. cc
not_greater Ordering.eq h = λ e. cc
not_greater Ordering.gt h = absurd (cc)

succeeds-NoLater : (state top : KnownState) → succeeds state top ≡ false → NoLater state top
unfolding succeeds
succeeds-NoLater state top h = elim (Bool-cases (state.ts == top.ts)) [
  | inl y ↦
      inr (eq_of_== state.ts top.ts y, not_greater (compare_text state.uid top.uid) (ground arith))
  | inr n ↦ inl (ground arith)
]

split_incarnations-IsNewest :
    (id : Identity) (g : Group) (states : List KnownState)
    → lookup id (group_by_identity states) ≡ some g
    → IsNewest states id (split_incarnations g).0
split_incarnations-IsNewest id g states e =
    let (is_row, tops, _) = split_incarnations_lem g in
    let (recorded, named) =
      Elem-with_identity id states _ (subst (Elem _) (group_rows id g states e) is_row) in
    record {
      recorded = recorded;
      named = named;
      last = λ state m same. succeeds-NoLater state _ (
          Elem-All _ state (rows g)
            (subst (Elem state) (sym (group_rows id g states e)) (
              subst (λ (i : Identity). Elem state (with_identity i states)) same
                (with_identity-Elem states state m)))
            tops);
    }

-- What is seeded from a history accounts for it. Of each row's identity the row with the latest
-- instant, by the greatest UID among those of one instant, is a target,
-- and the row has the target's UID or is a prior to be closed out. Conversely each prior is a row of
-- the history whose identity has a newest row under another UID.
pub seed_states-accounts :
    (ref : ScopeRef) (states : List KnownState) (s : SinkState)
    → ((state : KnownState)
        → Elem state states
        → (newest : KnownState) × IsNewest states (identity_of state) newest
          × Elem (target_of newest) (seed_states ref states s).1.seeded
          × ((state.uid ≡ newest.uid) ⊎ Elem (prior_of state) (seed_states ref states s).1.priors))
      × ((r : Reincarnation)
          → Elem r (seed_states ref states s).1.priors
          → (prior : KnownState) × Elem prior states
            × (prior_of prior ≡ r)
            × ((newest : KnownState) × IsNewest states (identity_of prior) newest
                × (prior.uid ≢ newest.uid)))
unfolding seed_states
seed_states-accounts ref states s = (
  λ state m.
      let own = with_identity-Elem states state m in
      let (g, e) =
        at_most (lookup (identity_of state) (group_by_identity states)) state
          (subst (Elem state) (sym ((group_by_identity_lem states).1 (identity_of state))) own) in
      let (target, priors) =
        seed_groups-has ref (identity_of state) g (group_by_identity states) s e in
      (
        (split_incarnations g).0,
        split_incarnations-IsNewest (identity_of state) g states e,
        target,
        elim (Bool-cases (state.uid == (split_incarnations g).0.uid)) [
          | inl y ↦ inl (eq_of_== _ _ y)
          | inr n ↦ inr (
              priors state (
                ((split_incarnations_lem g).2 state).1 (
                  subst (Elem state) (sym (group_rows (identity_of state) g states e)) own,
                  ne_of_== _ _ n,
                )))
        ],
      ),
  λ r m.
      let (id, g, e, (prior, unclosed, same)) =
        seed_groups-priors ref r (group_by_identity states) s (group_by_identity_lem states).0 m in
      let (is_row, other) = ((split_incarnations_lem g).2 prior).0 unclosed in
      let (recorded, named) =
        Elem-with_identity id states prior (subst (Elem prior) (group_rows id g states e) is_row) in
      (
        prior,
        recorded,
        same,
        (
          (split_incarnations g).0,
          subst (λ (i : Identity). IsNewest states i (split_incarnations g).0) (sym named)
              (split_incarnations-IsNewest id g states e),
          other,
        ),
      ),
)

-- The cache after seeding: a key with an entry keeps it; any other has none or a baseline.
abbrev pub Kept : HashCache → HashCache → Type 0
Kept c c' = (k : Text) (entry : CacheEntry) → lookup k c ≡ some entry → lookup k c' ≡ some entry

store_if_absent-Kept :
    (k : Text) (entry : CacheEntry) (c : HashCache) → Kept c (store_if_absent k entry c)
unfolding store_if_absent
store_if_absent-Kept k entry c j held e =
    ground (arith, lookup-insert k j (record entry { version = 1 }) c)

store_if_absent-has :
    (k : Text) (entry : CacheEntry) (c : HashCache)
    → (held : CacheEntry) × (lookup k (store_if_absent k entry c) ≡ some held)
unfolding store_if_absent
store_if_absent-has k entry c = elim (Option-cases (lookup k c)) [
  | inl absent ↦ (
    record entry { version = 1 },
    ground (arith, lookup-insert k k (record entry { version = 1 }) c, ==_self k),
  )
  | inr (held, e) ↦ (held, store_if_absent-Kept k entry c k held e)
]

module _ (ref : ScopeRef) where
  seed_groups-Kept :
      (groups : Map Identity Group) (s : SinkState)
      → Kept s.cache (seed_groups ref groups s).0.cache
  unfolding seed_groups seed_entry
  seed_groups-Kept [] s k entry e = e
  seed_groups-Kept ((id, g) ∷ groups) s k entry e =
      seed_groups-Kept groups (seed_entry ref (split_incarnations g).0 s) k entry
        (store_if_absent-Kept _ _ s.cache k entry e)

  seed_groups-known :
      (groups : Map Identity Group) (s : SinkState) (target : GcTarget)
      → Elem target (seed_groups ref groups s).1.seeded
      → (held : CacheEntry) × (lookup
            (cache_key (ref_key ref target.namespace target.name))
            (seed_groups ref groups s).0.cache
          ≡ some held)
  unfolding seed_groups seed_entry
  seed_groups-known [] s target m = absurd m
  seed_groups-known ((id, g) ∷ groups) s target (inl e) =
      let current = (split_incarnations g).0 in
      let (held, known) =
        store_if_absent-has (cache_key (ref_key ref current.namespace current.name))
          (baseline_of current) s.cache in
      (
        held,
        subst
            (λ (t : GcTarget).
              lookup (cache_key (ref_key ref t.namespace t.name))
                (seed_groups ref ((id, g) ∷ groups) s).0.cache
              ≡ some held)
            e (seed_groups-Kept groups (seed_entry ref current s) _ held known),
      )
  seed_groups-known ((id, g) ∷ groups) s target (inr m) =
      seed_groups-known groups (seed_entry ref (split_incarnations g).0 s) target m

  baseline_only :
      (k j : Text) (current : KnownState) (c : HashCache) (held : CacheEntry)
      → lookup j c ≡ none
      → lookup j (store_if_absent k (baseline_of current) c) ≡ some held
      → (k ≡ j) × (held ≡ record (baseline_of current) { version = 1 })
  unfolding store_if_absent
  baseline_only k j current c held free e =
      ground (arith, lookup-insert k j (record (baseline_of current) { version = 1 }) c)

  seed_groups-quiet :
      (groups : Map Identity Group) (s : SinkState) → (seed_groups ref groups s).0.jobs ≡ s.jobs
  unfolding seed_groups seed_entry
  seed_groups-quiet [] s = refl
  seed_groups-quiet ((id, g) ∷ groups) s =
      seed_groups-quiet groups (seed_entry ref (split_incarnations g).0 s)

  -- what `held` is where seeding put it
  abbrev pub Seeded : Text → CacheEntry → GcTarget → Type 0
  Seeded k held target =
      (cache_key (ref_key ref target.namespace target.name) ≡ k)
      × (held.uid ≡ target.uid)
      × (held.version ≡ 1)
      × (held.json ≡ none)
      × (held.pending_delete ≡ false)

  seed_groups-Seeded :
      (groups : Map Identity Group) (s : SinkState) (k : Text) (held : CacheEntry)
      → lookup k s.cache ≡ none
      → lookup k (seed_groups ref groups s).0.cache ≡ some held
      → (target : GcTarget) × Elem target (seed_groups ref groups s).1.seeded × Seeded k held target
  unfolding seed_groups seed_entry
  seed_groups-Seeded [] s k held free e = absurd (cc)
  seed_groups-Seeded ((id, g) ∷ groups) s k held free e =
      let current = (split_incarnations g).0 in
      let s' = seed_entry ref current s in
      elim (Option-cases (lookup k s'.cache)) [
        | inl still ↦
            let (target, m, seeded) = seed_groups-Seeded groups s' k held still e in
            (target, inr m, seeded)
        | inr (entry, known) ↦
            let (at, baseline) = baseline_only _ k current s.cache entry free known in
            let same : entry ≡ held = cc (seed_groups-Kept groups s' k entry known, e) in
            (
              target_of current,
              inl refl,
              subst (λ (h : CacheEntry). Seeded k h (target_of current)) (sym baseline ∙ same)
                  (unfold baseline_of in (at, refl, refl, refl, refl)),
            )
      ]

-- Seeding writes no row and clobbers no live entry: a key that had an entry keeps it; every target's
-- key has one; and an entry that is new is a baseline of a target, unclaimed, under its UID and
-- without a document.
pub seed_states-Kept :
    (ref : ScopeRef) (states : List KnownState) (s : SinkState)
    → Kept s.cache (seed_states ref states s).0.cache
      × ((target : GcTarget)
          → Elem target (seed_states ref states s).1.seeded
          → (held : CacheEntry) × (lookup
                (cache_key (ref_key ref target.namespace target.name))
                (seed_states ref states s).0.cache
              ≡ some held))
      × ((k : Text) (held : CacheEntry)
          → lookup k s.cache ≡ none
          → lookup k (seed_states ref states s).0.cache ≡ some held
          → (target : GcTarget) × Elem target (seed_states ref states s).1.seeded
            × Seeded ref k held target)
      × ((seed_states ref states s).0.jobs ≡ s.jobs)
unfolding seed_states record_cache_entries
seed_states-Kept ref states s = (
  seed_groups-Kept ref (group_by_identity states) s,
  seed_groups-known ref (group_by_identity states) s,
  seed_groups-Seeded ref (group_by_identity states) s,
  seed_groups-quiet ref (group_by_identity states) s,
)
