-- ===== src/Plan/Registry/Views.antt =====
-- What readers see of the registry: the snapshot, and the wake-ups.
use Prim.Native.Nat.{Ordering}
use kuberecord.Base.{
  ℕ, ◌≡◌, ◌≢◌, Bool, true, false, ◌&&◌, ◌||◌, Option, none, some, List, [], ◌∷◌, arith, refl,
  text_eq, ◌==◌, contains, Option-cases, inl, inr, ◌∙◌, ==_self, ltb, map,
}
use kuberecord.Base.Map.{Map, lookup}
use kuberecord.Base.Text.{Text, compare_text, compare_text-flip}
use kuberecord.Plan.Registry.{
  Registry, TargetState, WatchTarget, TargetKey, TargetEntry, watch_target_eq, target_key_eq, key,
  held_by, install, upsert, canonical_targets, count_of, some_missing, add_missing, drop_missing,
  insert_sorted, sorted, sorted_keys, state_of, snapshot_of, snapshot,
}
use kuberecord.Plan.Registry.Counts.{IsPositive}
use kuberecord.Plan.Registry.Ledger.{
  Ledger, Axis, rules, selectors, redactions, event_filters, asks, tally, Tracks, counts, count_in,
}
use kuberecord.Plan.Registry.Sets.{Unique, ledger}
use kuberecord.Plan.Registry.Installed.{
  canonical_targets-Unique, held-Unique, IsValid, wants, contains-canonical_targets,
}

contains-insert_sorted :
    (x y : Text) (ys : List Text) → contains (insert_sorted x ys) y ≡ (x == y) || contains ys y
unfolding contains insert_sorted
contains-insert_sorted x y [] = ground arith
contains-insert_sorted x y (z ∷ zs) = ground (arith, contains-insert_sorted x y zs)

contains-sorted : (y : Text) (xs : List Text) → contains (sorted xs) y ≡ contains xs y
unfolding contains sorted
contains-sorted y [] = refl
contains-sorted y (x ∷ xs) =
    ground (arith, contains-insert_sorted x y (sorted xs), contains-sorted y xs)

-- no string stands before a smaller one
abbrev pub Ascending : List Text → Type 0
Ascending [] = Unit
Ascending (x ∷ []) = Unit
Ascending (x ∷ y ∷ ys) = (compare_text x y ≢ Ordering.gt) × Ascending (y ∷ ys)

insert_sorted-Ascending :
    (x : Text) (ys : List Text) → Ascending ys → Ascending (insert_sorted x ys)
unfolding insert_sorted
insert_sorted-Ascending x [] a = tt
insert_sorted-Ascending x (y ∷ []) a = ground (arith, compare_text-flip x y)
insert_sorted-Ascending x (y ∷ z ∷ zs) a =
    ground (arith, compare_text-flip x y, insert_sorted-Ascending x (z ∷ zs))

sorted-Ascending : (xs : List Text) → Ascending (sorted xs)
unfolding sorted
sorted-Ascending [] = tt
sorted-Ascending (x ∷ xs) = insert_sorted-Ascending x (sorted xs) (sorted-Ascending xs)

contains-keys :
    (x : Text) (m : Map Text ℕ)
    → IsPositive m
    → contains (map (λ e. e.0) m) x ≡ ltb 0 (count_of x m)
unfolding contains count_of lookup
contains-keys x [] p = refl
contains-keys x ((k, n) ∷ m) p = ground (arith, contains-keys x m)

-- Whether some contribution to the key asks for the member.
unfoldable pub asked : Axis → TargetKey → Text → Ledger → Bool
asked a k x [] = false
asked a k x (c ∷ l) = key c.1 == k && asks a x c || asked a k x l

asked-tally :
    (a : Axis) (k : TargetKey) (x : Text) (l : Ledger) → asked a k x l ≡ ltb 0 (tally a k x l)
unfolding asked tally
asked-tally a k x [] = refl
asked-tally a k x (c ∷ l) = ground (arith, asked-tally a k x l)

lookup-snapshot_of :
    (k : TargetKey) (m : Map TargetKey TargetEntry)
    → lookup k (snapshot_of m) ≡ elim (lookup k m) [ none ↦ none | some e ↦ some (state_of k e) ]
unfolding snapshot_of lookup
lookup-snapshot_of k [] = refl
lookup-snapshot_of k ((j, e) ∷ m) = ground (arith, lookup-snapshot_of k m)

-- The list of a target's state that belongs to an axis.
unfoldable pub listed : Axis → TargetState → List Text
listed rules st = st.rule_keys
listed selectors st = st.selectors
listed redactions st = st.redactions
listed event_filters st = st.event_filters

listed-state_of :
    (a : Axis) (x : Text) (k : TargetKey) (e : TargetEntry)
    → IsPositive (counts a e)
    → (contains (listed a (state_of k e)) x ≡ ltb 0 (count_of x (counts a e)))
      × Ascending (listed a (state_of k e))
unfolding listed state_of counts sorted_keys
listed-state_of rules x k e p =
    (contains-sorted x _ ∙ contains-keys x e.rules p, sorted-Ascending _)
listed-state_of selectors x k e p =
    (contains-sorted x _ ∙ contains-keys x e.selectors p, sorted-Ascending _)
listed-state_of redactions x k e p =
    (contains-sorted x _ ∙ contains-keys x e.redactions p, sorted-Ascending _)
listed-state_of event_filters x k e p =
    (contains-sorted x _ ∙ contains-keys x e.event_filters p, sorted-Ascending _)

insert_sorted-ne-nil : (x : Text) (ys : List Text) → insert_sorted x ys ≢ []
unfolding insert_sorted
insert_sorted-ne-nil x [] = ground arith
insert_sorted-ne-nil x (y ∷ ys) = ground arith

sorted_keys-ne-nil : (m : Map Text ℕ) → m ≢ [] → sorted_keys m ≢ []
unfolding sorted_keys
sorted_keys-ne-nil [] h = absurd (h refl)
sorted_keys-ne-nil ((x, n) ∷ m) h = insert_sorted-ne-nil x _

-- What a state has to show of a key, given the rules' contributions.
pub record Shows (k : TargetKey) (l : Ledger) (st : TargetState) : Type 0 where
  pub keyed : st.key ≡ k
  pub held : st.rule_keys ≢ []
  pub exact : (a : Axis) (x : Text) → contains (listed a st) x ≡ asked a k x l
  pub ascending : (a : Axis) → Ascending (listed a st)

state_of-Shows :
    (k : TargetKey) (e : TargetEntry) (m : Map TargetKey TargetEntry) (l : Ledger)
    → Tracks m l
    → lookup k m ≡ some e
    → Shows k l (state_of k e)
unfolding state_of count_in
state_of-Shows k e m l h found =
    let alive = h.live k e found in
    record {
      keyed = refl;
      held = sorted_keys-ne-nil e.rules alive.held;
      exact = λ a x. ground (
        arith,
        (listed-state_of a x k e (alive.positive a)).0,
        asked-tally a k x l,
        h.exact a k x,
      );
      ascending = λ a. (listed-state_of a [] k e (alive.positive a)).1;
    }

-- A snapshot of a valid registry is the merge of what the rules ask for. A target that is missing
-- from it is one that no rule contributes to. One that is there names its own key and at least one
-- rule, and its rules, selectors, redactions and filters are, in ascending order, exactly those
-- that some contribution to the key asks for.
pub snapshot-Shows :
    (r : Registry) (k : TargetKey)
    → IsValid r
    → (lookup k (snapshot r) ≡ none → (a : Axis) (x : Text) → asked a k x (ledger r.rules) ≡ false)
      × ((st : TargetState) → lookup k (snapshot r) ≡ some st → Shows k (ledger r.rules) st)
unfolding snapshot count_in
snapshot-Shows r k v = (
  λ n a x. ground (
    arith,
    lookup-snapshot_of k r.targets,
    v.tracks.exact a k x,
    asked-tally a k x (ledger r.rules),
  ),
  λ st h. elim (Option-cases (lookup k r.targets)) [
    | inl n ↦ absurd (ground (arith, lookup-snapshot_of k r.targets))
    | inr (e, found) ↦
        let same : state_of k e ≡ st = ground (arith, lookup-snapshot_of k r.targets) in
        rw (← same) (state_of-Shows k e r.targets (ledger r.rules) v.tracks found)
  ],
)

add_missing-none :
    (rule : Text) (ts held : List WatchTarget) (m : Map TargetKey TargetEntry)
    → some_missing ts held ≡ false
    → add_missing rule ts held m ≡ m
unfolding some_missing add_missing
add_missing-none rule [] held m h = refl
add_missing-none rule (t ∷ ts) held m h = ground (arith, add_missing-none rule ts held m)

drop_missing-none :
    (rule : Text) (ts wanted : List WatchTarget) (m : Map TargetKey TargetEntry)
    → some_missing ts wanted ≡ false
    → drop_missing rule ts wanted m ≡ m
unfolding some_missing drop_missing
drop_missing-none rule [] wanted m h = refl
drop_missing-none rule (t ∷ ts) wanted m h = ground (arith, drop_missing-none rule ts wanted m)

-- a set that the other contains
some_missing-none :
    (ts other : List WatchTarget)
    → Unique ts
    → ((u : WatchTarget) → contains ts u ≡ true → contains other u ≡ true)
    → some_missing ts other ≡ false
unfolding some_missing contains
some_missing-none [] other u h = refl
some_missing-none (t ∷ ts) other u h =
    ground (arith, h t, ==_self t, some_missing-none ts other u.1 (λ w inside. h w (ground arith)))

install-targets :
    (rule : Text) (desired : List WatchTarget) (r : Registry)
    → (install rule desired r).pending ≡ false
    → (install rule desired r).targets ≡ r.targets
unfolding install
install-targets rule desired r h =
    let current = held_by (lookup rule r.rules) in
    ground (
      arith,
      add_missing-none rule desired current r.targets,
      drop_missing-none rule current desired r.targets,
    )

install-pending :
    (rule : Text) (desired : List WatchTarget) (r : Registry)
    → Unique desired
    → Unique (held_by (lookup rule r.rules))
    → ((u : WatchTarget) → contains desired u ≡ contains (held_by (lookup rule r.rules)) u)
    → (install rule desired r).pending ≡ r.pending
unfolding install
install-pending rule desired r u w same =
    let current = held_by (lookup rule r.rules) in
    ground (
      arith,
      some_missing-none desired current u (λ x h. ground (arith, same x)),
      some_missing-none current desired w (λ x h. ground (arith, same x)),
    )

module _ (parse_selector : Text → Option Text) (rule : Text) (targets : List WatchTarget)
    (r : Registry) where
  -- The wake-ups of `Upsert` on a valid registry. If none is pending after the call, the merged
  -- targets are as they were; and a call that asks for what the rule already holds adds none.
  pub upsert-pending :
      IsValid r
      → ((upsert parse_selector rule targets r).0.pending ≡ false
          → (upsert parse_selector rule targets r).0.targets ≡ r.targets)
        × (((u : WatchTarget)
              → wants parse_selector targets u ≡ contains (held_by (lookup rule r.rules)) u)
            → (upsert parse_selector rule targets r).0.pending ≡ r.pending)
  unfolding upsert contains
  upsert-pending v = elim (Option-cases (canonical_targets parse_selector targets [])) [
    | inl bad ↦ (λ h. ground arith, λ same. ground arith)
    | inr (desired, good) ↦
        let unique = canonical_targets-Unique parse_selector targets [] tt good in
        (
          λ h. ground (arith, good, install-targets rule desired r),
          λ same. ground (
            arith,
            good,
            install-pending rule desired r unique (held-Unique rule r.rules v.unique) (λ u. ground (
              arith,
              same u,
              contains-canonical_targets parse_selector targets [] desired u good,
            )),
          ),
        )
  ]
