-- ===== src/Plan/Registry/Ledger.antt =====
-- The merged targets against a ledger: the list of every rule's contributions.
use kuberecord.Base.{
  ℕ, ◌+◌, ◌-◌, ◌≡◌, ◌≢◌, Bool, false, not, ◌&&◌, Option, none, some, List, [], ◌∷◌, arith, refl,
  text_eq, ◌==◌, if◌then◌else◌, Option-cases, Bool-cases, ==_self, eq_of_==, sym, ◌∙◌, inl, inr,
}
use kuberecord.Base.Map.{Map, lookup, insert, lookup-insert, lookup-erase}
use kuberecord.Base.Text.{Text}
use kuberecord.Plan.Registry.{
  WatchTarget, TargetKey, TargetEntry, target_key_eq, key, count_of, add_entry, drop_entry, add_ref,
  drop_ref, settle, or_empty, is_empty, empty_entry,
}
use kuberecord.Plan.Registry.Counts.{
  count_of-inc, count_of-dec, IsPositive, inc-IsPositive, dec-IsPositive, inc-ne-nil,
}

abbrev pub Ledger : Type 0
Ledger = List (Text × WatchTarget)

-- The four sets that a target's entry merges.
pub data Axis : Type 0 where
  rules selectors redactions event_filters : Axis

unfoldable pub counts : Axis → TargetEntry → Map Text ℕ
counts rules e = e.rules
counts selectors e = e.selectors
counts redactions e = e.redactions
counts event_filters e = e.event_filters

-- Whether a contribution of the rule asks for the member. An empty redaction asks for none, an
-- empty selector or filter is a member like any other.
unfoldable pub asks : Axis → Text → Text × WatchTarget → Bool
asks rules x (rule, t) = rule == x
asks selectors x (rule, t) = t.selector == x
asks redactions x (rule, t) = not (t.redaction == []) && t.redaction == x
asks event_filters x (rule, t) = t.event_filter == x

-- How many contributions to a key ask for the member.
unfoldable pub tally : Axis → TargetKey → Text → Ledger → ℕ
tally a k x [] = 0
tally a k x (c ∷ l) = (if key c.1 == k && asks a x c then 1 else 0) + tally a k x l

unfoldable pub count_in : Axis → TargetKey → Text → Map TargetKey TargetEntry → ℕ
count_in a k x m = elim (lookup k m) [ none ↦ 0 | some e ↦ count_of x (counts a e) ]

-- An entry of the map: some rule holds it, and no count is zero.
pub record IsLive (e : TargetEntry) : Type 0 where
  pub held : e.rules ≢ []
  pub positive : (a : Axis) → IsPositive (counts a e)

-- Every count of the merged targets is the number of contributions that ask for it.
pub record Tracks (m : Map TargetKey TargetEntry) (l : Ledger) : Type 0 where
  pub exact : (a : Axis) (k : TargetKey) (x : Text) → count_in a k x m ≡ tally a k x l
  pub live : (k : TargetKey) (e : TargetEntry) → lookup k m ≡ some e → IsLive e

count_of-add_entry :
    (a : Axis) (x rule : Text) (t : WatchTarget) (e : TargetEntry)
    → count_of x (counts a (add_entry rule t e))
      ≡ (if asks a x (rule, t) then 1 else 0) + count_of x (counts a e)
unfolding counts asks add_entry
count_of-add_entry rules x rule t e = ground (arith, count_of-inc rule x e.rules)
count_of-add_entry selectors x rule t e = ground (arith, count_of-inc t.selector x e.selectors)
count_of-add_entry redactions x rule t e = ground (arith, count_of-inc t.redaction x e.redactions)
count_of-add_entry event_filters x rule t e =
    ground (arith, count_of-inc t.event_filter x e.event_filters)

count_of-drop_entry :
    (a : Axis) (x rule : Text) (t : WatchTarget) (e : TargetEntry)
    → count_of x (counts a (drop_entry rule t e))
      ≡ count_of x (counts a e) - (if asks a x (rule, t) then 1 else 0)
unfolding counts asks drop_entry
count_of-drop_entry rules x rule t e = ground (arith, count_of-dec rule x e.rules)
count_of-drop_entry selectors x rule t e = ground (arith, count_of-dec t.selector x e.selectors)
count_of-drop_entry redactions x rule t e = ground (arith, count_of-dec t.redaction x e.redactions)
count_of-drop_entry event_filters x rule t e =
    ground (arith, count_of-dec t.event_filter x e.event_filters)

count_of-empty : (a : Axis) (x : Text) → count_of x (counts a empty_entry) ≡ 0
unfolding counts count_of lookup
count_of-empty rules x = refl
count_of-empty _ x = refl

empty-IsPositive : (a : Axis) → IsPositive (counts a empty_entry)
unfolding counts
empty-IsPositive rules = tt
empty-IsPositive _ = tt

add_entry-IsLive :
    (rule : Text) (t : WatchTarget) (e : TargetEntry)
    → ((a : Axis) → IsPositive (counts a e))
    → IsLive (add_entry rule t e)
unfolding add_entry
add_entry-IsLive rule t e p = record {
  held = inc-ne-nil rule e.rules;
  positive =
      unfold counts in
      λ a. elim a as (λ a. IsPositive (counts a (add_entry rule t e))) [
        | rules ↦ inc-IsPositive rule e.rules (p rules)
        | selectors ↦ inc-IsPositive t.selector e.selectors (p selectors)
        | redactions ↦ ground (arith, p redactions, inc-IsPositive t.redaction e.redactions)
        | event_filters ↦ inc-IsPositive t.event_filter e.event_filters (p event_filters)
      ];
}

drop_entry-IsPositive :
    (rule : Text) (t : WatchTarget) (e : TargetEntry)
    → ((a : Axis) → IsPositive (counts a e))
    → (a : Axis) → IsPositive (counts a (drop_entry rule t e))
unfolding drop_entry counts
drop_entry-IsPositive rule t e p rules = dec-IsPositive rule e.rules (p rules)
drop_entry-IsPositive rule t e p selectors = dec-IsPositive t.selector e.selectors (p selectors)
drop_entry-IsPositive rule t e p redactions =
    ground (arith, p redactions, dec-IsPositive t.redaction e.redactions)
drop_entry-IsPositive rule t e p event_filters =
    dec-IsPositive t.event_filter e.event_filters (p event_filters)

count_in-add_ref :
    (a : Axis) (k : TargetKey) (x rule : Text) (t : WatchTarget) (m : Map TargetKey TargetEntry)
    → count_in a k x (add_ref rule t m)
      ≡ (if key t == k && asks a x (rule, t) then 1 else 0) + count_in a k x m
unfolding count_in add_ref
count_in-add_ref a k x rule t m = ground (
  arith,
  lookup-insert (key t) k (add_entry rule t (or_empty (lookup (key t) m))) m,
  count_of-add_entry a x rule t (or_empty (lookup (key t) m)),
  count_of-empty a x,
)

or_empty-IsPositive :
    (o : Option TargetEntry)
    → ((e : TargetEntry) → o ≡ some e → IsLive e)
    → (a : Axis) → IsPositive (counts a (or_empty o))
or_empty-IsPositive none h = empty-IsPositive
or_empty-IsPositive (some e) h = (h e refl).positive

lookup-IsLive :
    (k j : TargetKey) (new e : TargetEntry) (m : Map TargetKey TargetEntry)
    → IsLive new
    → (lookup j m ≡ some e → IsLive e)
    → lookup j (insert k new m) ≡ some e
    → IsLive e
lookup-IsLive k j new e m fresh old h = elim (Bool-cases (k == j)) [
  | inl hit ↦ let same : new ≡ e = ground (arith, lookup-insert k j new m) in rw (← same) fresh
  | inr miss ↦ old (ground (arith, lookup-insert k j new m))
]

-- Counting a contribution keeps the targets in step with the ledger.
pub add_ref-Tracks :
    (rule : Text) (t : WatchTarget) (m : Map TargetKey TargetEntry) (l : Ledger)
    → Tracks m l
    → Tracks (add_ref rule t m) ((rule, t) ∷ l)
unfolding tally add_ref
add_ref-Tracks rule t m l h = record {
  exact = λ a k x. omega (arith, count_in-add_ref a k x rule t m, h.exact a k x);
  live = λ k e.
      let o = lookup (key t) m in
      lookup-IsLive (key t) k (add_entry rule t (or_empty o)) e m
        (add_entry-IsLive rule t (or_empty o) (or_empty-IsPositive o (h.live (key t))))
        (h.live k e);
}

-- A key that no rule contributes to has no contribution at all.
tally-unheld :
    (k : TargetKey) (l : Ledger)
    → ((rule : Text) → tally rules k rule l ≡ 0)
    → (a : Axis) (x : Text) → tally a k x l ≡ 0
unfolding tally
tally-unheld k [] h a x = refl
tally-unheld k ((rule, t) ∷ l) h a x =
    let elsewhere : (key t == k) ≡ false = unfold asks in ground (arith, h rule, ==_self rule) in
    ground (arith, elsewhere, tally-unheld k l (λ r. omega (arith, h r)) a x)

-- Putting an entry with the ledger's counts in the place of a key's old one.
module _ (k : TargetKey) (e : TargetEntry) (m : Map TargetKey TargetEntry) (l : Ledger)
    (exact : (a : Axis) (x : Text) → count_of x (counts a e) ≡ tally a k x l)
    (others : (a : Axis) (j : TargetKey) (x : Text)
      → (k == j) ≡ false
      → count_in a j x m ≡ tally a j x l) where
  settle-gone : e.rules ≡ [] → (a : Axis) (x : Text) → tally a k x l ≡ 0
  settle-gone gone =
      tally-unheld k l (λ r. sym (exact rules r) ∙ unfold counts count_of lookup in rw gone refl)

  settle-exact :
      (a : Axis) (j : TargetKey) (x : Text) → count_in a j x (settle k e m) ≡ tally a j x l
  unfolding settle count_in
  settle-exact a j x = elim (Bool-cases (k == j)) [
    | inl hit ↦ rw (← eq_of_== k j hit) (
        ground (
          arith,
          exact a x,
          lookup-insert k k e m,
          lookup-erase k k m,
          ==_self k,
          λ (g : e.rules ≡ []). settle-gone g a x,
        ))
    | inr miss ↦ ground (arith, others a j x miss, lookup-insert k j e m, lookup-erase k j m)
  ]

  settle-IsLive :
      ((a : Axis) → IsPositive (counts a e))
      → ((j : TargetKey) (e' : TargetEntry) → lookup j m ≡ some e' → IsLive e')
      → (j : TargetKey) (e' : TargetEntry) → lookup j (settle k e m) ≡ some e'
      → IsLive e'
  unfolding settle
  settle-IsLive positive live j e' h = elim (Bool-cases (is_empty e.rules)) [
    | inl gone ↦ live j e' (ground (arith, lookup-erase k j m))
    | inr kept ↦
        lookup-IsLive k j e e' m (record { held = λ n. ground (arith, n); positive = positive })
          (live j e') (ground (arith, h))
  ]

module _ (rule : Text) (t : WatchTarget) (m : Map TargetKey TargetEntry) (l : Ledger) where
  -- the entry that a contribution in the ledger has
  present : Tracks m ((rule, t) ∷ l) → (e : TargetEntry) × (lookup (key t) m ≡ some e)
  unfolding tally count_in asks
  present h = elim (Option-cases (lookup (key t) m)) [
    | inl n ↦ absurd (ground (arith, h.exact rules (key t) rule, ==_self (key t), ==_self rule))
    | inr found ↦ found
  ]

  dropped-tally :
      (e : TargetEntry)
      → Tracks m ((rule, t) ∷ l)
      → lookup (key t) m ≡ some e
      → (a : Axis) (x : Text) → count_of x (counts a (drop_entry rule t e)) ≡ tally a (key t) x l
  unfolding tally count_in
  dropped-tally e h found a x =
      ground (arith, h.exact a (key t) x, count_of-drop_entry a x rule t e, ==_self (key t))

  elsewhere :
      Tracks m ((rule, t) ∷ l)
      → (a : Axis) (j : TargetKey) (x : Text) → (key t == j) ≡ false
      → count_in a j x m ≡ tally a j x l
  unfolding tally
  elsewhere h a j x miss = ground (arith, h.exact a j x)

  -- Withdrawing a contribution keeps the targets in step with the ledger.
  pub drop_ref-Tracks : Tracks m ((rule, t) ∷ l) → Tracks (drop_ref rule t m) l
  unfolding drop_ref
  drop_ref-Tracks h =
      let (e, found) = present h in
      let exact = dropped-tally e h found in
      rw (found, drop_ref)
        (record {
          exact = settle-exact (key t) (drop_entry rule t e) m l exact (elsewhere h);
          live =
              settle-IsLive (key t) (drop_entry rule t e) m l exact (elsewhere h)
                (drop_entry-IsPositive rule t e (h.live (key t) e found).positive) h.live;
        })
