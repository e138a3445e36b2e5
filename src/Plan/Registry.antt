-- ===== src/Plan/Registry.antt =====
-- internal/plan/registry.go: the desired-state registry. A Go map that is used as a set is a list
-- without duplicates, and a `range` over a map takes its entries in the order of the list.
pub mod Counts
pub mod Ledger
pub mod Sets
pub mod Installed
pub mod Views
use Prim.Native.Nat.{Ordering}
use kuberecord.Base.{
  ℕ, zero, suc, ◌+◌, ◌-◌, ◌≡◌, Bool, true, false, not, ◌&&◌, ◌||◌, Option, none, some, List, [],
  ◌∷◌, arith, Eq, List-ℕ_discrete, text_eq, ◌==◌, if◌then◌else◌, length, leb, contains, map,
}
use kuberecord.Base.Map.{Map, lookup, insert, erase}
use kuberecord.Base.Text.{Text, compare_text}
use kuberecord.Sink.Identity.{SinkId, id_eq, SinkId_discrete}

-- `schema.GroupVersionKind`
pub record GroupVersionKind : Type 0 where
  pub group : Text
  pub version : Text
  pub kind : Text

-- `WatchTarget`
pub record WatchTarget : Type 0 where
  pub sink : SinkId
  pub gvk : GroupVersionKind
  pub namespace : Text
  pub selector : Text
  pub redaction : Text
  pub event_filter : Text

-- `TargetKey`
pub record TargetKey : Type 0 where
  pub sink : SinkId
  pub gvk : GroupVersionKind
  pub namespace : Text

pub GroupVersionKind_discrete : Discrete GroupVersionKind
GroupVersionKind_discrete = hlevel List-ℕ_discrete

pub WatchTarget_discrete : Discrete WatchTarget
WatchTarget_discrete = hlevel (List-ℕ_discrete, SinkId_discrete, GroupVersionKind_discrete)

pub TargetKey_discrete : Discrete TargetKey
TargetKey_discrete = hlevel (List-ℕ_discrete, SinkId_discrete, GroupVersionKind_discrete)

instance abbrev pub watch_target_eq : Eq WatchTarget
watch_target_eq = record { same = WatchTarget_discrete }

instance abbrev pub target_key_eq : Eq TargetKey
target_key_eq = record { same = TargetKey_discrete }

-- `WatchTarget.Key`
abbrev pub key : WatchTarget → TargetKey
key t = record { sink = t.sink; gvk = t.gvk; namespace = t.namespace }

-- `TargetState`
pub record TargetState : Type 0 where
  pub key : TargetKey
  pub rule_keys : List Text
  pub selectors : List Text
  pub redactions : List Text
  pub event_filters : List Text

-- `targetEntry`
pub record TargetEntry : Type 0 where
  pub rules : Map Text ℕ
  pub selectors : Map Text ℕ
  pub redactions : Map Text ℕ
  pub event_filters : Map Text ℕ

-- `Registry`; `pending` is whether the channel of capacity 1 holds a wake-up.
pub record Registry : Type 0 where
  pub rules : Map Text (List WatchTarget)
  pub targets : Map TargetKey TargetEntry
  pub pending : Bool

-- `New`
abbrev pub new : Registry
new = record { rules = []; targets = []; pending = false }

abbrev pub empty_entry : TargetEntry
empty_entry = record { rules = []; selectors = []; redactions = []; event_filters = [] }

-- `m[k]` of a map of counts
unfoldable pub count_of : Text → Map Text ℕ → ℕ
count_of k m = elim (lookup k m) [ none ↦ 0 | some n ↦ n ]

-- `m[k]++`
unfoldable pub inc : Text → Map Text ℕ → Map Text ℕ
unfolding count_of
inc k m = insert k (count_of k m + 1) m

-- `if m[k]--; m[k] <= 0 { delete(m, k) }`
unfoldable pub dec : Text → Map Text ℕ → Map Text ℕ
unfolding count_of
dec k m = if leb (count_of k m) 1 then erase k m else insert k (count_of k m - 1) m

-- The entry of a target once a rule's contribution is counted.
unfoldable pub add_entry : Text → WatchTarget → TargetEntry → TargetEntry
add_entry rule t e = record {
  rules = inc rule e.rules;
  selectors = inc t.selector e.selectors;
  redactions = if t.redaction == [] then e.redactions else inc t.redaction e.redactions;
  event_filters = inc t.event_filter e.event_filters;
}

abbrev pub or_empty : Option TargetEntry → TargetEntry
or_empty none = empty_entry
or_empty (some e) = e

-- `addRefLocked`
unfoldable pub add_ref : Text → WatchTarget → Map TargetKey TargetEntry → Map TargetKey TargetEntry
add_ref rule t m = insert (key t) (add_entry rule t (or_empty (lookup (key t) m))) m

unfoldable pub drop_entry : Text → WatchTarget → TargetEntry → TargetEntry
drop_entry rule t e = record {
  rules = dec rule e.rules;
  selectors = dec t.selector e.selectors;
  redactions = if t.redaction == [] then e.redactions else dec t.redaction e.redactions;
  event_filters = dec t.event_filter e.event_filters;
}

abbrev pub is_empty {ℓ} : {A : Type ℓ} → List A → Bool
is_empty [] = true
is_empty (x ∷ xs) = false

-- What becomes of a target's entry once a contribution is withdrawn: it goes with its last rule.
unfoldable pub settle :
    TargetKey → TargetEntry → Map TargetKey TargetEntry → Map TargetKey TargetEntry
settle k e m = if is_empty e.rules then erase k m else insert k e m

-- `dropRefLocked`
unfoldable pub drop_ref : Text → WatchTarget → Map TargetKey TargetEntry → Map TargetKey TargetEntry
drop_ref rule t m = elim (lookup (key t) m) [
  | none ↦ m
  | some e ↦ settle (key t) (drop_entry rule t e) m
]

-- The two loops of `Upsert`, over the targets that only the one set has.
unfoldable pub add_missing :
    Text
    → List WatchTarget
    → List WatchTarget
    → Map TargetKey TargetEntry
    → Map TargetKey TargetEntry
add_missing rule [] held m = m
add_missing rule (t ∷ ts) held m =
    add_missing rule ts held (if contains held t then m else add_ref rule t m)

unfoldable pub drop_missing :
    Text
    → List WatchTarget
    → List WatchTarget
    → Map TargetKey TargetEntry
    → Map TargetKey TargetEntry
drop_missing rule [] wanted m = m
drop_missing rule (t ∷ ts) wanted m =
    drop_missing rule ts wanted (if contains wanted t then m else drop_ref rule t m)

-- Whether a target of the first set is missing from the second.
unfoldable pub some_missing : List WatchTarget → List WatchTarget → Bool
some_missing [] other = false
some_missing (t ∷ ts) other = not (contains other t) || some_missing ts other

-- `desired[t] = struct{}{}`
unfoldable pub add_target : WatchTarget → List WatchTarget → List WatchTarget
add_target t ts = if contains ts t then ts else t ∷ ts

abbrev pub held_by : Option (List WatchTarget) → List WatchTarget
held_by none = []
held_by (some ts) = ts

-- The part of `Upsert` under the lock.
unfoldable pub install : Text → List WatchTarget → Registry → Registry
install rule desired r =
    let current = held_by (lookup rule r.rules) in
    record {
      rules = if is_empty desired then erase rule r.rules else insert rule desired r.rules;
      targets = drop_missing rule current desired (add_missing rule desired current r.targets);
      pending = some_missing desired current || some_missing current desired || r.pending;
    }

-- The loop of `Remove`.
unfoldable pub drop_all :
    Text → List WatchTarget → Map TargetKey TargetEntry → Map TargetKey TargetEntry
drop_all rule [] m = m
drop_all rule (t ∷ ts) m = drop_all rule ts (drop_ref rule t m)

-- `Remove`
unfoldable pub remove : Text → Registry → Registry
remove rule r = elim (lookup rule r.rules) [
  | none ↦ r
  | some current ↦ record {
    rules = erase rule r.rules;
    targets = drop_all rule current r.targets;
    pending = true;
  }
]

-- `labels.Parse` followed by `String`, of k8s.io/apimachinery; `none` is its error.
module _ (parse_selector : Text → Option Text) where
  -- `canonicalizeSelectorString`
  unfoldable pub canonicalize_selector_string : Text → Option Text
  canonicalize_selector_string s = if s == [] then some [] else parse_selector s

  -- The loop of `Upsert` that builds the desired set before the lock is taken.
  unfoldable pub canonical_targets : List WatchTarget → List WatchTarget → Option (List WatchTarget)
  canonical_targets [] desired = some desired
  canonical_targets (t ∷ ts) desired = elim (canonicalize_selector_string t.selector) [
    | none ↦ none
    | some sel ↦ canonical_targets ts (add_target (record t { selector = sel }) desired)
  ]

  -- `Upsert`: the new registry, and whether the call returned an error.
  unfoldable pub upsert : Text → List WatchTarget → Registry → Registry × Bool
  upsert rule targets r = elim (canonical_targets targets []) [
    | none ↦ (r, true)
    | some desired ↦ (install rule desired r, false)
  ]

-- `slices.Sorted` of distinct strings
unfoldable pub insert_sorted : Text → List Text → List Text
insert_sorted x [] = x ∷ []
insert_sorted x (y ∷ ys) = elim (compare_text x y) [
  | Ordering.gt ↦ y ∷ insert_sorted x ys
  | _ ↦ x ∷ y ∷ ys
]

unfoldable pub sorted : List Text → List Text
sorted [] = []
sorted (x ∷ xs) = insert_sorted x (sorted xs)

-- `slices.Sorted(maps.Keys(m))`
unfoldable pub sorted_keys : Map Text ℕ → List Text
unfolding sorted
sorted_keys m = sorted (map (λ e. e.0) m)

unfoldable pub state_of : TargetKey → TargetEntry → TargetState
state_of k e = record {
  key = k;
  rule_keys = sorted_keys e.rules;
  selectors = sorted_keys e.selectors;
  redactions = sorted_keys e.redactions;
  event_filters = sorted_keys e.event_filters;
}

-- The loop of `Snapshot`.
unfoldable pub snapshot_of : Map TargetKey TargetEntry → Map TargetKey TargetState
unfolding state_of
snapshot_of [] = []
snapshot_of ((k, e) ∷ m) = (k, state_of k e) ∷ snapshot_of m

-- `Snapshot`
unfoldable pub snapshot : Registry → Map TargetKey TargetState
snapshot r = snapshot_of r.targets

-- `rules[ruleKey] = struct{}{}` for each rule of an entry
unfoldable pub add_rules : Map Text ℕ → List Text → List Text
add_rules [] found = found
add_rules ((rule, n) ∷ m) found = add_rules m (if contains found rule then found else rule ∷ found)

-- The loop of `RulesForSink`.
unfoldable pub collect_rules : SinkId → Map TargetKey TargetEntry → List Text → List Text
unfolding add_rules
collect_rules id [] found = found
collect_rules id ((k, e) ∷ m) found =
    collect_rules id m (if k.sink == id then add_rules e.rules found else found)

-- `RulesForSink`
unfoldable pub rules_for_sink : SinkId → Registry → List Text
unfolding collect_rules
rules_for_sink id r = sorted (collect_rules id r.targets [])

-- The loop of `TargetCountForRule`.
unfoldable pub distinct_keys : List WatchTarget → List TargetKey → List TargetKey
distinct_keys [] found = found
distinct_keys (t ∷ ts) found =
    distinct_keys ts (if contains found (key t) then found else key t ∷ found)

-- `TargetCountForRule`
unfoldable pub target_count_for_rule : Text → Registry → ℕ
unfolding distinct_keys
target_count_for_rule rule r = length (distinct_keys (held_by (lookup rule r.rules)) [])
