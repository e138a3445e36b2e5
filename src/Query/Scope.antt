-- ===== src/Query/Scope.antt =====
-- internal/query/scope.go: the intervals in which a scope was watched, from the scope log. An
-- instant is a number, and 0 is Go's zero time, an unbounded end of a window.
pub mod Pairing
pub mod Coverage
use Prim.Native.Nat.{Ordering, compare}
use kuberecord.Base.{
  ℕ, zero, suc, ◌≡◌, Bool, true, false, not, ◌&&◌, Option, none, some, List, [], ◌∷◌, ◌++◌, arith,
  nat_eq, text_eq, ◌==◌, if◌then◌else◌, length, ltb,
}
use kuberecord.Base.Sorting.{sort_stable}
use kuberecord.Base.Text.{Text, codes, compare_text, cmp_or}

abbrev pub scope_started : Text
scope_started = codes "Started"

abbrev pub scope_stopped : Text
scope_stopped = codes "Stopped"

-- `ScopeChange`
pub record ScopeChange : Type 0 where
  pub api_group : Text
  pub kind : Text
  pub namespace : Text
  pub action : Text
  pub rule_ref : Text
  pub ts : ℕ

-- `ScopeInterval`; `to` is `none` where the source has nil.
pub record ScopeInterval : Type 0 where
  pub api_group : Text
  pub kind : Text
  pub namespace : Text
  pub rule_ref : Text
  pub from : ℕ
  pub to : Option ℕ

-- `sameScope`
unfoldable pub same_scope : ScopeChange → ScopeChange → Bool
same_scope a b = a.api_group == b.api_group && a.kind == b.kind && a.namespace == b.namespace

-- The interval that a `Started` entry opens.
abbrev pub opened : ScopeChange → ScopeInterval
opened t = record {
  api_group = t.api_group;
  kind = t.kind;
  namespace = t.namespace;
  rule_ref = t.rule_ref;
  from = t.ts;
  to = none;
}

abbrev pub close : ℕ → ScopeInterval → ScopeInterval
close stop iv = record iv { to = some stop }

-- `intervals[open].To = &stop`
unfoldable pub close_at : ℕ → ℕ → List ScopeInterval → List ScopeInterval
close_at i stop [] = []
close_at zero stop (iv ∷ ivs) = close stop iv ∷ ivs
close_at (suc i) stop (iv ∷ ivs) = iv ∷ close_at i stop ivs

-- The two cases of the switch of `pairScope`; any other action is ignored.
unfoldable pub starts : ScopeChange → Bool
starts t = t.action == scope_started

unfoldable pub stops : ScopeChange → Bool
stops t = not (t.action == scope_started) && t.action == scope_stopped

-- The loop of `pairScope`; the index of the open interval is `none` where the source has -1.
unfoldable pub pair_loop : List ScopeInterval → Option ℕ → List ScopeChange → List ScopeInterval
pair_loop intervals at [] = intervals
pair_loop intervals none (t ∷ ts) =
    pair_loop (if starts t then intervals ++ (opened t ∷ []) else intervals)
      (if starts t then some (length intervals) else none) ts
pair_loop intervals (some i) (t ∷ ts) =
    pair_loop (if stops t then close_at i t.ts intervals else intervals)
      (if stops t then none else some i) ts

-- `pairScope`
unfoldable pub pair_scope : List ScopeChange → List ScopeInterval
unfolding pair_loop starts stops
pair_scope transitions = pair_loop [] none transitions

-- `overlapsWindow`
unfoldable pub overlaps_window : ScopeInterval → ℕ → ℕ → Bool
overlaps_window iv from to =
    if not (to == 0) && ltb to iv.from
    then false
    else if not (from == 0) && elim iv.to [ none ↦ false | some stop ↦ ltb stop from ]
    then false
    else true

-- The comparison of the first sort: by scope, then by time.
unfoldable pub compare_changes : ScopeChange → ScopeChange → Ordering
compare_changes a b = cmp_or (compare_text a.api_group b.api_group) (
    cmp_or (compare_text a.kind b.kind)
      (cmp_or (compare_text a.namespace b.namespace) (compare a.ts b.ts)))

-- The inner loop of `CoverageOf`: the leading entries of a scope, and the others.
unfoldable pub span_scope : ScopeChange → List ScopeChange → List ScopeChange × List ScopeChange
span_scope first [] = ([], [])
span_scope first (t ∷ ts) =
    let rest = span_scope first ts in
    if same_scope t first then (t ∷ rest.0, rest.1) else ([], t ∷ ts)

unfoldable pub keep_overlapping : ℕ → ℕ → List ScopeInterval → List ScopeInterval
keep_overlapping from to [] = []
keep_overlapping from to (iv ∷ ivs) =
    let rest = keep_overlapping from to ivs in
    if overlaps_window iv from to then iv ∷ rest else rest

-- The outer loop of `CoverageOf`, on fuel: each round takes at least one entry.
unfoldable pub coverage_loop : ℕ → ℕ → ℕ → List ScopeChange → List ScopeInterval
coverage_loop zero from to ts = []
coverage_loop (suc fuel) from to [] = []
coverage_loop (suc fuel) from to (t ∷ ts) =
    let (group, rest) = span_scope t (t ∷ ts) in
    keep_overlapping from to (pair_scope group) ++ coverage_loop fuel from to rest

-- `CoverageOf`
unfoldable pub coverage_of : List ScopeChange → ℕ → ℕ → List ScopeInterval
coverage_of changes from to =
    let ordered = sort_stable compare_changes changes in
    sort_stable (λ a b. compare a.from b.from) (coverage_loop (length ordered) from to ordered)
