-- ===== src/Watch/Interest.antt =====
-- internal/watch/interest.go: an interest is a merged target with its selectors, filters and redactions
-- compiled; the table answers which interests an object falls under. A method of the table runs under
-- its lock and is one step; a Go map is walked in the order of its entries here.
pub mod Selecting
use kuberecord.Base.{
  ℕ, Bool, true, false, ◌||◌, Option, none, some, List, [], ◌∷◌, ◌++◌, Eq, List-ℕ_discrete, text_eq,
  nat_eq, ◌==◌, if◌then◌else◌, length, contains,
}
use kuberecord.Base.Json.{Fields}
use kuberecord.Base.Map.{Map}
use kuberecord.Base.Sorting.{sort_stable}
use kuberecord.Base.Text.{Text, compare_text}
use kuberecord.Pipeline.Identity.{Key, ScopeKey}
use kuberecord.Pipeline.Redact.{Quoting, RedactionPolicy, Result, ok, err, compile_redaction}
use kuberecord.Plan.Registry.{TargetState, GroupVersionKind}
use kuberecord.Sink.Identity.{SinkId, SinkId_discrete}
use kuberecord.Watch.EventFilter.{FilterLibrary, EventMatcher, compile_event_filters, matches}

-- `schema.GroupVersionResource`
pub record GroupVersionResource : Type 0 where
  pub group : Text
  pub version : Text
  pub resource : Text

pub GroupVersionResource_discrete : Discrete GroupVersionResource
GroupVersionResource_discrete = hlevel List-ℕ_discrete

-- `informerScope`
pub record InformerScope : Type 0 where
  pub gvr : GroupVersionResource
  pub namespace : Text

pub InformerScope_discrete : Discrete InformerScope
InformerScope_discrete = hlevel (List-ℕ_discrete, GroupVersionResource_discrete)

-- `informerKey`
pub record InformerKey : Type 0 where
  pub scope : InformerScope
  pub field_selector : Text

pub InformerKey_discrete : Discrete InformerKey
InformerKey_discrete = hlevel (List-ℕ_discrete, InformerScope_discrete)

instance abbrev pub informer_eq : Eq InformerKey
informer_eq = record { same = InformerKey_discrete }

-- `interestID`
pub record InterestId : Type 0 where
  pub informer : InformerScope
  pub sink : SinkId

pub InterestId_discrete : Discrete InterestId
InterestId_discrete = hlevel (SinkId_discrete, InformerScope_discrete)

instance abbrev pub interest_eq : Eq InterestId
interest_eq = record { same = InterestId_discrete }

-- `identityKey`
pub record IdentityKey : Type 0 where
  pub group : Text
  pub kind : Text
  pub namespace : Text
  pub sink : SinkId

pub IdentityKey_discrete : Discrete IdentityKey
IdentityKey_discrete = hlevel (List-ℕ_discrete, SinkId_discrete)

instance abbrev pub identity_key_eq : Eq IdentityKey
identity_key_eq = record { same = IdentityKey_discrete }

-- What interests use of their libraries: `labels.Parse`, as the test that the parsed selector is and
-- `none` where it fails; strconv's quoting; and those of Event filters.
pub record InterestLibrary : Type 0 where
  pub parse : Text → Option (Map Text Text → Bool)
  pub quoting : Quoting
  pub filters : FilterLibrary

-- `scopeInterest`
pub record ScopeInterest : Type 0 where
  pub informer : InformerKey
  pub gvk : GroupVersionKind
  pub sink : SinkId
  pub scope : ScopeKey
  pub rule_keys : List Text
  pub selectors : List (Map Text Text → Bool)
  pub match_all : Bool
  pub events : EventMatcher
  pub field_selector : Text
  pub redaction : Option RedactionPolicy

-- `strings.SplitSeq(set, "\n")`
abbrev pub put_first : ℕ → List Text → List Text
put_first c [] = (c ∷ []) ∷ []
put_first c (line ∷ lines) = (c ∷ line) ∷ lines

unfoldable pub split_lines : Text → List Text
split_lines [] = [] ∷ []
split_lines (c ∷ s) = let rest = split_lines s in if c == 10 then [] ∷ rest else put_first c rest

-- The inner loop of `redactionPaths`, with what was seen.
unfoldable pub add_paths : List Text → List Text → List Text
add_paths [] paths = paths
add_paths (path ∷ rest) paths =
    add_paths rest (if path == [] || contains paths path then paths else paths ++ (path ∷ []))

unfoldable pub add_sets : List Text → List Text → List Text
add_sets [] paths = paths
add_sets (set ∷ sets) paths = add_sets sets (add_paths (split_lines set) paths)

-- `redactionPaths`
unfoldable pub redaction_paths : List Text → List Text
redaction_paths redactions = sort_stable compare_text (add_sets redactions [])

-- The selectors that are parsed, and whether one of them selects everything.
pub record Selection : Type 0 where
  pub tests : List (Map Text Text → Bool)
  pub everything : Bool

abbrev pub with_test :
    (Selection → Option Selection) → Selection → Option (Map Text Text → Bool) → Option Selection
with_test next s none = none
with_test next s (some test) = next (record s { tests = s.tests ++ (test ∷ []) })

-- The loop over the selectors in `newScopeInterest`.
unfoldable pub parse_selectors :
    (Text → Option (Map Text Text → Bool)) → List Text → Selection → Option Selection
parse_selectors parse [] s = some s
parse_selectors parse (raw ∷ raws) s =
    let all = parse_selectors parse raws (record s { everything = true }) in
    let parsed = with_test (parse_selectors parse raws) s (parse raw) in
    if raw == [] then all else parsed

-- The compiled policy, where there are paths; `none` is an error.
abbrev pub policy_of : Result RedactionPolicy → Option (Option RedactionPolicy)
policy_of (ok policy) = some (some policy)
policy_of (err e) = none

unfoldable pub interest_policy : Quoting → List Text → Option (Option RedactionPolicy)
interest_policy lib [] = some none
interest_policy lib (path ∷ paths) = policy_of (compile_redaction lib (path ∷ paths))

-- The end of `newScopeInterest`, by what was compiled.
abbrev pub assemble :
    TargetState
    → InformerScope
    → Option Selection
    → Option (Option RedactionPolicy)
    → Option EventMatcher
    → Option ScopeInterest
assemble state scope none policy events = none
assemble state scope (some s) none events = none
assemble state scope (some s) (some policy) none = none
assemble state scope (some s) (some policy) (some events) = some (record {
  informer = record { scope = scope; field_selector = [] };
  gvk = state.key.gvk;
  sink = state.key.sink;
  scope = record {
    group = state.key.gvk.group;
    kind = state.key.gvk.kind;
    namespace = state.key.namespace;
  };
  rule_keys = state.rule_keys;
  selectors = s.tests;
  match_all = s.everything || length s.tests == 0;
  events = events;
  field_selector = events.field_selector;
  redaction = policy;
})

-- `newScopeInterest`; `none` is its error.
unfoldable pub new_scope_interest :
    InterestLibrary → TargetState → InformerScope → Option ScopeInterest
new_scope_interest lib state scope =
    assemble state scope
      (parse_selectors lib.parse state.selectors (record { tests = []; everything = false }))
      (interest_policy lib.quoting (redaction_paths state.redactions))
      (compile_event_filters lib.filters
        (record { group = scope.gvr.group; resource = scope.gvr.resource }) state.event_filters)

-- The loop of `scopeInterest.matches`.
unfoldable pub some_test : List (Map Text Text → Bool) → Map Text Text → Bool
some_test [] labels = false
some_test (test ∷ tests) labels = test labels || some_test tests labels

-- `scopeInterest.matches`
unfoldable pub matches_labels : ScopeInterest → Map Text Text → Bool
matches_labels i labels = i.match_all || some_test i.selectors labels

-- `matchesEither`; `none` is a nil map.
unfoldable pub matches_either : ScopeInterest → Map Text Text → Option (Map Text Text) → Bool
matches_either i current previous =
    matches_labels i current
    || elim previous [ none ↦ false | some labels ↦ matches_labels i labels ]

-- `matchesEvent`
unfoldable pub matches_event : ScopeInterest → Fields → Bool
matches_event i object = matches i.events object

-- `scopeInterest.identity`
unfoldable pub identity : ScopeInterest → IdentityKey
identity i = record {
  group = i.gvk.group;
  kind = i.gvk.kind;
  namespace = i.informer.scope.namespace;
  sink = i.sink;
}

-- `keyFor`
unfoldable pub key_for : ScopeInterest → Text → Text → Key
key_for i namespace name = record {
  sink = i.sink;
  group = i.gvk.group;
  kind = i.gvk.kind;
  namespace = namespace;
  name = name;
}
