-- ===== src/Examples/Interests.antt =====
-- A namespace's and a cluster's interest in ConfigMaps, and what the table and the manager answer.
use kuberecord.Base.{
  ◌≡◌, ◌↔◌, Bool, true, false, ◌||◌, Option, none, some, [], ◌∷◌, refl, text_eq, nat_eq,
  List-ℕ_discrete,
}
use native.Mathlib.Decide.{ℕ_discrete}
use kuberecord.Base.Lists.{Elem}
use kuberecord.Base.Json.{Fields}
use kuberecord.Base.Map.{Map, lookup}
use kuberecord.Base.Sorting.{sort_stable}
use kuberecord.Base.Text.{Text, codes}
use kuberecord.Pipeline.WorkItem.{answer}
use kuberecord.Plan.Registry.{TargetState}
use kuberecord.Watch.EventFilter.{compile_event_filters, compile_loop, finish_matcher}
use kuberecord.Watch.Interest.{
  InformerScope, InterestId, interest_eq, InterestLibrary, ScopeInterest, new_scope_interest,
  parse_selectors, redaction_paths, add_sets, interest_policy, matches_labels, matches_either,
}
use kuberecord.Watch.Interest.Selecting.{is_empty, some_selects, new_scope_interest-selects}
use kuberecord.Watch.InterestTable.{InterestTable, new_table, replace, lookup_identity}
use kuberecord.Watch.InterestTable.Finding.{
  Installed, Serves, lookup_identity-Serves, replace-vanished,
}
use kuberecord.Watch.Manager.{missing, Pool, index_key, get}
use kuberecord.Watch.Manager.Absence.{Lacks, Has, get-Tells}
use kuberecord.Examples.Filters.{filters}
use kuberecord.Examples.Histories.{config}
use kuberecord.Examples.Redactions.{quoting}

-- A text selects the objects that have it as a label.
abbrev has_label : Text → Map Text Text → Bool
has_label raw labels = elim (lookup raw labels) [ none ↦ false | some _ ↦ true ]

abbrev library : InterestLibrary
library = record { parse = λ raw. some (has_label raw); quoting = quoting; filters = filters }

abbrev state_in : Text → TargetState
state_in namespace = record {
  key = record {
    sink = config.sink;
    gvk = record { group = []; version = codes "v1"; kind = codes "ConfigMap" };
    namespace = namespace;
  };
  rule_keys = codes "rule" ∷ [];
  selectors = codes "app" ∷ codes "tier" ∷ [];
  redactions = [];
  event_filters = [] ∷ [];
}

abbrev scope_in : Text → InformerScope
scope_in namespace = record {
  gvr = record { group = []; version = codes "v1"; resource = codes "configmaps" };
  namespace = namespace;
}

abbrev interest_in : Text → ScopeInterest
interest_in namespace = record {
  informer = record { scope = scope_in namespace; field_selector = [] };
  gvk = (state_in namespace).key.gvk;
  sink = config.sink;
  scope = record { group = []; kind = codes "ConfigMap"; namespace = namespace };
  rule_keys = codes "rule" ∷ [];
  selectors = has_label (codes "app") ∷ has_label (codes "tier") ∷ [];
  match_all = false;
  events = record { match_all = true; filters = []; field_selector = [] };
  field_selector = [];
  redaction = none;
}

compiled :
    (namespace : Text)
    → new_scope_interest library (state_in namespace) (scope_in namespace)
      ≡ some (interest_in namespace)
unfolding new_scope_interest parse_selectors redaction_paths add_sets sort_stable interest_policy
    compile_event_filters compile_loop finish_matcher ℕ_discrete List-ℕ_discrete
compiled namespace = refl

abbrev labelled : Map Text Text
labelled = (codes "tier", codes "web") ∷ []

new_scope_interest-selects_example :
    (matches_labels (interest_in []) []
      ≡ (is_empty (state_in []).selectors || some_selects library.parse (state_in []).selectors []))
    × (matches_either (interest_in []) [] (some labelled) ≡ (
        matches_labels (interest_in []) []
        || (is_empty (state_in []).selectors
            || some_selects library.parse (state_in []).selectors labelled)))
new_scope_interest-selects_example =
    new_scope_interest-selects library (state_in []) (scope_in []) (interest_in []) []
      (some labelled) (compiled [])

abbrev shop : Text
shop = codes "shop"

abbrev id_in : Text → InterestId
id_in namespace = record { informer = scope_in namespace; sink = config.sink }

abbrev installed : InterestTable
installed = (replace ((id_in shop, interest_in shop) ∷ []) new_table).0

abbrev desired : Map InterestId ScopeInterest
desired = (id_in [], interest_in []) ∷ []

lookup_identity-Serves_example :
    Elem (interest_in []) (lookup_identity config (replace desired installed).0)
    ↔ (Installed (interest_in []) desired × Serves (interest_in []) config)
lookup_identity-Serves_example = lookup_identity-Serves desired installed (interest_in []) config

replace-vanished_example : Elem (interest_in shop) (replace desired installed).1 ↔ (
    (id : InterestId) × Elem (id, interest_in shop) installed.current × (lookup id desired ≡ none))
replace-vanished_example = replace-vanished desired installed (interest_in shop)

-- Every informer runs, and has nothing.
abbrev pool : Pool
pool = λ key. some (record { get_by_key = λ name. missing; has_synced = true })

get-Tells_example :
    (get pool (replace desired installed).0 config ≡ answer none true
      → (i : ScopeInterest) → Installed i desired
      → Serves i config
      → Lacks pool (index_key config) i)
    × ((object : Fields) (active : Bool)
        → get pool (replace desired installed).0 config ≡ answer (some object) active
        → (i : ScopeInterest) × Installed i desired
          × Serves i config
          × Has pool (index_key config) object i)
    × ((o : Option Fields)
        → get pool (replace desired installed).0 config ≡ answer o false
        → (i : ScopeInterest) → Installed i desired
        → ¬ (Serves i config))
get-Tells_example = get-Tells pool desired installed config
