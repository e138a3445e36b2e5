-- ===== src/Watch/Manager.antt =====
-- internal/watch/manager.go: what the manager answers the pipeline from its table and its running
-- informers. The pool's informers and their indexers are client-go's, and a parameter.
pub mod Absence
use kuberecord.Base.{
  Bool, true, false, not, Option, none, some, List, [], ◌∷◌, ◌++◌, text_eq, ◌==◌, if◌then◌else◌,
}
use kuberecord.Base.Json.{Fields}
use kuberecord.Base.Text.{Text}
use kuberecord.Pipeline.Identity.{Key, ScopeKey}
use kuberecord.Pipeline.Redact.{RedactionPolicy, merge_redaction}
use kuberecord.Pipeline.WorkItem.{Lookup, failed, answer}
use kuberecord.Sink.Identity.{SinkId}
use kuberecord.Watch.Interest.{InformerKey, ScopeInterest}
use kuberecord.Watch.InterestTable.{InterestTable, lookup_identity, interests_for_scope}

-- What an indexer answers for a key.
pub data Indexed : Type 0 where
  broken missing mistyped : Indexed
  held : Fields → Indexed

-- A running informer.
pub record Informer : Type 0 where
  pub get_by_key : Text → Indexed
  pub has_synced : Bool

abbrev pub Pool : Type 0
Pool = InformerKey → Option Informer

-- The key of the indexers.
unfoldable pub index_key : Key → Text
index_key ref = if ref.namespace == [] then ref.name else ref.namespace ++ (b'/' ∷ ref.name)

-- A round of the loop of `Get`, where `next` is the rest with whether an informer is missing.
abbrev pub get_indexed : (Bool → Lookup) → Bool → Indexed → Lookup
get_indexed next absent broken = failed
get_indexed next absent missing = next absent
get_indexed next absent mistyped = failed
get_indexed next absent (held object) = answer (some object) true

abbrev pub get_entry : (Bool → Lookup) → Bool → Text → Option Informer → Lookup
get_entry next absent key none = next true
get_entry next absent key (some informer) = get_indexed next absent (informer.get_by_key key)

-- The loop of `Get`.
unfoldable pub get_each : Pool → Text → List ScopeInterest → Bool → Lookup
get_each pool key [] absent = if absent then failed else answer none true
get_each pool key (i ∷ interests) absent =
    get_entry (get_each pool key interests) absent key (pool i.informer)

abbrev pub get_among : Pool → Text → List ScopeInterest → Lookup
get_among pool key [] = answer none false
get_among pool key (i ∷ interests) = get_each pool key (i ∷ interests) false

-- `Get`
unfoldable pub get : Pool → InterestTable → Key → Lookup
get pool t ref = get_among pool (index_key ref) (lookup_identity ref t)

abbrev pub policies : List ScopeInterest → List (Option RedactionPolicy)
policies [] = []
policies (i ∷ interests) = i.redaction ∷ policies interests

-- `RedactionFor`; `none` is an identity that no interest serves.
abbrev pub redaction_among : List ScopeInterest → Option (Option RedactionPolicy)
redaction_among [] = none
redaction_among (i ∷ []) = some i.redaction
redaction_among (i ∷ j ∷ interests) = some (merge_redaction (policies (i ∷ j ∷ interests)))

unfoldable pub redaction_for : InterestTable → Key → Option (Option RedactionPolicy)
redaction_for t ref = redaction_among (lookup_identity ref t)

abbrev pub some_interest : List ScopeInterest → Bool
some_interest [] = false
some_interest (_ ∷ _) = true

-- `ScopeDesired`
unfoldable pub scope_desired : SinkId → ScopeKey → InterestTable → Bool
scope_desired id scope t = some_interest (interests_for_scope id scope t)

abbrev pub is_synced : Option Informer → Bool
is_synced none = false
is_synced (some informer) = informer.has_synced

-- The loop of `ScopeSynced`.
unfoldable pub all_synced : Pool → List ScopeInterest → Bool
all_synced pool [] = true
all_synced pool (i ∷ interests) =
    let rest = all_synced pool interests in
    if not (is_synced (pool i.informer)) then false else rest

-- `ScopeSynced`
unfoldable pub scope_synced : Pool → SinkId → ScopeKey → InterestTable → Bool
scope_synced pool id scope t =
    let interests = interests_for_scope id scope t in
    if some_interest interests then all_synced pool interests else false
