-- ===== src/Watch/InterestTable.antt =====
-- internal/watch/interest.go: the table of interests, its replacement and its lookups.
pub mod Finding
use kuberecord.Base.{Option, none, some, List, [], ◌∷◌, ◌++◌, ◌==◌, Eq, if◌then◌else◌}
use Prim.Native.Nat.{Ordering}
use kuberecord.Base.Map.{Map, lookup, insert}
use kuberecord.Base.Sorting.{sort_stable}
use kuberecord.Base.Text.{compare_text, cmp_or}
use kuberecord.Pipeline.Identity.{Key, ScopeKey}
use kuberecord.Sink.Identity as SinkIdentity
use kuberecord.Sink.Identity.{SinkId}
use kuberecord.Watch.Interest.{
  InformerKey, informer_eq, InterestId, interest_eq, IdentityKey, identity_key_eq, ScopeInterest,
  identity,
}

-- `interestTable`
pub record InterestTable : Type 0 where
  pub current : Map InterestId ScopeInterest
  pub by_informer : Map InformerKey (List ScopeInterest)
  pub by_identity : Map IdentityKey (List ScopeInterest)

-- `newInterestTable`
abbrev pub new_table : InterestTable
new_table = record { current = []; by_informer = []; by_identity = [] }

abbrev pub or_no_interests : Option (List ScopeInterest) → List ScopeInterest
or_no_interests none = []
or_no_interests (some interests) = interests

-- The loop that builds an index.
unfoldable pub index_by :
    {K : Type 0} ⦃e : Eq K⦄
    → (ScopeInterest → K)
    → Map InterestId ScopeInterest
    → Map K (List ScopeInterest)
    → Map K (List ScopeInterest)
index_by key [] index = index
index_by key ((id, i) ∷ interests) index =
    index_by key interests
      (insert (key i) (or_no_interests (lookup (key i) index) ++ (i ∷ [])) index)

abbrev pub unless_wanted :
    Option ScopeInterest → ScopeInterest → List ScopeInterest → List ScopeInterest
unless_wanted none i rest = i ∷ rest
unless_wanted (some _) i rest = rest

-- The interests whose id is not desired.
unfoldable pub vanished :
    Map InterestId ScopeInterest → Map InterestId ScopeInterest → List ScopeInterest
vanished desired [] = []
vanished desired ((id, i) ∷ interests) =
    unless_wanted (lookup id desired) i (vanished desired interests)

-- The comparison of `sortInterests`.
unfoldable pub compare_interests : ScopeInterest → ScopeInterest → Ordering
compare_interests a b = cmp_or (SinkIdentity.compare a.sink b.sink) (
    cmp_or (compare_text a.scope.group b.scope.group) (
      cmp_or (compare_text a.scope.kind b.scope.kind)
        (compare_text a.scope.namespace b.scope.namespace)))

-- Each informer's interests by sink, of which there is one for each.
unfoldable pub sort_index :
    Map InformerKey (List ScopeInterest) → Map InformerKey (List ScopeInterest)
sort_index [] = []
sort_index ((key, interests) ∷ index) =
    (key, sort_stable (λ a b. SinkIdentity.compare a.sink b.sink) interests) ∷ sort_index index

-- `replace`, with the interests that vanished
unfoldable pub replace :
    Map InterestId ScopeInterest → InterestTable → InterestTable × List ScopeInterest
replace desired t = (
  record {
    current = desired;
    by_informer = sort_index (index_by (λ i. i.informer) desired []);
    by_identity = index_by identity desired [];
  },
  sort_stable compare_interests (vanished desired t.current),
)

-- `interestsFor`
unfoldable pub interests_for : InformerKey → InterestTable → List ScopeInterest
interests_for key t = or_no_interests (lookup key t.by_informer)

-- `lookupIdentity`
unfoldable pub lookup_identity : Key → InterestTable → List ScopeInterest
lookup_identity ref t =
    let exact : IdentityKey = record {
      group = ref.group;
      kind = ref.kind;
      namespace = ref.namespace;
      sink = ref.sink;
    } in
    let cluster_wide : IdentityKey = record {
      group = ref.group;
      kind = ref.kind;
      namespace = [];
      sink = ref.sink;
    } in
    let interests = or_no_interests (lookup exact t.by_identity) in
    if exact == cluster_wide
    then interests
    else interests ++ or_no_interests (lookup cluster_wide t.by_identity)

-- `interestsForScope`
unfoldable pub interests_for_scope : SinkId → ScopeKey → InterestTable → List ScopeInterest
interests_for_scope id scope t = or_no_interests (
    lookup
      (record { group = scope.group; kind = scope.kind; namespace = scope.namespace; sink = id })
      t.by_identity)
