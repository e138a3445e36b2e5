-- ===== src/Pipeline/Identity.antt =====
-- internal/pipeline/identity.go and special_kinds.go: work keys, scopes and the kinds whose
-- disappearance is no deletion.
pub mod Prefixes
use kuberecord.Base.{
  ◌≡◌, ◌++◌, Bool, true, false, ◌||◌, [], ◌∷◌, arith, List-ℕ_discrete, Eq, text_eq, ◌==◌,
  if◌then◌else◌,
}
use kuberecord.Base.Text.{Text, codes}
use kuberecord.Sink.Identity as SinkIdentity
use kuberecord.Sink.Identity.{SinkId}

-- `Key`
pub record Key : Type 0 where
  pub sink : SinkId
  pub group : Text
  pub kind : Text
  pub namespace : Text
  pub name : Text

-- `ScopeKey`
pub record ScopeKey : Type 0 where
  pub group : Text
  pub kind : Text
  pub namespace : Text

unfoldable pub ScopeKey_discrete : Discrete ScopeKey
ScopeKey_discrete = hlevel List-ℕ_discrete

instance abbrev pub scope_key_eq : Eq ScopeKey
scope_key_eq = record { same = ScopeKey_discrete }

-- `Key.cacheKey`
unfoldable pub cache_key : Key → Text
cache_key k = k.group ++ (b'|' ∷ k.kind ++ (b'|' ∷ k.namespace ++ (b'/' ∷ k.name)))

-- `Key.Scope`
unfoldable pub scope : Key → ScopeKey
scope k = record { group = k.group; kind = k.kind; namespace = k.namespace }

-- `Key.String`
unfoldable pub to_string : Key → Text
to_string k = SinkIdentity.to_string k.sink ++ (b'/' ∷ cache_key k)

-- `ScopeKey.scopeKeyPrefix`
unfoldable pub scope_key_prefix : ScopeKey → Text
scope_key_prefix s =
    if s.namespace == []
    then s.group ++ (b'|' ∷ s.kind ++ (b'|' ∷ []))
    else s.group ++ (b'|' ∷ s.kind ++ (b'|' ∷ s.namespace ++ (b'/' ∷ [])))

abbrev event_kind : Text
event_kind = codes "Event"

abbrev core_group : Text
core_group = codes ""

abbrev events_group : Text
events_group = codes "events.k8s.io"

-- `ephemeralKind`
unfoldable pub ephemeral_kind : Text → Text → Bool
ephemeral_kind group kind =
    if kind == event_kind then group == core_group || group == events_group else false

-- `Key.ephemeral`
unfoldable pub ephemeral : Key → Bool
unfolding ephemeral_kind
ephemeral k = ephemeral_kind k.group k.kind

-- `ScopeKey.ephemeral`
unfoldable pub scope_ephemeral : ScopeKey → Bool
unfolding ephemeral_kind
scope_ephemeral s = ephemeral_kind s.group s.kind
