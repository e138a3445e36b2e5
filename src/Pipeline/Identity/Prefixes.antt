-- ===== src/Pipeline/Identity/Prefixes.antt =====
-- What the layout "group|Kind|namespace/name" of cache keys gives.
use kuberecord.Base.{
  ◌≡◌, ◌↔◌, ◌⊎◌, inl, inr, arith, refl, false, true, contains, text_eq, nat_eq, [], Bool-cases,
  ◌==◌, ne_of_==, eq_of_==,
}
use kuberecord.Base.Text.{Text, has_prefix, has_prefix-past, has_prefix-split, split_unique}
use kuberecord.Pipeline.Identity.{Key, ScopeKey, cache_key, scope_key_prefix}

-- What Kubernetes guarantees of an identity: no group or kind holds a '|', and no
-- namespace a '/'.
pub record IsPlain (group kind namespace : Text) : Type 0 where
  pub group_plain : contains group b'|' ≡ false
  pub kind_plain : contains kind b'|' ≡ false
  pub namespace_flat : contains namespace b'/' ≡ false

abbrev pub IsPlainKey : Key → Type 0
IsPlainKey k = IsPlain k.group k.kind k.namespace

abbrev pub IsPlainScope : ScopeKey → Type 0
IsPlainScope s = IsPlain s.group s.kind s.namespace

-- Two keys of one sink share a cache entry exactly when they name the same object.
pub cache_key_injective :
    (j k : Key)
    → IsPlainKey j
    → IsPlainKey k
    → j.sink ≡ k.sink
    → (cache_key j ≡ cache_key k) ↔ (j ≡ k)
unfolding cache_key
cache_key_injective j k pj pk s = (
  λ h.
      let (g, h1) = split_unique b'|' j.group k.group _ _ pj.group_plain pk.group_plain h in
      let (d, h2) = split_unique b'|' j.kind k.kind _ _ pj.kind_plain pk.kind_plain h1 in
      let (n, m) =
        split_unique b'/' j.namespace k.namespace _ _ pj.namespace_flat pk.namespace_flat h2 in
      ground arith,
  λ e. rw e refl,
)

-- The prefix "group|Kind|" or "group|Kind|namespace/" under which a scope's entries stand.
abbrev pub Covers : ScopeKey → Key → Type 0
Covers s k =
    (s.group ≡ k.group) × (s.kind ≡ k.kind) × ((s.namespace ≡ []) ⊎ (s.namespace ≡ k.namespace))

covers :
    (s : ScopeKey) (k : Key)
    → IsPlainScope s
    → IsPlainKey k
    → has_prefix (scope_key_prefix s) (cache_key k) ≡ true
    → Covers s k
unfolding cache_key scope_key_prefix
covers s k ps pk h = elim (Bool-cases (s.namespace == [])) [
  | inl all ↦
      let h' = rw all at h in
      let (g, h1) = has_prefix-split b'|' s.group k.group _ _ ps.group_plain pk.group_plain h' in
      let (d, h2) = has_prefix-split b'|' s.kind k.kind _ _ ps.kind_plain pk.kind_plain h1 in
      (g, d, inl (eq_of_== s.namespace [] all))
  | inr one ↦
      let h' = rw one at h in
      let (g, h1) = has_prefix-split b'|' s.group k.group _ _ ps.group_plain pk.group_plain h' in
      let (d, h2) = has_prefix-split b'|' s.kind k.kind _ _ ps.kind_plain pk.kind_plain h1 in
      let (n, _) =
        has_prefix-split b'/' s.namespace k.namespace _ _ ps.namespace_flat pk.namespace_flat h2 in
      (g, d, inr n)
]

covered :
    (s : ScopeKey) (k : Key) → Covers s k → has_prefix (scope_key_prefix s) (cache_key k) ≡ true
unfolding cache_key scope_key_prefix has_prefix
covered s k (g, d, n) = elim (Bool-cases (s.namespace == [])) [
  | inl all ↦ rw (all, g, d, has_prefix-past, has_prefix-past) refl
  | inr one ↦
      let e : s.namespace ≡ k.namespace = ground (arith, ne_of_== s.namespace [] one) in
      rw (one, g, d, has_prefix-past, has_prefix-past, e, has_prefix-past) refl
]

-- A cache key stands under a scope's prefix exactly when the object is in the scope: of its group
-- and kind, and in its namespace unless the scope is the whole cluster.
pub scope_key_prefix-Covers :
    (s : ScopeKey) (k : Key)
    → IsPlainScope s
    → IsPlainKey k
    → (has_prefix (scope_key_prefix s) (cache_key k) ≡ true) ↔ Covers s k
scope_key_prefix-Covers s k ps pk = (covers s k ps pk, covered s k)
