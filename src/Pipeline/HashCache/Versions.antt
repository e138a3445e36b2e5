-- ===== src/Pipeline/HashCache/Versions.antt =====
-- The version gate: what a late commit can and cannot do to the cache.
use kuberecord.Base.{
  ℕ, ◌∙◌, ◌+◌, ◌<◌, ◌%◌, ◌^◌, ◌≡◌, ◌≢◌, true, false, none, List, [], ◌∷◌, arith, refl, nat_eq,
  text_eq, ◌==◌, if◌then◌else◌,
}
use kuberecord.Base.Map.{
  lookup, insert, erase, lookup-insert, lookup-erase, Distinct, insert-Distinct, erase-Distinct,
}
use kuberecord.Base.Text.{Text}
use kuberecord.Pipeline.HashCache
use kuberecord.Pipeline.HashCache.{
  HashCache, CacheEntry, commit_if_current, delete_if_current, reserve_delete, claimed, in_flight,
  unclaim_delete, store_if_absent, delete_prefix, may_commit, is_current, current_version, next,
}
use kuberecord.Pipeline.HashCache.Laws.{lookup-delete_prefix, delete_prefix-Distinct}

-- The calls that reach the cache, from the workers, the settling writes and the eviction of scopes.
pub data Call : Type 0 where
  reserve : Text → CacheEntry → Call
  commit : Text → ℕ → CacheEntry → Call
  delete : Text → ℕ → Call
  claim : Text → Text → Call
  unclaim : Text → ℕ → Call
  seed : Text → CacheEntry → Call
  evict : Text → Call

unfoldable pub apply : Call → HashCache → HashCache
apply (reserve k e) c = (HashCache.reserve k e c).0
apply (commit k v e) c = (commit_if_current k v e c).0
apply (delete k v) c = (delete_if_current k v c).0
apply (claim k uid) c = (reserve_delete k uid c).cache
apply (unclaim k v) c = unclaim_delete k v c
apply (seed k e) c = store_if_absent k e c
apply (evict prefix) c = (delete_prefix prefix c).0

unfoldable pub run : List Call → HashCache → HashCache
run [] c = c
run (o ∷ os) c = run os (apply o c)

-- Every call keeps each key at one entry, so `Len` counts the objects that have a baseline.
pub apply-Distinct : (o : Call) (c : HashCache) → Distinct c → Distinct (apply o c)
unfolding apply HashCache.reserve commit_if_current delete_if_current reserve_delete unclaim_delete
    store_if_absent
apply-Distinct (reserve k e) c d = search (insert-Distinct)
apply-Distinct (commit k v e) c d = grind (arith, insert-Distinct)
apply-Distinct (delete k v) c d = grind (arith, erase-Distinct)
apply-Distinct (claim k uid) c d = grind (arith, insert-Distinct)
apply-Distinct (unclaim k v) c d = grind (arith, insert-Distinct)
apply-Distinct (seed k e) c d = grind (arith, insert-Distinct)
apply-Distinct (evict prefix) c d = delete_prefix-Distinct prefix c d

abbrev pub version_at : Text → HashCache → ℕ
version_at k c = current_version (lookup k c)

-- Whether a call assigns the key a new version.
unfoldable pub bump : Text → Call → HashCache → ℕ
bump k (reserve j e) c = if j == k then 1 else 0
bump k (claim j uid) c =
    if j == k then elim ((reserve_delete j uid c).outcome) [ claimed ↦ 1 | _ ↦ 0 ] else 0
bump k _ c = 0

unfoldable pub bumps : Text → List Call → HashCache → ℕ
bumps k [] c = 0
bumps k (o ∷ os) c = bump k o c + bumps k os (apply o c)

abbrev pub IsPresent : Text → HashCache → Type 0
IsPresent k c = lookup k c ≢ none

-- The key holds an entry after every call.
abbrev pub Stays : Text → List Call → HashCache → Type 0
Stays k [] c = Unit {0}
Stays k (o ∷ os) c = IsPresent k (apply o c) × Stays k os (apply o c)

version-apply :
    (k : Text) (o : Call) (c : HashCache)
    → IsPresent k c
    → IsPresent k (apply o c)
    → version_at k (apply o c) % 2 ^ 64 ≡ (version_at k c + bump k o c) % 2 ^ 64
unfolding apply bump HashCache.reserve commit_if_current may_commit delete_if_current is_current
    reserve_delete unclaim_delete store_if_absent current_version next
version-apply k (reserve j e) c p q =
    ground (arith, lookup-insert j k (record e { version = next (version_at j c) }) c)
version-apply k (commit j v e) c p q =
    ground (arith, lookup-insert j k (record e { version = v }) c)
version-apply k (delete j v) c p q = ground (arith, lookup-erase j k c)
version-apply k (claim j uid) c p q = grind (arith, lookup-insert)
version-apply k (unclaim j v) c p q = grind (arith, lookup-insert)
version-apply k (seed j e) c p q = ground (arith, lookup-insert j k (record e { version = 1 }) c)
version-apply k (evict prefix) c p q = ground (arith, lookup-delete_prefix prefix k c)

pub version-run :
    (k : Text) (os : List Call) (c : HashCache)
    → IsPresent k c
    → Stays k os c
    → IsPresent k (run os c)
      × (version_at k (run os c) % 2 ^ 64 ≡ (version_at k c + bumps k os c) % 2 ^ 64)
unfolding run bumps
version-run k [] c p s = (p, omega arith)
version-run k (o ∷ os) c p s =
    let (q, e) = version-run k os (apply o c) s.0 s.1 in
    (q, omega (arith, e, version-apply k o c p s.0))

-- The version that `Reserve` returns for a key.
abbrev pub reserved : Text → CacheEntry → HashCache → ℕ
reserved k e c = (HashCache.reserve k e c).1

reserve-version :
    (k : Text) (e : CacheEntry) (c : HashCache)
    → IsPresent k (HashCache.reserve k e c).0
      × (version_at k (HashCache.reserve k e c).0 ≡ reserved k e c)
      × (reserved k e c < 2 ^ 64)
unfolding HashCache.reserve next current_version
reserve-version k e c = grind (arith, lookup-insert)

-- version numbers that stayed below 2^64 are equal exactly if nothing was assigned in between
pub gate :
    (v w n : ℕ)
    → v < 2 ^ 64
    → w < 2 ^ 64
    → n < 2 ^ 64
    → w % 2 ^ 64 ≡ (v + n) % 2 ^ 64
    → (w == v) ≡ (n == 0)
gate v w n a b d h = ground arith

commit-present :
    (k : Text) (v : ℕ) (e : CacheEntry) (c : HashCache)
    → IsPresent k c
    → commit_if_current k v e c
      ≡ (if version_at k c == v then (insert k (record e { version = v }) c, true) else (c, false))
unfolding commit_if_current may_commit current_version
commit-present k v e c p = ground arith

pub delete-present :
    (k : Text) (v : ℕ) (c : HashCache)
    → IsPresent k c
    → delete_if_current k v c ≡ (if version_at k c == v then (erase k c, true) else (c, false))
unfolding delete_if_current is_current current_version
delete-present k v c p = ground arith

-- A write reserved for a key settles later, when any calls may have run in between. As long as the
-- key kept an entry all the while, and fewer than 2^64 versions were assigned, its commit and its
-- revert apply exactly if no later reservation or claim of that key came in between; otherwise they
-- leave the whole cache as it is.
pub settle_gate :
    (k : Text) (e e' : CacheEntry) (c : HashCache) (os : List Call)
    → Stays k os (HashCache.reserve k e c).0
    → bumps k os (HashCache.reserve k e c).0 < 2 ^ 64
    → version_at k (run os (HashCache.reserve k e c).0) < 2 ^ 64
    → (commit_if_current k (reserved k e c) e' (run os (HashCache.reserve k e c).0) ≡ (
        if bumps k os (HashCache.reserve k e c).0 == 0
        then (
          insert k (record e' { version = reserved k e c }) (run os (HashCache.reserve k e c).0),
          true,
        )
        else (run os (HashCache.reserve k e c).0, false)))
      × (delete_if_current k (reserved k e c) (run os (HashCache.reserve k e c).0) ≡ (
          if bumps k os (HashCache.reserve k e c).0 == 0
          then (erase k (run os (HashCache.reserve k e c).0), true)
          else (run os (HashCache.reserve k e c).0, false)))
settle_gate k e e' c os s n w =
    let v = reserved k e c in
    let c' = run os (HashCache.reserve k e c).0 in
    let (p, same, small) = reserve-version k e c in
    let (q, h) = version-run k os (HashCache.reserve k e c).0 p s in
    let g =
      gate v (version_at k c') (bumps k os (HashCache.reserve k e c).0) small w n (rw same at h) in
    (commit-present k v e' c' q ∙ rw g refl, delete-present k v c' q ∙ rw g refl)
