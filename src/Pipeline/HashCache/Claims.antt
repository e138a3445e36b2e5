-- ===== src/Pipeline/HashCache/Claims.antt =====
-- Deletion claims, and what the version gate does not cover.
use kuberecord.Base.{
  ℕ, ◌≡◌, ◌≢◌, ◌⊎◌, ◌<◌, ◌^◌, Bool, true, false, Option, List, ap, ◌∙◌, none, some, [], arith, refl,
  nat_eq, text_eq, ◌==◌, if◌then◌else◌,
}
use kuberecord.Base.Map.{lookup, insert, erase, lookup-insert, lookup-erase}
use kuberecord.Base.Text.{Text}
use kuberecord.Pipeline.HashCache
use kuberecord.Pipeline.HashCache.{
  HashCache, CacheEntry, commit_if_current, delete_if_current, reserve_delete, claimed, in_flight,
  absent, uid_mismatch, claim_entry, unclaim_entry, unclaim_delete, store_if_absent, delete_prefix,
  may_commit, is_current, current_version, next, refuse,
}
use kuberecord.Pipeline.HashCache.Versions.{
  Call, run, bumps, Stays, IsPresent, version_at, version-run, gate, delete-present,
}

-- The entry can be claimed: it is there, unclaimed, and of the expected UID where one is expected.
abbrev pub Claimable : Text → Option CacheEntry → Type 0
Claimable uid none = ⊥
Claimable uid (some e) = (e.pending_delete ≡ false) × ((uid ≡ []) ⊎ (e.uid ≡ uid))

claim_entry-claimed :
    (k uid : Text) (c : HashCache) (o : Option CacheEntry)
    → Claimable uid o
    → (claim_entry k uid c o).outcome ≡ claimed
unfolding claim_entry
claim_entry-claimed k uid c none h = absurd h
claim_entry-claimed k uid c (some e) h = ground arith

claimed-Claimable :
    (k uid : Text) (c : HashCache) (o : Option CacheEntry)
    → (claim_entry k uid c o).outcome ≡ claimed
    → Claimable uid o
unfolding claim_entry
claimed-Claimable k uid c none h = cc
claimed-Claimable k uid c (some e) h = ground arith

refused-unchanged :
    (k uid : Text) (c : HashCache) (o : Option CacheEntry)
    → (claim_entry k uid c o).outcome ≢ claimed
    → (claim_entry k uid c o).cache ≡ c
unfolding claim_entry
refused-unchanged k uid c none h = refl
refused-unchanged k uid c (some e) h = ground arith

-- A deletion is claimed exactly if the key has an entry that is not claimed yet and, where a UID is
-- expected, has that UID. A refused claim leaves the cache as it is.
pub reserve_delete-Claimable :
    (k uid : Text) (c : HashCache)
    → ((reserve_delete k uid c).outcome ≡ claimed → Claimable uid (lookup k c))
      × (Claimable uid (lookup k c) → (reserve_delete k uid c).outcome ≡ claimed)
      × ((reserve_delete k uid c).outcome ≢ claimed → (reserve_delete k uid c).cache ≡ c)
unfolding reserve_delete
reserve_delete-Claimable k uid c = (
  claimed-Claimable k uid c (lookup k c),
  claim_entry-claimed k uid c (lookup k c),
  refused-unchanged k uid c (lookup k c),
)

-- Right after a claim nobody else gets one, whatever UID is expected. Releasing it then gives back
-- the entry as it was, under the claim's version; confirming it removes the entry.
pub claim_settled :
    (k uid other : Text) (c : HashCache)
    → (reserve_delete k uid c).outcome ≡ claimed
    → (reserve_delete k other (reserve_delete k uid c).cache
        ≡ refuse (reserve_delete k uid c).cache in_flight)
      × (lookup k (unclaim_delete k (reserve_delete k uid c).version (reserve_delete k uid c).cache)
          ≡ some (record (reserve_delete k uid c).entry {
            version = (reserve_delete k uid c).version;
            pending_delete = false;
          }))
      × (lookup k
            (delete_if_current k (reserve_delete k uid c).version (reserve_delete k uid c).cache).0
          ≡ none)
unfolding reserve_delete unclaim_delete delete_if_current is_current
claim_settled k uid other c h = grind (arith, lookup-insert, lookup-erase)

unclaim_entry-current :
    (k : Text) (v : ℕ) (c : HashCache) (held : CacheEntry) (o : Option CacheEntry)
    → o ≡ some held
    → unclaim_entry k v c o
      ≡ (if held.version == v then insert k (record held { pending_delete = false }) c else c)
unfolding unclaim_entry
unclaim_entry-current k v c held o e = rw e refl

claimed-version :
    (k uid : Text) (c : HashCache)
    → (reserve_delete k uid c).outcome ≡ claimed
    → IsPresent k (reserve_delete k uid c).cache
      × (version_at k (reserve_delete k uid c).cache ≡ (reserve_delete k uid c).version)
      × ((reserve_delete k uid c).version < 2 ^ 64)
unfolding reserve_delete current_version next
claimed-version k uid c h = grind (arith, lookup-insert)

-- A deletion claim settles later, when any calls may have run in between. Right after the claim
-- nobody else gets one, and releasing it gives back the entry as it was, under the claim's version.
-- As long as the key kept an entry all the while, and neither the number of new versions nor the
-- version reached 2^64: confirming the claim removes the entry, and releasing it takes the mark off
-- whatever entry there is, exactly if no later reservation or claim of that key came in between;
-- otherwise they leave the whole cache as it is.
pub claim_lifecycle :
    (k uid other : Text) (c : HashCache) (os : List Call)
    → (reserve_delete k uid c).outcome ≡ claimed
    → Stays k os (reserve_delete k uid c).cache
    → bumps k os (reserve_delete k uid c).cache < 2 ^ 64
    → version_at k (run os (reserve_delete k uid c).cache) < 2 ^ 64
    → (reserve_delete k other (reserve_delete k uid c).cache
        ≡ refuse (reserve_delete k uid c).cache in_flight)
      × (lookup k (unclaim_delete k (reserve_delete k uid c).version (reserve_delete k uid c).cache)
          ≡ some (record (reserve_delete k uid c).entry {
            version = (reserve_delete k uid c).version;
            pending_delete = false;
          }))
      × (delete_if_current k
            (reserve_delete k uid c).version
            (run os (reserve_delete k uid c).cache)
          ≡ (if bumps k os (reserve_delete k uid c).cache == 0
              then (erase k (run os (reserve_delete k uid c).cache), true)
              else (run os (reserve_delete k uid c).cache, false)))
      × ((held : CacheEntry)
          → lookup k (run os (reserve_delete k uid c).cache) ≡ some held
          → unclaim_delete k
              (reserve_delete k uid c).version
              (run os (reserve_delete k uid c).cache)
            ≡ (if bumps k os (reserve_delete k uid c).cache == 0
                then insert k
                    (record held { pending_delete = false })
                    (run os (reserve_delete k uid c).cache)
                else run os (reserve_delete k uid c).cache))
unfolding unclaim_delete current_version
claim_lifecycle k uid other c os granted s n w =
    let v = (reserve_delete k uid c).version in
    let now = (reserve_delete k uid c).cache in
    let later = run os now in
    let alone = claim_settled k uid other c granted in
    let (p, same, small) = claimed-version k uid c granted in
    let (q, h) = version-run k os now p s in
    let g = gate v (version_at k later) (bumps k os now) small w n (rw same at h) in
    (
      alone.0,
      unfold unclaim_delete in alone.1,
      delete-present k v later q ∙ rw g refl,
      λ held e.
          let at_held : version_at k later ≡ held.version = rw e refl in
          unclaim_entry-current k v later held (lookup k later) e
          ∙ ap
              (λ (b : Bool).
                if b then insert k (record held { pending_delete = false }) later else later)
              (rw at_held at g),
    )

module _ (k : Text) (e : CacheEntry) where
  reserve-absent :
      (c : HashCache)
      → lookup k c ≡ none
      → ((HashCache.reserve k e c).1 ≡ 1)
        × (lookup k (HashCache.reserve k e c).0 ≡ some (record e { version = 1 }))
  unfolding HashCache.reserve next current_version
  reserve-absent c h = grind (arith, lookup-insert)

  commit-current :
      (v : ℕ) (cur : CacheEntry) (c : HashCache)
      → lookup k c ≡ some cur
      → cur.version ≡ v
      → lookup k (commit_if_current k v e c).0 ≡ some (record e { version = v })
  unfolding commit_if_current may_commit
  commit-current v cur c h p = grind (arith, lookup-insert)

claim-absent :
    (k : Text) (cur : CacheEntry) (c : HashCache)
    → lookup k c ≡ some cur
    → cur.pending_delete ≡ false
    → (reserve_delete k [] c).outcome ≡ claimed
unfolding reserve_delete
claim-absent k cur c h p = ground arith

-- Versions restart when an entry goes. A first write is still unsettled when the object's deletion
-- is recorded; the object is created again. Then the first write's late commit passes the gate and
-- replaces the new object's entry by the old one's.
pub stale_commit_after_delete :
    (k : Text) (old new : CacheEntry) (c : HashCache)
    → lookup k c ≡ none
    → old.pending_delete ≡ false
    → lookup k
        (commit_if_current k
          (HashCache.reserve k old c).1
          old
          (HashCache.reserve k new
            (delete_if_current k
              (reserve_delete k [] (HashCache.reserve k old c).0).version
              (reserve_delete k [] (HashCache.reserve k old c).0).cache).0).0).0
      ≡ some (record old { version = 1 })
stale_commit_after_delete k old new c h p =
    let (v, at) = reserve-absent k old c h in
    let c1 = (HashCache.reserve k old c).0 in
    let gone = (claim_settled k [] [] c1 (claim-absent k (record old { version = 1 }) c1 at p)).2 in
    let (_, at') = reserve-absent k new _ gone in rw v (commit-current k old 1 _ _ at' refl)
