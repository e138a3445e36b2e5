-- ===== src/Pipeline/HashCache/Reverts.antt =====
-- What a write that failed leaves behind, once it is reverted.
use kuberecord.Base.{
  ℕ, ◌≡◌, ◌≢◌, ◌<◌, ◌^◌, false, Option, none, some, List, [], ◌∷◌, arith, refl, sym, ap, All, ◌∙◌,
  nat_eq, text_eq, ◌==◌, if◌then◌else◌, Bool-cases, inl, inr,
}
use kuberecord.Base.Map.{lookup, lookup-insert, lookup-erase}
use kuberecord.Base.Text.{Text, has_prefix}
use kuberecord.Base.Tests.{eq_of_==}
use kuberecord.Pipeline.HashCache
use kuberecord.Pipeline.HashCache.{
  HashCache, CacheEntry, commit_if_current, delete_if_current, reserve_delete, claim_entry, claimed,
  unclaim_delete, unclaim_entry, store_if_absent, delete_prefix, may_commit, is_current,
  current_version, next,
}
use kuberecord.Pipeline.HashCache.Laws.{lookup-delete_prefix}
use kuberecord.Pipeline.HashCache.Versions.{
  Call, reserve, commit, delete, claim, unclaim, seed, evict, apply, run, Stays, bumps, version_at,
  settle_gate,
}

-- The call is about another key.
abbrev pub Elsewhere : Text → Call → Type 0
Elsewhere k (reserve j e) = (j == k) ≡ false
Elsewhere k (commit j v e) = (j == k) ≡ false
Elsewhere k (delete j v) = (j == k) ≡ false
Elsewhere k (claim j uid) = (j == k) ≡ false
Elsewhere k (unclaim j v) = (j == k) ≡ false
Elsewhere k (seed j e) = (j == k) ≡ false
Elsewhere k (evict prefix) = has_prefix prefix k ≡ false

apply-here :
    (k : Text) (o : Call) (c : HashCache) → Elsewhere k o → lookup k (apply o c) ≡ lookup k c
unfolding apply HashCache.reserve commit_if_current delete_if_current reserve_delete claim_entry
    unclaim_delete unclaim_entry store_if_absent
apply-here k (reserve j e) c h = grind (arith, lookup-insert)
apply-here k (commit j v e) c h = grind (arith, lookup-insert)
apply-here k (delete j v) c h = grind (arith, lookup-erase)
apply-here k (claim j uid) c h = grind (arith, lookup-insert)
apply-here k (unclaim j v) c h = grind (arith, lookup-insert)
apply-here k (seed j e) c h = grind (arith, lookup-insert)
apply-here k (evict prefix) c h = ground (arith, lookup-delete_prefix prefix k c)

-- The caches differ at no key but `k`.
abbrev AgreeBut : Text → HashCache → HashCache → Type 0
AgreeBut k c c' = (j : Text) → (k == j) ≡ false → lookup j c ≡ lookup j c'

module _ (i : Text) (c c' : HashCache) (same : lookup i c ≡ lookup i c') (j : Text)
    (there : lookup j c ≡ lookup j c') where
  reserve-agree :
      (e : CacheEntry)
      → lookup j (HashCache.reserve i e c).0 ≡ lookup j (HashCache.reserve i e c').0
  unfolding HashCache.reserve
  reserve-agree e = grind (arith, lookup-insert)

  commit-agree :
      (v : ℕ) (e : CacheEntry)
      → lookup j (commit_if_current i v e c).0 ≡ lookup j (commit_if_current i v e c').0
  unfolding commit_if_current
  commit-agree v e = grind (arith, lookup-insert)

  delete-agree :
      (v : ℕ) → lookup j (delete_if_current i v c).0 ≡ lookup j (delete_if_current i v c').0
  unfolding delete_if_current
  delete-agree v = grind (arith, lookup-erase)

  claim-agree :
      (uid : Text)
      → lookup j (reserve_delete i uid c).cache ≡ lookup j (reserve_delete i uid c').cache
  unfolding reserve_delete claim_entry
  claim-agree uid = grind (arith, lookup-insert)

  unclaim-agree : (v : ℕ) → lookup j (unclaim_delete i v c) ≡ lookup j (unclaim_delete i v c')
  unfolding unclaim_delete unclaim_entry
  unclaim-agree v = grind (arith, lookup-insert)

  seed-agree :
      (e : CacheEntry) → lookup j (store_if_absent i e c) ≡ lookup j (store_if_absent i e c')
  unfolding store_if_absent
  seed-agree e = grind (arith, lookup-insert)

other_way : (i k : Text) → (i == k) ≡ false → (k == i) ≡ false
other_way i k h = ground arith

apply-agree :
    (k : Text) (o : Call) (c c' : HashCache)
    → Elsewhere k o
    → AgreeBut k c c'
    → AgreeBut k (apply o c) (apply o c')
unfolding apply
apply-agree k (reserve i e) c c' h a j n = reserve-agree i c c' (a i (other_way i k h)) j (a j n) e
apply-agree k (commit i v e) c c' h a j n =
    commit-agree i c c' (a i (other_way i k h)) j (a j n) v e
apply-agree k (delete i v) c c' h a j n = delete-agree i c c' (a i (other_way i k h)) j (a j n) v
apply-agree k (claim i uid) c c' h a j n = claim-agree i c c' (a i (other_way i k h)) j (a j n) uid
apply-agree k (unclaim i v) c c' h a j n = unclaim-agree i c c' (a i (other_way i k h)) j (a j n) v
apply-agree k (seed i e) c c' h a j n = seed-agree i c c' (a i (other_way i k h)) j (a j n) e
apply-agree k (evict prefix) c c' h a j n =
    ground (arith, lookup-delete_prefix prefix j c, lookup-delete_prefix prefix j c', a j n)

run-here :
    (k : Text) (os : List Call) (c : HashCache)
    → All (Elsewhere k) os
    → lookup k (run os c) ≡ lookup k c
unfolding run
run-here k [] c h = refl
run-here k (o ∷ os) c h = run-here k os (apply o c) h.1 ∙ apply-here k o c h.0

run-agree :
    (k : Text) (os : List Call) (c c' : HashCache)
    → All (Elsewhere k) os
    → AgreeBut k c c'
    → AgreeBut k (run os c) (run os c')
unfolding run
run-agree k [] c c' h a = a
run-agree k (o ∷ os) c c' h a =
    run-agree k os (apply o c) (apply o c') h.1 (apply-agree k o c c' h.0 a)

module _ (k : Text) (e : CacheEntry) (c : HashCache) where
  reserve-here :
      lookup k (HashCache.reserve k e c).0
      ≡ some (record e { version = (HashCache.reserve k e c).1 })
  unfolding HashCache.reserve
  reserve-here = grind (arith, lookup-insert)

  reserve-AgreeBut : AgreeBut k (HashCache.reserve k e c).0 c
  unfolding HashCache.reserve
  reserve-AgreeBut j n = grind (arith, lookup-insert)

  reserved-next :
      (old : CacheEntry) → lookup k c ≡ some old → (HashCache.reserve k e c).1 ≡ next old.version
  unfolding HashCache.reserve current_version
  reserved-next old h = ground (arith, h)

module _ (k j : Text) (v : ℕ) (cur : CacheEntry) (c : HashCache) (here : lookup k c ≡ some cur)
    (gated : cur.version ≡ v) where
  commit-lookup :
      (e : CacheEntry)
      → lookup j (commit_if_current k v e c).0
        ≡ (if k == j then some (record e { version = v }) else lookup j c)
  unfolding commit_if_current may_commit
  commit-lookup e = grind (arith, lookup-insert)

  delete-lookup : lookup j (delete_if_current k v c).0 ≡ (if k == j then none else lookup j c)
  unfolding delete_if_current is_current
  delete-lookup = grind (arith, lookup-erase)

if-agree :
    (k j : Text) (x y z w : Option CacheEntry)
    → x ≡ z
    → ((k == j) ≡ false → y ≡ w)
    → (if k == j then x else y) ≡ (if k == j then z else w)
if-agree k j x y z w p q = ground arith

none_else :
    (k j : Text) (c c' : HashCache)
    → lookup k c' ≡ none
    → ((k == j) ≡ false → lookup j c ≡ lookup j c')
    → (if k == j then none else lookup j c) ≡ lookup j c'
none_else k j c c' missing same = elim (Bool-cases (k == j)) [
  | inl y ↦ rw y (sym (rw (eq_of_== k j y) at missing))
  | inr n ↦ rw n (same n)
]

-- Two outcomes by a test that is known to fail.
refused {ℓ} : {A : Type ℓ} (n : ℕ) (x y z : A) → n ≢ 0 → x ≡ (if n == 0 then y else z) → x ≡ z
refused n x y z h e = ground arith

-- A write was reserved for a key and fails after some calls. If they were for other keys, then once it
-- is reverted, an update's key has its old entry back under the version after the old one, a first
-- write's key has no entry again, and every other key is as the calls alone would have left it. If they
-- gave the key a later reservation or claim, the key kept an entry throughout, and neither the number of
-- new versions nor the version reached 2^64, then the revert of either changes nothing.
pub revert_restores :
    (k j : Text) (e : CacheEntry) (c : HashCache) (beside over : List Call)
    → All (Elsewhere k) beside
    → Stays k over (HashCache.reserve k e c).0
    → bumps k over (HashCache.reserve k e c).0 ≢ 0
    → bumps k over (HashCache.reserve k e c).0 < 2 ^ 64
    → version_at k (run over (HashCache.reserve k e c).0) < 2 ^ 64
    → ((old : CacheEntry)
        → lookup k c ≡ some old
        → lookup j
            (commit_if_current k
              (HashCache.reserve k e c).1
              old
              (run beside (HashCache.reserve k e c).0)).0
          ≡ (if k == j
              then some (record old { version = next old.version })
              else lookup j (run beside c)))
      × (lookup k c ≡ none
          → lookup j
              (delete_if_current k
                (HashCache.reserve k e c).1
                (run beside (HashCache.reserve k e c).0)).0
            ≡ lookup j (run beside c))
      × ((old : CacheEntry)
          → commit_if_current k
              (HashCache.reserve k e c).1
              old
              (run over (HashCache.reserve k e c).0)
            ≡ (run over (HashCache.reserve k e c).0, false))
      × (delete_if_current k (HashCache.reserve k e c).1 (run over (HashCache.reserve k e c).0)
          ≡ (run over (HashCache.reserve k e c).0, false))
revert_restores k j e c beside over h stays passed few low =
    let v = (HashCache.reserve k e c).1 in
    let reserved_cache = (HashCache.reserve k e c).0 in
    let later = run beside reserved_cache in
    let others = run-agree k beside reserved_cache c h (reserve-AgreeBut k e c) in
    let here = run-here k beside reserved_cache h ∙ reserve-here k e c in
    let gated = λ (old : CacheEntry). settle_gate k e old c over stays few low in
    (
      λ old found.
          commit-lookup k j v (record e { version = v }) later here refl old
          ∙ if-agree k j _ _ _ _
              (ap (λ (n : ℕ). some (record old { version = n })) (reserved-next k e c old found))
              (others j),
      λ missing.
          delete-lookup k j v (record e { version = v }) later here refl
          ∙ none_else k j later (run beside c) (run-here k beside c h ∙ missing) (others j),
      λ old. refused (bumps k over reserved_cache) _ _ _ passed (gated old).0,
      refused (bumps k over reserved_cache) _ _ _ passed (gated e).1,
    )
