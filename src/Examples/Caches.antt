-- ===== src/Examples/Caches.antt =====
-- Two sinks, the keys of two objects, and a cache that holds one of them.
use Prim.Native.Nat.{Ordering}
use kuberecord.Base.{
  List-ℕ_discrete, none, All, ℕ, ◌<◌, ◌^◌, ◌≡◌, ◌≢◌, ◌↔◌, true, false, some, List, [], ◌∷◌, arith,
  refl, text_eq, nat_eq, ◌==◌, if◌then◌else◌, contains,
}
use native.Mathlib.Decide.{ℕ_discrete}
use kuberecord.Base.Map.{lookup, insert, erase, Distinct, lookup-insert}
use kuberecord.Base.Text.{codes, has_prefix}
use kuberecord.Sink.Identity.{SinkId, compare}
use kuberecord.Sink.Identity.Order.{compare-eq_iff}
use kuberecord.Pipeline.Identity.{Key, ScopeKey, cache_key, scope_key_prefix}
use kuberecord.Pipeline.Identity.Prefixes.{
  IsPlainKey, IsPlainScope, Covers, cache_key_injective, scope_key_prefix-Covers,
}
use kuberecord.Pipeline.HashCache
use kuberecord.Pipeline.HashCache.{
  CacheEntry, HashCache, zero_entry, next, raw, claimed, in_flight, refuse, commit_if_current,
  delete_if_current, reserve_delete, unclaim_delete, delete_prefix, claim_entry, current_version,
}
use kuberecord.Pipeline.HashCache.Versions.{
  Call, reserve, claim, apply, run, bump, bumps, Stays, version_at, reserved, apply-Distinct,
  settle_gate,
}
use kuberecord.Pipeline.HashCache.Claims.{claim_lifecycle, stale_commit_after_delete}
use kuberecord.Pipeline.HashCache.Reverts.{Elsewhere, revert_restores}

abbrev archive : SinkId
archive = record { kind = codes "S3Sink"; name = codes "archive" }

abbrev warehouse : SinkId
warehouse = record { kind = codes "ClickHouseSink"; name = codes "archive" }

abbrev web : Key
web = record {
  sink = archive;
  group = codes "apps";
  kind = codes "Deployment";
  namespace = codes "shop";
  name = codes "web";
}

abbrev db : Key
db = record web { name = codes "db" }

abbrev shop : ScopeKey
shop = record { group = codes "apps"; kind = codes "Deployment"; namespace = codes "shop" }

-- The objects in the cache and in the works.
abbrev first_write : CacheEntry
first_write = record zero_entry { hash = codes "aa"; uid = codes "u1"; version = 4 }

abbrev second_write : CacheEntry
second_write = record first_write { hash = codes "bb" }

abbrev one_object : HashCache
one_object = (cache_key web, first_write) ∷ []

-- What may run between a write of `web` and its confirmation.
abbrev meanwhile : List Call
meanwhile = reserve (cache_key db) second_write ∷ claim (cache_key web) [] ∷ []

compare-eq_example : (compare archive warehouse ≡ Ordering.eq) ↔ (archive ≡ warehouse)
compare-eq_example = compare-eq_iff archive warehouse

web-IsPlain : IsPlainKey web
unfolding contains ℕ_discrete
web-IsPlain = record { group_plain = refl; kind_plain = refl; namespace_flat = refl }

db-IsPlain : IsPlainKey db
unfolding contains ℕ_discrete
db-IsPlain = record { group_plain = refl; kind_plain = refl; namespace_flat = refl }

shop-IsPlain : IsPlainScope shop
unfolding contains ℕ_discrete
shop-IsPlain = record { group_plain = refl; kind_plain = refl; namespace_flat = refl }

cache_key_injective_example : (cache_key web ≡ cache_key db) ↔ (web ≡ db)
cache_key_injective_example = cache_key_injective web db web-IsPlain db-IsPlain refl

scope_key_prefix_example :
    (has_prefix (scope_key_prefix shop) (cache_key web) ≡ true) ↔ Covers shop web
scope_key_prefix_example = scope_key_prefix-Covers shop web shop-IsPlain web-IsPlain

one_object-Distinct : Distinct one_object
unfolding lookup
one_object-Distinct = (refl, tt)

apply-Distinct_example : Distinct (apply (reserve (cache_key db) second_write) one_object)
apply-Distinct_example =
    apply-Distinct (reserve (cache_key db) second_write) one_object one_object-Distinct

-- The write of `web` is issued, and then that of `db` and a claim of `web`.
abbrev issued : HashCache
issued = (HashCache.reserve (cache_key web) second_write one_object).0

web-Stays : Stays (cache_key web) meanwhile issued
unfolding apply HashCache.reserve reserve_delete claim_entry lookup insert
web-Stays = (ground arith, (ground arith, tt))

web-bumps : bumps (cache_key web) meanwhile issued < 2 ^ 64
unfolding bumps bump apply
web-bumps = ground arith

-- The key of `db` is not that of `web`, so only the claim gives `web` a new version.
web-version : version_at (cache_key web) (run meanwhile issued) < 2 ^ 64
unfolding run apply HashCache.reserve reserve_delete claim_entry current_version next lookup
web-version = grind (arith, lookup-insert)

settle_gate_example :
    (commit_if_current
        (cache_key web)
        (reserved (cache_key web) second_write one_object)
        second_write
        (run meanwhile issued)
      ≡ (if bumps (cache_key web) meanwhile issued == 0
          then (
            insert
                (cache_key web)
                (record second_write { version = reserved (cache_key web) second_write one_object })
                (run meanwhile issued),
            true,
          )
          else (run meanwhile issued, false)))
    × (delete_if_current
          (cache_key web)
          (reserved (cache_key web) second_write one_object)
          (run meanwhile issued)
        ≡ (if bumps (cache_key web) meanwhile issued == 0
            then (erase (cache_key web) (run meanwhile issued), true)
            else (run meanwhile issued, false)))
settle_gate_example =
    settle_gate (cache_key web) second_write second_write one_object meanwhile web-Stays web-bumps
      web-version

-- The claim of `web` in `one_object` is granted.
web-claimed : (reserve_delete (cache_key web) (codes "u1") one_object).outcome ≡ claimed
unfolding reserve_delete claim_entry lookup
web-claimed = ground arith

abbrev web_claim : HashCache
web_claim = (reserve_delete (cache_key web) (codes "u1") one_object).cache

abbrev claim_version : ℕ
claim_version = (reserve_delete (cache_key web) (codes "u1") one_object).version

-- While the claim is open, another object is written and the claim is asked for again.
abbrev during_claim : List Call
during_claim = reserve (cache_key db) first_write ∷ claim (cache_key web) (codes "u1") ∷ []

during-Stays : Stays (cache_key web) during_claim web_claim
unfolding apply HashCache.reserve reserve_delete claim_entry lookup insert
during-Stays = (ground arith, (ground arith, tt))

during-bumps : bumps (cache_key web) during_claim web_claim < 2 ^ 64
unfolding bumps bump apply
during-bumps = ground arith

during-version : version_at (cache_key web) (run during_claim web_claim) < 2 ^ 64
unfolding run apply HashCache.reserve reserve_delete claim_entry current_version next lookup
during-version = grind (arith, lookup-insert)

claim_lifecycle_example :
    (reserve_delete (cache_key web) (codes "u2") web_claim ≡ refuse web_claim in_flight)
    × (lookup (cache_key web) (unclaim_delete (cache_key web) claim_version web_claim)
        ≡ some (record (reserve_delete (cache_key web) (codes "u1") one_object).entry {
          version = claim_version;
          pending_delete = false;
        }))
    × (delete_if_current (cache_key web) claim_version (run during_claim web_claim) ≡ (
        if bumps (cache_key web) during_claim web_claim == 0
        then (erase (cache_key web) (run during_claim web_claim), true)
        else (run during_claim web_claim, false)))
    × ((held : CacheEntry)
        → lookup (cache_key web) (run during_claim web_claim) ≡ some held
        → unclaim_delete (cache_key web) claim_version (run during_claim web_claim) ≡ (
            if bumps (cache_key web) during_claim web_claim == 0
            then insert
                (cache_key web)
                (record held { pending_delete = false })
                (run during_claim web_claim)
            else run during_claim web_claim))
claim_lifecycle_example =
    claim_lifecycle (cache_key web) (codes "u1") (codes "u2") one_object during_claim web-claimed
      during-Stays during-bumps during-version

web-passed : bumps (cache_key web) meanwhile issued ≢ 0
unfolding bumps bump apply HashCache.reserve reserve_delete claim_entry lookup insert cache_key
    List-ℕ_discrete ℕ_discrete
web-passed = λ e. cc

-- While the write of `web` is under way, `db` is written and claimed.
abbrev beside : List Call
beside = reserve (cache_key db) first_write ∷ claim (cache_key db) [] ∷ []

beside-Elsewhere : All (Elsewhere (cache_key web)) beside
unfolding cache_key List-ℕ_discrete ℕ_discrete
beside-Elsewhere = (refl, (refl, tt))

revert_restores_example :
    ((old : CacheEntry)
      → lookup (cache_key web) one_object ≡ some old
      → lookup
          (cache_key db)
          (commit_if_current
            (cache_key web)
            (HashCache.reserve (cache_key web) second_write one_object).1
            old
            (run beside issued)).0
        ≡ (if cache_key web == cache_key db
            then some (record old { version = next old.version })
            else lookup (cache_key db) (run beside one_object)))
    × (lookup (cache_key web) one_object ≡ none
        → lookup
            (cache_key db)
            (delete_if_current
              (cache_key web)
              (HashCache.reserve (cache_key web) second_write one_object).1
              (run beside issued)).0
          ≡ lookup (cache_key db) (run beside one_object))
    × ((old : CacheEntry)
        → commit_if_current
            (cache_key web)
            (HashCache.reserve (cache_key web) second_write one_object).1
            old
            (run meanwhile issued)
          ≡ (run meanwhile issued, false))
    × (delete_if_current
          (cache_key web)
          (HashCache.reserve (cache_key web) second_write one_object).1
          (run meanwhile issued)
        ≡ (run meanwhile issued, false))
revert_restores_example =
    revert_restores (cache_key web) (cache_key db) second_write one_object beside meanwhile
      beside-Elsewhere web-Stays web-passed web-bumps web-version

stale_commit_example :
    lookup
      (cache_key db)
      (commit_if_current
        (cache_key db)
        (HashCache.reserve (cache_key db) first_write []).1
        first_write
        (HashCache.reserve
          (cache_key db)
          second_write
          (delete_if_current
            (cache_key db)
            (reserve_delete
              (cache_key db)
              []
              (HashCache.reserve (cache_key db) first_write []).0).version
            (reserve_delete
              (cache_key db)
              []
              (HashCache.reserve (cache_key db) first_write []).0).cache).0).0).0
    ≡ some (record first_write { version = 1 })
unfolding lookup
stale_commit_example =
    stale_commit_after_delete (cache_key db) first_write second_write [] refl refl
