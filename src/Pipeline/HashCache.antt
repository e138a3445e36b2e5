-- ===== src/Pipeline/HashCache.antt =====
-- internal/pipeline/hashcache.go: the version-gated cache of one sink. The methods run under the
-- cache's mutex, so each is one step on the map.
pub mod Laws
pub mod Versions
pub mod Claims
pub mod Reverts
use kuberecord.Base.{
  ℕ, zero, suc, ◌+◌, ◌%◌, ◌^◌, ◌≡◌, Bool, true, false, not, ◌&&◌, ◌||◌, Option, none, some, List,
  [], ◌∷◌, arith, Eq, nat_eq, text_eq, ◌==◌, if◌then◌else◌, length,
}
use kuberecord.Base.Map.{Map, lookup, insert, erase}
use kuberecord.Base.Text.{Text, has_prefix}

-- `entryEncoding`
pub data EntryEncoding : Type 0 where
  raw zstd : EntryEncoding

-- `CacheEntry`; `json` is `none` where the source has nil.
pub record CacheEntry : Type 0 where
  pub hash : Text
  pub json : Option Text
  pub encoding : EntryEncoding
  pub uid : Text
  pub api_version : Text
  pub modified_since_checkpoint : ℕ
  pub version : ℕ
  pub pending_delete : Bool

-- `CacheEntry{}`
abbrev pub zero_entry : CacheEntry
zero_entry = record {
  hash = [];
  json = none;
  encoding = raw;
  uid = [];
  api_version = [];
  modified_since_checkpoint = 0;
  version = 0;
  pending_delete = false;
}

-- `hashCache.data`
abbrev pub HashCache : Type 0
HashCache = Map Text CacheEntry

-- `Version + 1` on a uint64.
unfoldable pub next : ℕ → ℕ
next v = (v + 1) % 2 ^ 64

-- `Len`
unfoldable pub len : HashCache → ℕ
len c = length c

-- `Load`
unfoldable pub load : Text → HashCache → Option CacheEntry
load key c = lookup key c

-- `c.data[key].Version`, which is 0 where the key is missing
unfoldable pub current_version : Option CacheEntry → ℕ
current_version none = 0
current_version (some e) = e.version

-- `Reserve`
unfoldable pub reserve : Text → CacheEntry → HashCache → HashCache × ℕ
reserve key entry c =
    let v = next (current_version (lookup key c)) in
    (insert key (record entry { version = v }) c, v)

-- The test of `CommitIfCurrent`: whether the entry at hand may be replaced.
unfoldable pub may_commit : Option CacheEntry → ℕ → Bool
may_commit none expected = expected == 0
may_commit (some cur) expected = cur.version == expected

-- `CommitIfCurrent`
unfoldable pub commit_if_current : Text → ℕ → CacheEntry → HashCache → HashCache × Bool
commit_if_current key expected entry c =
    if may_commit (lookup key c) expected
    then (insert key (record entry { version = expected }) c, true)
    else (c, false)

-- The test of `DeleteIfCurrent` and `UnclaimDelete`: present, and of the expected version.
unfoldable pub is_current : Option CacheEntry → ℕ → Bool
is_current none expected = false
is_current (some cur) expected = cur.version == expected

-- `DeleteIfCurrent`
unfoldable pub delete_if_current : Text → ℕ → HashCache → HashCache × Bool
delete_if_current key expected c =
    if is_current (lookup key c) expected then (erase key c, true) else (c, false)

-- `deleteClaimOutcome`
pub data DeleteClaimOutcome : Type 0 where
  claimed absent in_flight uid_mismatch : DeleteClaimOutcome

-- The three results of `ReserveDelete`, beside the new cache.
pub record Claim : Type 0 where
  pub cache : HashCache
  pub entry : CacheEntry
  pub version : ℕ
  pub outcome : DeleteClaimOutcome

abbrev pub refuse : HashCache → DeleteClaimOutcome → Claim
refuse c o = record { cache = c; entry = zero_entry; version = 0; outcome = o }

-- `ReserveDelete` on the entry that the key holds.
unfoldable pub claim_entry : Text → Text → HashCache → Option CacheEntry → Claim
unfolding next
claim_entry key expected_uid c none = refuse c absent
claim_entry key expected_uid c (some cur) =
    if cur.pending_delete
    then refuse c in_flight
    else if not (expected_uid == []) && not (cur.uid == expected_uid)
    then refuse c uid_mismatch
    else record {
      cache = insert key (record cur { version = next cur.version; pending_delete = true }) c;
      entry = cur;
      version = next cur.version;
      outcome = claimed;
    }

-- `ReserveDelete`
unfoldable pub reserve_delete : Text → Text → HashCache → Claim
unfolding claim_entry
reserve_delete key expected_uid c = claim_entry key expected_uid c (lookup key c)

unfoldable pub unclaim_entry : Text → ℕ → HashCache → Option CacheEntry → HashCache
unclaim_entry key expected c none = c
unclaim_entry key expected c (some cur) =
    if cur.version == expected then insert key (record cur { pending_delete = false }) c else c

-- `UnclaimDelete`
unfoldable pub unclaim_delete : Text → ℕ → HashCache → HashCache
unfolding unclaim_entry
unclaim_delete key expected c = unclaim_entry key expected c (lookup key c)

-- `StoreIfAbsent`
unfoldable pub store_if_absent : Text → CacheEntry → HashCache → HashCache
store_if_absent key entry c = elim (lookup key c) [
  | none ↦ insert key (record entry { version = 1 }) c
  | some _ ↦ c
]

-- `DeletePrefix`: the entries that stay, and how many went.
unfoldable pub delete_prefix : Text → HashCache → HashCache × ℕ
delete_prefix prefix [] = ([], 0)
delete_prefix prefix ((k, e) ∷ c) =
    let rest = delete_prefix prefix c in
    if has_prefix prefix k then (rest.0, rest.1 + 1) else ((k, e) ∷ rest.0, rest.1)
