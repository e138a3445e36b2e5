-- ===== src/Pipeline/HashCache/Laws.antt =====
-- What each method leaves in the cache, in a form that rewriting reads.
use kuberecord.Base.{◌+◌, ◌≡◌, none, [], ◌∷◌, arith, nat_eq, text_eq, if◌then◌else◌, length}
use kuberecord.Base.Map.{lookup, Distinct}
use kuberecord.Base.Text.{Text, has_prefix}
use kuberecord.Pipeline.HashCache.{HashCache, delete_prefix}

pub lookup-delete_prefix :
    (prefix j : Text) (c : HashCache)
    → lookup j (delete_prefix prefix c).0 ≡ (if has_prefix prefix j then none else lookup j c)
unfolding lookup delete_prefix
lookup-delete_prefix prefix j [] = ground arith
lookup-delete_prefix prefix j ((k, e) ∷ c) = ground (arith, lookup-delete_prefix prefix j c)

length-delete_prefix :
    (prefix : Text) (c : HashCache)
    → length (delete_prefix prefix c).0 + (delete_prefix prefix c).1 ≡ length c
unfolding delete_prefix
length-delete_prefix prefix [] = omega arith
length-delete_prefix prefix ((k, e) ∷ c) = ground (arith, length-delete_prefix prefix c)

pub delete_prefix-Distinct :
    (prefix : Text) (c : HashCache) → Distinct c → Distinct (delete_prefix prefix c).0
unfolding delete_prefix
delete_prefix-Distinct prefix [] d = tt
delete_prefix-Distinct prefix ((k, e) ∷ c) d =
    ground (arith, delete_prefix-Distinct prefix c, lookup-delete_prefix prefix k c)

-- Evicting a scope drops exactly the entries under its prefix, leaves every other entry as it
-- was, and reports how many entries went.
pub delete_prefix_lem :
    (prefix j : Text) (c : HashCache)
    → (lookup j (delete_prefix prefix c).0 ≡ (if has_prefix prefix j then none else lookup j c))
      × (length (delete_prefix prefix c).0 + (delete_prefix prefix c).1 ≡ length c)
delete_prefix_lem prefix j c = (lookup-delete_prefix prefix j c, length-delete_prefix prefix c)
