-- ===== src/Plan/Registry/Counts.antt =====
-- Maps of counts: what `m[k]++` and the decrement that deletes at zero leave in them.
use kuberecord.Base.{ℕ, ◌+◌, ◌-◌, ◌<◌, ◌≡◌, [], ◌∷◌, arith, text_eq, ◌==◌, if◌then◌else◌, All}
use kuberecord.Base.Map.{Map, insert, erase, lookup-insert, lookup-erase}
use kuberecord.Base.Text.{Text}
use kuberecord.Plan.Registry.{count_of, inc, dec}

pub count_of-inc :
    (k j : Text) (m : Map Text ℕ) → count_of j (inc k m) ≡ count_of j m + (if k == j then 1 else 0)
unfolding inc
count_of-inc k j m = ground (arith, lookup-insert k j (count_of k m + 1) m)

pub count_of-dec :
    (k j : Text) (m : Map Text ℕ) → count_of j (dec k m) ≡ count_of j m - (if k == j then 1 else 0)
unfolding dec
count_of-dec k j m = ground (arith, lookup-insert k j (count_of k m - 1) m, lookup-erase k j m)

-- no key is kept at a count of zero
abbrev pub IsPositive : Map Text ℕ → Type 0
IsPositive m = All (λ (e : Text × ℕ). 0 < e.1) m

insert-IsPositive :
    (k : Text) (n : ℕ) (m : Map Text ℕ) → 0 < n → IsPositive m → IsPositive (insert k n m)
unfolding insert
insert-IsPositive k n [] h p = (h, tt)
insert-IsPositive k n ((j, c) ∷ m) h p = ground (arith, insert-IsPositive k n m)

erase-IsPositive : (k : Text) (m : Map Text ℕ) → IsPositive m → IsPositive (erase k m)
unfolding erase
erase-IsPositive k [] p = tt
erase-IsPositive k ((j, c) ∷ m) p = ground (arith, erase-IsPositive k m)

pub inc-IsPositive : (k : Text) (m : Map Text ℕ) → IsPositive m → IsPositive (inc k m)
unfolding inc
inc-IsPositive k m p = insert-IsPositive k (count_of k m + 1) m (omega arith) p

pub dec-IsPositive : (k : Text) (m : Map Text ℕ) → IsPositive m → IsPositive (dec k m)
unfolding dec
dec-IsPositive k m p =
    ground (arith, insert-IsPositive k (count_of k m - 1) m, erase-IsPositive k m)

pub inc-ne-nil : (k : Text) (m : Map Text ℕ) → ¬ (inc k m ≡ [])
unfolding inc insert
inc-ne-nil k [] = ground arith
inc-ne-nil k ((j, n) ∷ m) = ground arith
