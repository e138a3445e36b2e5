-- ===== src/Base/Sorting.antt =====
-- The standard library's sorts, as insertion: `slices.SortStableFunc`, and `slices.SortFunc` where no
-- two elements compare as equal.
use Prim.Native.Nat.{Ordering}
use mathlib.Core.List.{List, [], ◌∷◌}
use mathlib.Core.Logic.{inl, inr}
use native.Mathlib.Omega.{arith}
use kuberecord.Base.Lists.{All, Elem}

-- `slices.SortStableFunc`: an element goes before the first one that is greater.
unfoldable pub insert_stable {ℓ} : {A : Type ℓ} → (A → A → Ordering) → A → List A → List A
insert_stable cmp x [] = x ∷ []
insert_stable cmp x (y ∷ ys) = elim (cmp x y) [
  | Ordering.gt ↦ y ∷ insert_stable cmp x ys
  | _ ↦ x ∷ y ∷ ys
]

unfoldable pub sort_stable {ℓ} : {A : Type ℓ} → (A → A → Ordering) → List A → List A
unfolding insert_stable
sort_stable cmp [] = []
sort_stable cmp (x ∷ xs) = insert_stable cmp x (sort_stable cmp xs)

pub insert_stable-All {ℓ κ} :
    {A : Type ℓ} (P : A → Type κ) (cmp : A → A → Ordering) (x : A) (ys : List A)
    → P x
    → All P ys
    → All P (insert_stable cmp x ys)
unfolding insert_stable
insert_stable-All P cmp x [] p ps = (p, ps)
insert_stable-All P cmp x (y ∷ ys) p ps = ground (arith, insert_stable-All P cmp x ys p ps.1)

pub sort_stable-All {ℓ κ} :
    {A : Type ℓ} (P : A → Type κ) (cmp : A → A → Ordering) (xs : List A)
    → All P xs
    → All P (sort_stable cmp xs)
unfolding sort_stable
sort_stable-All P cmp [] ps = ps
sort_stable-All P cmp (x ∷ xs) ps =
    insert_stable-All P cmp x (sort_stable cmp xs) ps.0 (sort_stable-All P cmp xs ps.1)

insert_stable-Elem :
    {A : Type 0} (cmp : A → A → Ordering) (x y : A) (ys : List A)
    → Elem x (y ∷ ys)
    → Elem x (insert_stable cmp y ys)
unfolding insert_stable
insert_stable-Elem cmp x y [] m = m
insert_stable-Elem cmp x y (z ∷ zs) m = ground (arith, insert_stable-Elem cmp x y zs)

pub sort_stable-Elem :
    {A : Type 0} (cmp : A → A → Ordering) (x : A) (xs : List A)
    → Elem x xs
    → Elem x (sort_stable cmp xs)
unfolding sort_stable
sort_stable-Elem cmp x [] m = m
sort_stable-Elem cmp x (y ∷ ys) (inl e) = insert_stable-Elem cmp x y (sort_stable cmp ys) (inl e)
sort_stable-Elem cmp x (y ∷ ys) (inr m) =
    insert_stable-Elem cmp x y (sort_stable cmp ys) (inr (sort_stable-Elem cmp x ys m))
