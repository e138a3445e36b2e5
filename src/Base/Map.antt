-- ===== src/Base/Map.antt =====
-- Go's maps as association lists: a write replaces the entry of its key, so that `len` counts keys.
use Prim.Native.Nat.{suc}
use mathlib.Core.Path.{◌≡◌, refl}
use mathlib.Core.Option.{Option, none, some}
use mathlib.Core.List.{List, [], ◌∷◌}
use native.Mathlib.Omega.{arith}
use kuberecord.Base.Tests.{Eq, ◌==◌, if◌then◌else◌}
use kuberecord.Base.Lists.{length}

abbrev pub Map {ℓ κ} : Type ℓ → Type κ → Type (ℓ ⊔ κ)
Map K V = List (K × V)

module _ {ℓ κ} {K : Type ℓ} {V : Type κ} ⦃e : Eq K⦄ where
  -- `v, ok := m[k]`
  unfoldable pub lookup : K → Map K V → Option V
  lookup key [] = none
  lookup key ((other, held) ∷ rest) = if other == key then some held else lookup key rest

  -- `m[k] = v`
  unfoldable pub insert : K → V → Map K V → Map K V
  insert key new [] = (key, new) ∷ []
  insert key new ((other, held) ∷ rest) =
      if other == key then (key, new) ∷ rest else (other, held) ∷ insert key new rest

  -- `delete(m, k)`
  unfoldable pub erase : K → Map K V → Map K V
  erase key [] = []
  erase key ((other, held) ∷ rest) =
      let kept = erase key rest in if other == key then kept else (other, held) ∷ kept

  pub lookup-insert :
      (key other : K) (held : V) (rest : Map K V)
      → lookup other (insert key held rest)
        ≡ (if key == other then some held else lookup other rest)
  unfolding lookup insert
  lookup-insert key other held [] = refl
  lookup-insert key other held ((first, kept) ∷ rest) =
      ground (arith, lookup-insert key other held rest)

  pub lookup-erase :
      (k j : K) (m : Map K V) → lookup j (erase k m) ≡ (if k == j then none else lookup j m)
  unfolding lookup erase
  lookup-erase k j [] = ground arith
  lookup-erase k j ((i, w) ∷ m) = ground (arith, lookup-erase k j m)

  -- the keys of a map, each once
  abbrev pub Distinct : Map K V → Type κ
  Distinct [] = Unit
  Distinct ((k, v) ∷ m) = (lookup k m ≡ none) × Distinct m

  pub insert-Distinct : (k : K) (v : V) (m : Map K V) → Distinct m → Distinct (insert k v m)
  unfolding lookup insert
  insert-Distinct k v [] d = (refl, tt)
  insert-Distinct k v ((j, w) ∷ m) d = ground (arith, insert-Distinct k v m, lookup-insert k j v m)

  pub erase-Distinct : (k : K) (m : Map K V) → Distinct m → Distinct (erase k m)
  unfolding lookup erase
  erase-Distinct k [] d = tt
  erase-Distinct k ((j, w) ∷ m) d = ground (arith, erase-Distinct k m, lookup-erase k j m)

  pub length-insert :
      (k : K) (v : V) (m : Map K V)
      → length (insert k v m) ≡ elim (lookup k m) [ none ↦ suc (length m) | some _ ↦ length m ]
  unfolding lookup insert
  length-insert k v [] = refl
  length-insert k v ((j, w) ∷ m) = ground (arith, length-insert k v m)

  pub erase_absent : (k : K) (m : Map K V) → lookup k m ≡ none → erase k m ≡ m
  unfolding lookup erase
  erase_absent k [] h = refl
  erase_absent k ((j, w) ∷ m) h = ground (arith, erase_absent k m)

  pub length-erase :
      (k : K) (m : Map K V)
      → Distinct m
      → length m
        ≡ elim (lookup k m) [ none ↦ length (erase k m) | some _ ↦ suc (length (erase k m)) ]
  unfolding lookup erase
  length-erase k [] d = refl
  length-erase k ((j, w) ∷ m) d = ground (arith, length-erase k m, erase_absent k m)
