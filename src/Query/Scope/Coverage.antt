-- ===== src/Query/Scope/Coverage.antt =====
-- Which intervals a window keeps.
use kuberecord.Base.{ℕ, ◌≤◌, ◌≡◌, true, some, arith, nat_eq, ◌⊎◌, inl, inr, Option-cases}
use Prim.Native.Nat.{max}
use kuberecord.Query.Scope.{ScopeInterval, overlaps_window}

-- An instant lies in the window, whose end 0 is no bound.
abbrev pub InWindow : ℕ → ℕ → ℕ → Type 0
InWindow u from to = ((from ≡ 0) ⊎ (from ≤ u)) × ((to ≡ 0) ⊎ (u ≤ to))

-- An instant lies in the interval, its ends included.
abbrev pub InInterval : ℕ → ScopeInterval → Type 0
InInterval u iv = (iv.from ≤ u) × ((stop : ℕ) → iv.to ≡ some stop → u ≤ stop)

-- An interval that has a shared instant with the window is never dropped, and one that is kept has
-- one, for an interval and a window that do not end before they start.
pub overlaps_window-shares :
    (iv : ScopeInterval) (from to : ℕ)
    → ((stop : ℕ) → iv.to ≡ some stop → iv.from ≤ stop)
    → ((to ≡ 0) ⊎ (from ≤ to))
    → ((u : ℕ) → InWindow u from to → InInterval u iv → overlaps_window iv from to ≡ true)
      × (overlaps_window iv from to ≡ true
          → InWindow (max iv.from from) from to × InInterval (max iv.from from) iv)
unfolding overlaps_window
overlaps_window-shares iv from to ordered window = (
  λ u w i. elim (Option-cases iv.to) [
    | inl n ↦ ground (arith, n)
    | inr (stop, e) ↦ ground (arith, e, i.1 stop e)
  ],
  λ h. ((ground arith, ground arith), (ground arith, λ stop e. ground (arith, e, ordered stop e))),
)
