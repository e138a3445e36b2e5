-- ===== src/Plan/Registry/Sets.antt =====
-- The loops of `Upsert` and `Remove` over two sets of targets, on the ledger.
use kuberecord.Base.{
  ℕ, ◌+◌, ◌≡◌, ◌++◌, false, List, [], ◌∷◌, arith, refl, text_eq, if◌then◌else◌, contains,
  Bool-cases, inl, inr, ap,
}
use kuberecord.Base.Map.{Map}
use kuberecord.Base.Text.{Text}
use kuberecord.Plan.Registry.{
  WatchTarget, TargetKey, TargetEntry, watch_target_eq, target_key_eq, add_ref, drop_ref,
  add_missing, drop_missing,
}
use kuberecord.Plan.Registry.Ledger.{Ledger, Axis, tally, Tracks, add_ref-Tracks, drop_ref-Tracks}

-- the keys of a Go map that is used as a set
abbrev pub Unique : List WatchTarget → Type 0
Unique [] = Unit
Unique (t ∷ ts) = (contains ts t ≡ false) × Unique ts

unfoldable pub pairs : Text → List WatchTarget → Ledger
pairs rule [] = []
pairs rule (t ∷ ts) = (rule, t) ∷ pairs rule ts

-- The contributions of every rule.
unfoldable pub ledger : Map Text (List WatchTarget) → Ledger
unfolding pairs
ledger [] = []
ledger ((rule, ts) ∷ m) = pairs rule ts ++ ledger m

-- The targets of the first set that the second lacks.
unfoldable pub missing : List WatchTarget → List WatchTarget → List WatchTarget
missing [] other = []
missing (t ∷ ts) other = let rest = missing ts other in if contains other t then rest else t ∷ rest

pub missing-nil : (ts : List WatchTarget) → missing ts [] ≡ ts
unfolding missing contains
missing-nil [] = refl
missing-nil (t ∷ ts) = ap (◌∷◌ t) (missing-nil ts)

pub tally-append :
    (a : Axis) (k : TargetKey) (x : Text) (l l' : Ledger)
    → tally a k x (l ++ l') ≡ tally a k x l + tally a k x l'
unfolding tally
tally-append a k x [] l' = omega arith
tally-append a k x (c ∷ l) l' = omega (arith, tally-append a k x l l')

module _ (rule : Text) where
  abbrev share : Axis → TargetKey → Text → List WatchTarget → ℕ
  share a k x ts = tally a k x (pairs rule ts)

  -- the sets here are small enough to count each target once
  share-missing_cons :
      (a : Axis) (k : TargetKey) (x : Text) (t : WatchTarget) (ts other : List WatchTarget)
      → Unique other
      → contains ts t ≡ false
      → share a k x (missing other ts)
        ≡ share a k x (missing other (t ∷ ts))
          + (if contains other t then share a k x (t ∷ []) else 0)
  unfolding missing contains tally pairs
  share-missing_cons a k x t ts [] u n = omega arith
  share-missing_cons a k x t ts (o ∷ other) u n =
      ground (arith, share-missing_cons a k x t ts other)

  pub share-missing :
      (a : Axis) (k : TargetKey) (x : Text) (ts other : List WatchTarget)
      → Unique ts
      → Unique other
      → share a k x (missing ts other) + share a k x other
        ≡ share a k x (missing other ts) + share a k x ts
  unfolding missing tally pairs
  share-missing a k x [] other u v = rw (missing-nil other) (omega arith)
  share-missing a k x (t ∷ ts) other u v =
      ground (arith, share-missing a k x ts other, share-missing_cons a k x t ts other)

Tracks-cong :
    (m : Map TargetKey TargetEntry) (l l' : Ledger)
    → ((a : Axis) (k : TargetKey) (x : Text) → tally a k x l' ≡ tally a k x l)
    → Tracks m l
    → Tracks m l'
Tracks-cong m l l' e h = record {
  exact = λ a k x. omega (arith, h.exact a k x, e a k x);
  live = h.live;
}

module _ (rule : Text) where
  pub add_missing-Tracks :
      (ts held : List WatchTarget) (m : Map TargetKey TargetEntry) (l l' : Ledger)
      → ((a : Axis) (k : TargetKey) (x : Text)
          → tally a k x l' ≡ tally a k x (pairs rule (missing ts held)) + tally a k x l)
      → Tracks m l
      → Tracks (add_missing rule ts held m) l'
  unfolding add_missing missing pairs tally
  add_missing-Tracks [] held m l l' e h = Tracks-cong m l l' (λ a k x. omega (arith, e a k x)) h
  add_missing-Tracks (t ∷ ts) held m l l' e h = elim (Bool-cases (contains held t)) [
    | inl old ↦ rw old (add_missing-Tracks ts held m l l' (λ a k x. ground (arith, old, e a k x)) h)
    | inr new ↦ rw new (
        add_missing-Tracks ts held (add_ref rule t m) ((rule, t) ∷ l) l'
          (λ a k x. ground (arith, new, e a k x)) (add_ref-Tracks rule t m l h))
  ]

  pub drop_missing-Tracks :
      (ts wanted : List WatchTarget) (m : Map TargetKey TargetEntry) (l l' : Ledger)
      → ((a : Axis) (k : TargetKey) (x : Text)
          → tally a k x l ≡ tally a k x (pairs rule (missing ts wanted)) + tally a k x l')
      → Tracks m l
      → Tracks (drop_missing rule ts wanted m) l'
  unfolding drop_missing missing pairs tally
  drop_missing-Tracks [] wanted m l l' e h = Tracks-cong m l l' (λ a k x. omega (arith, e a k x)) h
  drop_missing-Tracks (t ∷ ts) wanted m l l' e h = elim (Bool-cases (contains wanted t)) [
    | inl kept ↦
        rw kept (drop_missing-Tracks ts wanted m l l' (λ a k x. ground (arith, kept, e a k x)) h)
    | inr gone ↦
        let l2 = pairs rule (missing ts wanted) ++ l' in
        rw gone (
          drop_missing-Tracks ts wanted (drop_ref rule t m) l2 l'
            (λ a k x. tally-append a k x (pairs rule (missing ts wanted)) l')
            (drop_ref-Tracks rule t m l2 (
              Tracks-cong m l ((rule, t) ∷ l2)
                (λ a k x.
                  ground
                    (arith, gone, e a k x, tally-append a k x (pairs rule (missing ts wanted)) l'))
                h)))
  ]
