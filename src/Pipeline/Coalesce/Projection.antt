-- ===== src/Pipeline/Coalesce/Projection.antt =====
-- Which states of an Event have the same projection.
use kuberecord.Base.{
  ◌≡◌, ◌↔◌, false, Option, none, arith, text_eq, [], ◌∷◌, if◌then◌else◌, contains,
}
use kuberecord.Base.Map.{Map, lookup}
use kuberecord.Base.Text.{Text}
use kuberecord.Pipeline.Coalesce.{event_bump_fields, project, event_coalesce_hash}

lookup-project {ℓ} :
    {V : Type ℓ} (f : Text) (m : Map Text V)
    → lookup f (project m) ≡ (if contains event_bump_fields f then none else lookup f m)
unfolding lookup project
lookup-project f [] = ground arith
lookup-project f ((j, v) ∷ m) = ground (arith, lookup-project f m)

-- `json.Marshal` writes the keys of a map in order, and SHA-256 has no collision here: two maps
-- have the same digest exactly if they have the same fields with the same values.
record IsDigest {ℓ κ} {V : Type ℓ} {H : Type κ} (digest : Map Text V → Option H)
    : Type (ℓ ⊔ κ) where
  pub exact : (m n : Map Text V) → (digest m ≡ digest n) ↔ ((f : Text) → lookup f m ≡ lookup f n)

-- Two states of an Event have the same projection exactly if every field agrees but those that a
-- bump rewrites, so a field that the list does not name always makes the write happen.
event_coalesce_hash-exact {ℓ κ} :
    {V : Type ℓ} {H : Type κ} (digest : Map Text V → Option H) (m n : Map Text V)
    → IsDigest digest
    → (event_coalesce_hash digest m ≡ event_coalesce_hash digest n)
      ↔ ((f : Text) → contains event_bump_fields f ≡ false → lookup f m ≡ lookup f n)
unfolding event_coalesce_hash
event_coalesce_hash-exact digest m n h = (
  λ e f plain.
      let same = (h.exact (project m) (project n)).0 e f in
      ground (arith, same, lookup-project f m, lookup-project f n),
  λ same.
      (h.exact (project m) (project n)).1
        (λ f. ground (arith, same f, lookup-project f m, lookup-project f n)),
)
