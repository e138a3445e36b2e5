-- ===== src/Pipeline/Coalesce/Decisions.antt =====
-- When a bump is suppressed, and until when.
use kuberecord.Base.{
  ℕ, ◌+◌, ◌≡◌, ◌↔◌, true, false, Option, none, some, arith, refl, text_eq, ◌<◌, ◌≤◌, ◌-◌,
}
use kuberecord.Base.Map.{lookup}
use kuberecord.Base.Int.{ℤ, pos, pos_part, neg_part}
use kuberecord.Base.Text.{Text}
use kuberecord.Pipeline.Coalesce.{Coalescer, CoalesceEntry, decide}

-- The last row recorded for the key says the same, and is younger than the window.
abbrev pub Suppresses : Option CoalesceEntry → Text → ℤ → ℕ → Type 0
Suppresses none hash window now = ⊥
Suppresses (some last) hash window now =
    (last.hash ≡ hash) × (now + neg_part window < last.at + pos_part window) × (0 < pos_part window)

module _ (key hash : Text) (window : ℤ) (now : ℕ) (c : Coalescer) where
  skips :
      (o : Option CoalesceEntry)
      → lookup key c.entries ≡ o
      → ((decide key hash window now c).1 ≡ true) ↔ Suppresses o hash window now
  unfolding decide
  skips none e = (λ h. ground arith, λ h. absurd h)
  skips (some last) e = (λ h. ground arith, λ h. ground arith)

  -- what is left of the window
  remaining : CoalesceEntry → ℕ
  remaining last = last.at + pos_part window - now

  skip-remaining :
      (last : CoalesceEntry)
      → lookup key c.entries ≡ some last
      → (decide key hash window now c).1 ≡ true
      → ((decide key hash window now c).0 ≡ pos (remaining last))
        × (0 < remaining last)
        × (now + remaining last ≡ last.at + pos_part window)
  unfolding decide remaining
  skip-remaining last e h = ground arith

  pub written_at :
      (last : CoalesceEntry) (later : ℕ)
      → lookup key c.entries ≡ some last
      → last.at + pos_part window ≤ later
      → (decide key hash window later c).1 ≡ false
  unfolding decide
  written_at last later e h = ground arith

-- A bump is skipped exactly if a row with the same projection was recorded less than the window
-- ago. The delay that is given then ends when that row leaves the window, at the same instant however
-- often it bumps, and a decision at that instant does not skip the same bump.
pub decide_deadline :
    (key hash : Text) (window : ℤ) (now : ℕ) (c : Coalescer)
    → (((decide key hash window now c).1 ≡ true)
        ↔ Suppresses (lookup key c.entries) hash window now)
      × ((last : CoalesceEntry)
          → lookup key c.entries ≡ some last
          → (decide key hash window now c).1 ≡ true
          → (flush : ℕ) × ((decide key hash window now c).0 ≡ pos flush)
            × (0 < flush)
            × (now + flush ≡ last.at + pos_part window)
            × ((decide key hash window (now + flush) c).1 ≡ false))
decide_deadline key hash window now c = (
  skips key hash window now c (lookup key c.entries) refl,
  λ last e h.
      let (flush, positive, deadline) = skip-remaining key hash window now c last e h in
      (
        remaining key hash window now c last,
        flush,
        positive,
        deadline,
        written_at key hash window now c last _ e (omega (arith, deadline)),
      ),
)
