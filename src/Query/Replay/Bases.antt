-- ===== src/Query/Replay/Bases.antt =====
-- Replaying from the newest full state gives what replaying everything gives.
use kuberecord.Base.{
  ℕ, suc, ◌+◌, ◌-◌, ◌≡◌, ◌≢◌, some, List, [], ◌∷◌, arith, text_eq, refl, sym, ◌∙◌, Option-cases,
  inl, inr, ap,
}
use kuberecord.Query.Replay.{
  ReplayRow, Progress, Patching, Reconstruction, Result, ok, err, ◌>>=◌, base_row, replay_row,
  replay_rows, replay, finish,
}
use kuberecord.Query.Replay.Folding.{first_full, later_full}

-- the same document, reached by the same row
abbrev SameEnd : Progress → Progress → Type 0
SameEnd p q = (p.state ≡ q.state) × (p.last ≡ q.last)

no_base : (i : ℕ) → base_row [] ≡ some i → ⊥
unfolding base_row
no_base i h = cc

module _ (lib : Patching) where
  first-ok :
      (first : Result Progress) (rows : List ReplayRow) {q : Progress}
      → (first >>= replay_rows lib rows) ≡ ok q
      → (p : Progress) × (first ≡ ok p) × (replay_rows lib rows p ≡ ok q)
  first-ok (ok p) rows h = (p, refl, h)
  first-ok (err e) rows h = cc

  replay_rows-first :
      (row : ReplayRow) (rows : List ReplayRow) (p q : Progress)
      → replay_rows lib (row ∷ rows) p ≡ ok q
      → (p1 : Progress) × (replay_row lib row p ≡ ok p1) × (replay_rows lib rows p1 ≡ ok q)
  unfolding replay_rows
  replay_rows-first row rows p q h = first-ok (replay_row lib row p) rows h

  replay_row-SameEnd :
      (row : ReplayRow) (p p' q : Progress)
      → p.state ≡ p'.state
      → replay_row lib row p ≡ ok q
      → (q' : Progress) × (replay_row lib row p' ≡ ok q') × SameEnd q q'
  unfolding replay_row
  replay_row-SameEnd row p p' q e h =
      (record q { applied = p'.applied + q.applied - p.applied }, ground arith, (refl, refl))

  replay_rows-SameEnd :
      (rows : List ReplayRow) (p p' q : Progress)
      → SameEnd p p'
      → replay_rows lib rows p ≡ ok q
      → (q' : Progress) × (replay_rows lib rows p' ≡ ok q') × SameEnd q q'
  unfolding replay_rows
  replay_rows-SameEnd [] p p' q e h = (p', refl, ground arith)
  replay_rows-SameEnd (row ∷ rows) p p' q e h =
      let (p1, first, rest) = first-ok (replay_row lib row p) rows h in
      let (p1', first', e') = replay_row-SameEnd row p p' p1 e.0 first in
      let (q', rest', same) = replay_rows-SameEnd rows p1 p1' q e' rest in
      (q', rw first' rest', same)

  full_row :
      (row : ReplayRow) (p q : Progress)
      → row.state ≢ []
      → replay_row lib row p ≡ ok q
      → SameEnd q (record { state = row.state; applied = 0; last = row })
  unfolding replay_row
  full_row row p q n h = ground arith

  finish-ok :
      (base : ReplayRow) (q : Progress) (object : lib.Object)
      → lib.unmarshal q.state ≡ some object
      → (r : Reconstruction lib.Object) × (finish lib base q ≡ ok r)
        × (r.object ≡ object)
        × (r.sha256 ≡ q.last.sha256)
  unfolding finish
  finish-ok base q object u = (
    record {
      object = object;
      base_ts = base.ts;
      base_event = base.event_type;
      patches_applied = q.applied;
      sha256 = q.last.sha256;
    },
    rw u refl,
    refl,
    refl,
  )

  replay_at_base :
      (row : ReplayRow) (rows : List ReplayRow) (q : Progress) (object : lib.Object)
      → replay_rows lib rows (record { state = row.state; applied = 0; last = row }) ≡ ok q
      → lib.unmarshal q.state ≡ some object
      → (r : Reconstruction lib.Object) × (replay lib (row ∷ rows) 0 ≡ ok r)
        × (r.object ≡ object)
        × (r.sha256 ≡ q.last.sha256)
  unfolding replay
  replay_at_base row rows q object h u =
      let (r, done, same, digest) = finish-ok row q object u in (r, rw h done, same, digest)

  replay_past :
      (row : ReplayRow) (rows : List ReplayRow) (i j : ℕ)
      → i ≡ suc j
      → replay lib (row ∷ rows) i ≡ replay lib rows j
  unfolding replay
  replay_past row rows i j e = rw e refl

  -- A replay that starts at the newest full state ends where a replay of all the rows ends: at the
  -- same document, to be checked against the same digest.
  pub replay-base :
      (rows : List ReplayRow) (p q : Progress) (i : ℕ) (object : lib.Object)
      → replay_rows lib rows p ≡ ok q
      → base_row rows ≡ some i
      → lib.unmarshal q.state ≡ some object
      → (r : Reconstruction lib.Object) × (replay lib rows i ≡ ok r)
        × (r.object ≡ object)
        × (r.sha256 ≡ q.last.sha256)
  replay-base [] p q i object h at u = absurd (no_base i at)
  replay-base (row ∷ rows) p q i object h at u =
      let (p1, first, rest) = replay_rows-first row rows p q h in
      elim (Option-cases (base_row rows)) [
        | inl n ↦
            let (zeroth, full) = first_full row rows i n at in
            let (q0, rest0, same) =
              replay_rows-SameEnd rows p1 _ q (full_row row p p1 full first) rest in
            let (r, done, object_same, digest) =
              replay_at_base row rows q0 object rest0 (rw (← same.0) u) in
            (r, rw zeroth done, object_same, digest ∙ ap (λ (x : ReplayRow). x.sha256) (sym same.1))
        | inr (j, e) ↦
            let (r, done, same, digest) = replay-base rows p1 q j object rest e u in
            (r, replay_past row rows i j (later_full row rows i j e at) ∙ done, same, digest)
      ]
