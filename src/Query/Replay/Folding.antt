-- ===== src/Query/Replay/Folding.antt =====
-- Replaying from the newest full state, and one row at a time.
use kuberecord.Base.{
  ℕ, suc, ◌≡◌, ◌≢◌, none, some, List, [], ◌∷◌, ◌++◌, arith, text_eq, refl, Option-cases, inl, inr,
  All,
}
use kuberecord.Base.Lists.{drop}
use kuberecord.Query.Replay.{
  ReplayRow, Progress, Patching, Result, ok, err, ◌>>=◌, base_row, replay_row, replay_rows,
}

pub first_full :
    (row : ReplayRow) (rows : List ReplayRow) (i : ℕ)
    → base_row rows ≡ none
    → base_row (row ∷ rows) ≡ some i
    → (i ≡ 0) × (row.state ≢ [])
unfolding base_row
first_full row rows i n h = ground arith

pub later_full :
    (row : ReplayRow) (rows : List ReplayRow) (i j : ℕ)
    → base_row rows ≡ some j
    → base_row (row ∷ rows) ≡ some i
    → i ≡ suc j
unfolding base_row
later_full row rows i j e h = ground arith

-- `BaseRow` finds the newest row that carries full state, and nothing exactly if no row does.
pub base_row_lem :
    (rows : List ReplayRow)
    → (base_row rows ≡ none → All (λ (row : ReplayRow). row.state ≡ []) rows)
      × ((i : ℕ)
          → base_row rows ≡ some i
          → (base : ReplayRow) × (rest : List ReplayRow) × (drop i rows ≡ base ∷ rest)
            × (base.state ≢ [])
            × All (λ (row : ReplayRow). row.state ≡ []) rest)
unfolding base_row
base_row_lem [] = (λ h. tt, λ i h. cc)
base_row_lem (row ∷ rows) =
    let (none_below, some_below) = base_row_lem rows in
    (
      λ h. ground (arith, none_below),
      λ i h. elim (Option-cases (base_row rows)) [
        | inl n ↦
            let (zeroth, full) = first_full row rows i n h in
            (row, rows, rw zeroth refl, full, none_below n)
        | inr (j, e) ↦
            let (base, rest, at, full, bare) = some_below j e in
            (base, rest, rw (later_full row rows i j e h) at, full, bare)
      ],
    )

module _ (lib : Patching) where
  -- the rest of a replay, once the first row has been read
  through :
      (first : Result Progress) (rows : List ReplayRow) (row : ReplayRow) (q : Progress)
      → (first >>= replay_rows lib rows) ≡ ok q
      → ((p : Progress)
          → replay_rows lib rows p ≡ ok q
          → replay_rows lib (rows ++ (row ∷ [])) p ≡ replay_row lib row q)
      → (first >>= replay_rows lib (rows ++ (row ∷ []))) ≡ replay_row lib row q
  through (ok p) rows row q h ih = ih p h
  through (err e) rows row q h ih = cc

  bind-ok : (m : Result Progress) → (m >>= ok) ≡ m
  bind-ok (ok p) = refl
  bind-ok (err e) = refl

  -- Replaying one row more is replaying up to it and then taking that row.
  pub replay_rows-append :
      (rows : List ReplayRow) (row : ReplayRow) (p q : Progress)
      → replay_rows lib rows p ≡ ok q
      → replay_rows lib (rows ++ (row ∷ [])) p ≡ replay_row lib row q
  unfolding replay_rows
  replay_rows-append [] row p q h =
      let same : p ≡ q = cc in rw same (bind-ok (replay_row lib row q))
  replay_rows-append (r ∷ rows) row p q h =
      through (replay_row lib r p) rows row q h (λ p'. replay_rows-append rows row p' q)

  after :
      (first : Result Progress) (rows more : List ReplayRow) (q r : Progress)
      → (first >>= replay_rows lib rows) ≡ ok q
      → ((p : Progress) → replay_rows lib rows p ≡ ok q → replay_rows lib (rows ++ more) p ≡ ok r)
      → (first >>= replay_rows lib (rows ++ more)) ≡ ok r
  after (ok p) rows more q r h ih = ih p h
  after (err e) rows more q r h ih = cc

  -- one replay after another
  pub replay_rows_trans :
      (rows more : List ReplayRow) (p q r : Progress)
      → replay_rows lib rows p ≡ ok q
      → replay_rows lib more q ≡ ok r
      → replay_rows lib (rows ++ more) p ≡ ok r
  unfolding replay_rows
  replay_rows_trans [] more p q r h k = let same : p ≡ q = cc in rw same k
  replay_rows_trans (row ∷ rows) more p q r h k =
      after (replay_row lib row p) rows more q r h
        (λ p' h'. replay_rows_trans rows more p' q r h' k)
