-- ===== src/Query/Scope/Pairing.antt =====
-- What the paired intervals cover.
use kuberecord.Base.{
  ℕ, ◌<◌, ◌≤◌, ◌≡◌, Bool, true, false, ◌&&◌, ◌||◌, Option, none, some, List, [], ◌∷◌, ◌++◌, arith,
  refl, sym, ap, ◌∙◌, nat_eq, text_eq, if◌then◌else◌, length, ltb, leb, All, Bool-cases, inl, inr,
}
use mathlib.Core.List.{append-nil, append_assoc}
use kuberecord.Query.Scope.{
  ScopeChange, ScopeInterval, starts, stops, opened, close, close_at, pair_loop, pair_scope,
}

-- The same pairing with the open interval carried along.
unfoldable pub paired : Option ScopeInterval → List ScopeChange → List ScopeInterval
paired none [] = []
paired (some iv) [] = iv ∷ []
paired none (t ∷ ts) = paired (if starts t then some (opened t) else none) ts
paired (some iv) (t ∷ ts) =
    (if stops t then close t.ts iv ∷ [] else []) ++ paired (if stops t then none else some iv) ts

close_at-length :
    (stop : ℕ) (before : List ScopeInterval) (iv : ScopeInterval)
    → close_at (length before) stop (before ++ (iv ∷ [])) ≡ before ++ (close stop iv ∷ [])
unfolding close_at
close_at-length stop [] iv = refl
close_at-length stop (b ∷ before) iv = rw (close_at-length stop before iv)

-- the loop's result, for both of its states
abbrev LoopsTo : List ScopeChange → Type 0
LoopsTo ts =
    ((before : List ScopeInterval) → pair_loop before none ts ≡ before ++ paired none ts)
    × ((before : List ScopeInterval) (iv : ScopeInterval)
        → pair_loop (before ++ (iv ∷ [])) (some (length before)) ts ≡ before ++ paired (some iv) ts)

pair_loop-paired : (ts : List ScopeChange) → LoopsTo ts
unfolding pair_loop paired
pair_loop-paired [] = (λ before. sym (append-nil before), λ before iv. refl)
pair_loop-paired (t ∷ ts) =
    let (closed, opens) = pair_loop-paired ts in
    (
      λ before. ground (arith, closed before, opens before (opened t)),
      λ before iv. ground (
        arith,
        opens before iv,
        closed (before ++ (close t.ts iv ∷ [])),
        close_at-length t.ts before iv,
        append_assoc before (close t.ts iv ∷ []) (paired none ts),
      ),
    )

-- no entry stands before an earlier one
abbrev pub Ascending : List ScopeChange → Type 0
Ascending [] = Unit
Ascending (t ∷ ts) = All (λ (s : ScopeChange). t.ts ≤ s.ts) ts × Ascending ts

-- Whether an interval holds the instant: from its start on, until it stops.
unfoldable pub holds : ℕ → ScopeInterval → Bool
holds u iv = leb iv.from u && elim iv.to [ none ↦ true | some stop ↦ ltb u stop ]

unfoldable pub covers : ℕ → List ScopeInterval → Bool
covers u [] = false
covers u (iv ∷ ivs) = holds u iv || covers u ivs

-- What one entry says of the scope, given what was said before: anything but the two actions is
-- ignored.
unfoldable pub says : Bool → ScopeChange → Bool
says live t = if starts t then true else if stops t then false else live

-- What the entries up to an instant say.
unfoldable pub status : ℕ → Bool → List ScopeChange → Bool
unfolding says
status u live [] = live
status u live (t ∷ ts) = status u (if ltb u t.ts then live else says live t) ts

status_later :
    (u : ℕ) (live : Bool) (ts : List ScopeChange)
    → All (λ (s : ScopeChange). u < s.ts) ts
    → status u live ts ≡ live
unfolding status
status_later u live [] h = refl
status_later u live (t ∷ ts) h = ground (arith, status_later u live ts)

covers-append :
    (u : ℕ) (xs ys : List ScopeInterval) → covers u (xs ++ ys) ≡ covers u xs || covers u ys
unfolding covers
covers-append u [] ys = refl
covers-append u (x ∷ xs) ys = ground (arith, covers-append u xs ys)

later :
    (u : ℕ) (t : ScopeChange) (ts : List ScopeChange)
    → u < t.ts
    → All (λ (s : ScopeChange). t.ts ≤ s.ts) ts
    → All (λ (s : ScopeChange). u < s.ts) ts
later u t [] h a = tt
later u t (s ∷ ts) h a = (omega arith, later u t ts h a.1)

-- what the pairing covers, whether an interval is open or not
abbrev PairsCover : ℕ → List ScopeChange → Type 0
PairsCover u ts =
    (covers u (paired none ts) ≡ status u false ts)
    × ((iv : ScopeInterval)
        → iv.to ≡ none
        → All (λ (s : ScopeChange). iv.from ≤ s.ts) ts
        → covers u (paired (some iv) ts) ≡ leb iv.from u && status u true ts)

-- The three ways in which an entry is read; `f` is what the rest of the log makes of a status.
module _ (u v : ℕ) (f : Bool → Bool) (late : (live : Bool) → u < v → f live ≡ live) where
  read_start : leb v u && f true ≡ f (if ltb u v then false else true)
  read_start = elim (Bool-cases (ltb u v)) [
    | inl e ↦ rw e (ground (arith, e, late false))
    | inr e ↦ rw e (ground (arith, e))
  ]

  read_stop :
      (from : ℕ)
      → from ≤ v
      → (leb from u && ltb u v) || f false ≡ leb from u && f (if ltb u v then true else false)
  read_stop from h = elim (Bool-cases (ltb u v)) [
    | inl e ↦ rw e (ground (arith, e, late true, late false))
    | inr e ↦ rw e (ground (arith, e))
  ]

module _ (u : ℕ) (t : ScopeChange) (ts : List ScopeChange) (a : Ascending (t ∷ ts)) where
  -- before the entry, nothing that follows counts
  untouched : (live : Bool) → u < t.ts → status u live ts ≡ live
  untouched live h = status_later u live ts (later u t ts h a.0)

  starts-not-stops : starts t ≡ true → stops t ≡ false
  unfolding starts stops
  starts-not-stops h = rw h refl

  status-says :
      (live next : Bool)
      → says live t ≡ next
      → status u live (t ∷ ts) ≡ status u (if ltb u t.ts then live else next) ts
  unfolding status
  status-says live next h = rw h refl

  stays : (live : Bool) → status u live ts ≡ status u (if ltb u t.ts then live else live) ts
  stays live = elim (Bool-cases (ltb u t.ts)) [ inl e ↦ rw e refl | inr e ↦ rw e refl ]

  paired-none :
      (b : Bool)
      → starts t ≡ b
      → paired none (t ∷ ts) ≡ paired (if b then some (opened t) else none) ts
  unfolding paired
  paired-none b h = rw (← h) refl

  paired-some :
      (iv : ScopeInterval) (b : Bool)
      → stops t ≡ b
      → paired (some iv) (t ∷ ts)
        ≡ (if b then close t.ts iv ∷ [] else []) ++ paired (if b then none else some iv) ts
  unfolding paired
  paired-some iv b h = rw h refl

  covers-close :
      (iv : ScopeInterval) (ivs : List ScopeInterval)
      → covers u (close t.ts iv ∷ ivs) ≡ (leb iv.from u && ltb u t.ts) || covers u ivs
  unfolding covers holds
  covers-close iv ivs = refl

  covers-none : PairsCover u ts → covers u (paired none (t ∷ ts)) ≡ status u false (t ∷ ts)
  covers-none (closed, opens) = elim (Bool-cases (starts t)) [
    | inl yes_start ↦
        ap (covers u) (paired-none true yes_start)
        ∙ opens (opened t) refl a.0
        ∙ read_start u t.ts (λ live. status u live ts) untouched
        ∙ sym (status-says false true (unfold says in rw yes_start refl))
    | inr no_start ↦
        ap (covers u) (paired-none false no_start)
        ∙ closed
        ∙ stays false
        ∙ sym (status-says false false (unfold says in ground (arith, no_start)))
  ]

  covers-some :
      PairsCover u ts
      → (iv : ScopeInterval) → iv.to ≡ none
      → All (λ (s : ScopeChange). iv.from ≤ s.ts) (t ∷ ts)
      → covers u (paired (some iv) (t ∷ ts)) ≡ leb iv.from u && status u true (t ∷ ts)
  covers-some (closed, opens) iv n h = elim (Bool-cases (stops t)) [
    | inl yes_stop ↦
        ap (covers u) (paired-some iv true yes_stop)
        ∙ covers-close iv (paired none ts)
        ∙ ap (λ b. (leb iv.from u && ltb u t.ts) || b) closed
        ∙ read_stop u t.ts (λ live. status u live ts) untouched iv.from h.0
        ∙ ap (λ b. leb iv.from u && b)
            (sym
              (status-says true false (unfold says in ground (arith, yes_stop, starts-not-stops))))
    | inr no_stop ↦
        ap (covers u) (paired-some iv false no_stop)
        ∙ opens iv n h.1
        ∙ ap (λ b. leb iv.from u && b)
            (stays true ∙ sym (status-says true true (unfold says in ground (arith, no_stop))))
  ]

paired-covers : (u : ℕ) (ts : List ScopeChange) → Ascending ts → PairsCover u ts
unfolding paired covers status holds
paired-covers u [] a = (refl, λ iv n h. ground arith)
paired-covers u (t ∷ ts) a =
    let ih = paired-covers u ts a.1 in (covers-none u t ts a ih, covers-some u t ts a ih)

-- The intervals of a scope's log cover an instant exactly if the entries up to that instant leave
-- the scope started, for a log in ascending order of time.
pub pair_scope-covers :
    (u : ℕ) (ts : List ScopeChange) → Ascending ts → covers u (pair_scope ts) ≡ status u false ts
unfolding pair_scope
pair_scope-covers u ts a = rw (pair_loop-paired ts).0 (paired-covers u ts a).0
