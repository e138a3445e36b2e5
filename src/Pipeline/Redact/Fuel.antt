-- ===== src/Pipeline/Redact/Fuel.antt =====
-- The loop of the path parser takes a byte each round, so as many rounds as bytes are enough.
use kuberecord.Base.{
  ℕ, suc, zero, ◌≤◌, ◌<◌, ◌≡◌, ◌≢◌, ◌⊎◌, inl, inr, Bool, false, Option, none, some, List, [], ◌∷◌,
  nat_eq, ◌++◌, arith, refl, text_eq, ◌==◌, length, ◌||◌, Bool-cases,
}
use mathlib.Core.Path.{subst}
use kuberecord.Base.Text.{Text}
use kuberecord.Pipeline.Redact.{
  RedactionSegment, PathError, Quoting, Result, ok, err, parse_redaction_path, ◌>>=◌,
  parse_segments, parse_segment, parse_segment_name, after_segment, continue_path, parse_subscript,
  subscripted, cut_at, is_segment_name,
}

length-cut_at : (stop : ℕ → Bool) (s : Text) → length (cut_at stop s).1 ≤ length s
unfolding cut_at
length-cut_at stop [] = ground arith
length-cut_at stop (c ∷ s) = elim (Bool-cases (stop c)) [
  | inl y ↦ rw y (ground arith)
  | inr n ↦ rw n (ground (arith, length-cut_at stop s))
]

-- the outcome of a step, if it has one, satisfies `P`
abbrev Gives : {A : Type 0} → (A → Type 0) → Result A → Type 0
Gives P (ok a) = P a
Gives P (err e) = Unit {0}

Gives-mono :
    {A : Type 0} {P Q : A → Type 0} (r : Result A) → ((a : A) → P a → Q a) → Gives P r → Gives Q r
Gives-mono (ok a) f h = f a h
Gives-mono (err e) f h = tt

parse_segment_name-Gives :
    (rest : Text) → Gives (λ (n : Text × Text). length n.1 ≤ length rest) (parse_segment_name rest)
unfolding parse_segment_name
parse_segment_name-Gives rest =
    let stop = λ (c : ℕ). c == b'.' || c == b'[' in
    elim (Bool-cases (is_segment_name (cut_at stop rest).0)) [
      | inl y ↦ rw y (length-cut_at stop rest)
      | inr n ↦ rw n tt
    ]

rest_Gives :
    (bracket : ℕ) (rest : Text) (r : Result (List RedactionSegment))
    → Gives
        (λ (n : List RedactionSegment × Text). length n.1 ≤ length (bracket ∷ rest))
        (r >>= λ segments. ok (segments, rest))
rest_Gives bracket rest (ok segments) = ground arith
rest_Gives bracket rest (err e) = tt

subscripted-Gives :
    (lib : Quoting) (name : Text) (cut : Text × Text)
    → Gives
        (λ (n : List RedactionSegment × Text). length n.1 ≤ length cut.1)
        (subscripted lib name cut)
subscripted-Gives lib name (inside, []) = tt
subscripted-Gives lib name (inside, bracket ∷ rest) =
    rest_Gives bracket rest (parse_subscript lib name inside)

parse_segment-Gives :
    (lib : Quoting) (named : Text × Text)
    → Gives
        (λ (n : List RedactionSegment × Text). length n.1 ≤ length named.1)
        (parse_segment lib named)
unfolding parse_segment
parse_segment-Gives lib (name, []) = ground arith
parse_segment-Gives lib (name, c ∷ rest) = elim (Bool-cases (c == b'[')) [
  | inl y ↦ rw y (
      Gives-mono (subscripted lib name (cut_at (λ d. d == b']') rest))
        (λ n h. omega (arith, h, length-cut_at (λ d. d == b']') rest))
        (subscripted-Gives lib name (cut_at (λ d. d == b']') rest)))
  | inr n ↦ rw n (ground arith)
]

after_segment-Gives :
    (remainder : Text)
    → Gives
        (λ (more : Option Text).
          (rest : Text) → more ≡ some rest → (length rest < length remainder) × (rest ≢ []))
        (after_segment remainder)
unfolding after_segment
after_segment-Gives [] = λ rest e. absurd (ground arith)
after_segment-Gives (c ∷ []) = elim (Bool-cases (c == b'.')) [ inl y ↦ rw y tt | inr n ↦ rw n tt ]
after_segment-Gives (c ∷ d ∷ s) = elim (Bool-cases (c == b'.')) [
  | inl y ↦ rw y (λ rest e. ground arith)
  | inr n ↦ rw n tt
]

Result-cases :
    {A : Type 0} (r : Result A) → ((e : PathError) × (r ≡ err e)) ⊎ ((a : A) × (r ≡ ok a))
Result-cases (ok a) = inr (a, refl)
Result-cases (err e) = inl (e, refl)

-- The rounds of the loop without a bound, from what is left of the path to what the loop returns.
pub data Parses (lib : Quoting) : Text → Result (List RedactionSegment) → Type 0 where
  bad_name :
      (rest : Text) (e : PathError) → parse_segment_name rest ≡ err e → Parses lib rest (err e)
  bad_segment :
      (rest : Text) (e : PathError) (named : Text × Text)
      → parse_segment_name rest ≡ ok named
      → parse_segment lib named ≡ err e
      → Parses lib rest (err e)
  bad_end :
      (rest : Text) (e : PathError) (named : Text × Text) (r : List RedactionSegment × Text)
      → parse_segment_name rest ≡ ok named
      → parse_segment lib named ≡ ok r
      → after_segment r.1 ≡ err e
      → Parses lib rest (err e)
  last :
      (rest : Text) (named : Text × Text) (r : List RedactionSegment × Text)
      → parse_segment_name rest ≡ ok named
      → parse_segment lib named ≡ ok r
      → after_segment r.1 ≡ ok none
      → Parses lib rest (ok r.0)
  another :
      (rest more : Text) (named : Text × Text) (r : List RedactionSegment × Text)
      (out : Result (List RedactionSegment))
      → parse_segment_name rest ≡ ok named
      → parse_segment lib named ≡ ok r
      → after_segment r.1 ≡ ok (some more)
      → Parses lib more out
      → Parses lib rest (out >>= λ others. ok (r.0 ++ others))

module _ (lib : Quoting) (fuel : ℕ) (rest : Text) where
  ends_name :
      (e : PathError) → parse_segment_name rest ≡ err e → parse_segments lib (suc fuel) rest ≡ err e
  unfolding parse_segments
  ends_name e h = rw h refl

  ends_segment :
      (e : PathError) (named : Text × Text)
      → parse_segment_name rest ≡ ok named
      → parse_segment lib named ≡ err e
      → parse_segments lib (suc fuel) rest ≡ err e
  unfolding parse_segments
  ends_segment e named h k = rw h (rw k refl)

  goes_on :
      (named : Text × Text) (r : List RedactionSegment × Text) (m : Result (Option Text))
      → parse_segment_name rest ≡ ok named
      → parse_segment lib named ≡ ok r
      → after_segment r.1 ≡ m
      → parse_segments lib (suc fuel) rest
        ≡ (m >>= λ more. continue_path (parse_segments lib fuel) r.0 more)
  unfolding parse_segments
  goes_on named r m h k l = rw h (rw k (rw l refl))

is_path : (raw : Text) → raw ≢ [] → (raw == []) ≡ false
is_path raw n = ground (arith, n)

module _ (lib : Quoting) where
  round-shorter :
      (rest more : Text) (named : Text × Text) (r : List RedactionSegment × Text)
      → parse_segment_name rest ≡ ok named
      → parse_segment lib named ≡ ok r
      → after_segment r.1 ≡ ok (some more)
      → (length more < length rest) × (more ≢ [])
  round-shorter rest more named r h k l =
      let short = subst (Gives _) h (parse_segment_name-Gives rest) in
      let shorter = subst (Gives _) k (parse_segment-Gives lib named) in
      let (less, there) = subst (Gives _) l (after_segment-Gives r.1) more refl in
      (omega (arith, short, shorter, less), there)

  parse_segments-Parses :
      (fuel : ℕ) (rest : Text)
      → length rest ≤ fuel
      → rest ≢ []
      → Parses lib rest (parse_segments lib fuel rest)
  unfolding continue_path
  parse_segments-Parses fuel [] l n = absurd (n refl)
  parse_segments-Parses zero (c ∷ s) l n = absurd (ground arith)
  parse_segments-Parses (suc fuel) (c ∷ s) l n =
      let rest : Text = c ∷ s in
      elim (Result-cases (parse_segment_name rest)) [
        | inl (e, h) ↦ rw (ends_name lib fuel rest e h) (bad_name rest e h)
        | inr (named, h) ↦ elim (Result-cases (parse_segment lib named)) [
          | inl (e, k) ↦ rw (ends_segment lib fuel rest e named h k) (bad_segment rest e named h k)
          | inr (r, k) ↦ elim (Result-cases (after_segment r.1)) [
            | inl (e, m) ↦
                rw (goes_on lib fuel rest named r (err e) h k m) (bad_end rest e named r h k m)
            | inr (none, m) ↦
                rw (goes_on lib fuel rest named r (ok none) h k m) (last rest named r h k m)
            | inr (some more, m) ↦
                let (less, there) = round-shorter rest more named r h k m in
                rw (goes_on lib fuel rest named r (ok (some more)) h k m) (
                  another rest more named r _ h k m
                    (parse_segments-Parses fuel more (ground arith) there))
          ]
        ]
      ]

  -- The loop of the path parser, without a bound on its rounds, ends on every path that is not empty,
  -- and the parser returns what the loop returns.
  pub parse_redaction_path-Parses :
      (raw : Text)
      → raw ≢ []
      → (out : Result (List RedactionSegment)) × Parses lib raw out
        × (parse_redaction_path lib raw
            ≡ (out >>= λ segments. ok (record { raw = raw; segments = segments })))
  unfolding parse_redaction_path
  parse_redaction_path-Parses raw n = (
    parse_segments lib (length raw) raw,
    parse_segments-Parses (length raw) raw (omega arith) n,
    rw (is_path raw n) refl,
  )
