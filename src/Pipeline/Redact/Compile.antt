-- ===== src/Pipeline/Redact/Compile.antt =====
-- What a compiled policy holds, and what it does to an object.
use kuberecord.Base.{
  ℕ, suc, zero, ◌≡◌, ◌≢◌, inl, inr, true, false, Option, none, some, List, [], ◌∷◌, ◌++◌, arith,
  refl, sym, ◌∙◌, text_eq, ◌==◌, length, contains, All, Elem, Bool-cases,
}
use kuberecord.Base.Tests.{eq_of_==}
use kuberecord.Base.Json.{obj, Fields}
use kuberecord.Base.Sorting.{sort_stable, sort_stable-All, sort_stable-Elem}
use kuberecord.Base.Text.{Text}
use kuberecord.Pipeline.Redact.{
  RedactionSegment, RedactionPath, RedactionPolicy, Quoting, Result, ok, err, ◌>>=◌, parse_segments,
  parse_segment, parse_segment_name, after_segment, continue_path, parse_subscript,
  parse_redaction_path, compile_all, compile_redaction, compare_paths, apply, builtin_paths,
}
use kuberecord.Pipeline.Redact.Scrub.{scrub}
use kuberecord.Pipeline.Redact.Absorption.{IsBelowRoot, apply_paths-blind}

-- a successful step, taken apart
bind-ok :
    {Got Next : Type 0} (step : Result Got) (rest : Got → Result Next) {end : Next}
    → (step >>= rest) ≡ ok end
    → (got : Got) × (step ≡ ok got) × (rest got ≡ ok end)
bind-ok (ok got) rest done = (got, refl, done)
bind-ok (err error) rest done = cc

module _ (lib : Quoting) where
  parse_segment-nonempty :
      (named : Text × Text) {segments : List RedactionSegment} {rest : Text}
      → parse_segment lib named ≡ ok (segments, rest)
      → segments ≢ []
  unfolding parse_segment parse_subscript
  parse_segment-nonempty (name, []) h = ground arith
  parse_segment-nonempty (name, c ∷ rest) h = ground arith

  append-nonempty : (xs ys : List RedactionSegment) → xs ≢ [] → xs ++ ys ≢ []
  append-nonempty [] ys n = absurd (n refl)
  append-nonempty (x ∷ xs) ys n = λ e. cc

  continue_path-nonempty :
      (parse : Text → Result (List RedactionSegment)) (segments : List RedactionSegment)
      (more : Option Text) {result : List RedactionSegment}
      → segments ≢ []
      → continue_path parse segments more ≡ ok result
      → result ≢ []
  unfolding continue_path
  continue_path-nonempty parse segments none n h = λ e. n (cc)
  continue_path-nonempty parse segments (some rest) n h =
      let (others, _, e) = bind-ok (parse rest) _ h in λ p. append-nonempty segments others n (cc)

  parse_segments-nonempty :
      (fuel : ℕ) (rest : Text) {result : List RedactionSegment}
      → parse_segments lib fuel rest ≡ ok result
      → result ≢ []
  unfolding parse_segments
  parse_segments-nonempty zero rest h = cc
  parse_segments-nonempty (suc fuel) rest h =
      let (named, _, h1) = bind-ok (parse_segment_name rest) _ h in
      let ((segments, remainder), e2, h2) = bind-ok (parse_segment lib named) _ h1 in
      let (more, _, h3) = bind-ok (after_segment remainder) _ h2 in
      continue_path-nonempty (parse_segments lib fuel) segments more
        (parse_segment-nonempty named e2) h3

  parse_redaction_path-IsBelowRoot :
      (raw : Text) {path : RedactionPath}
      → parse_redaction_path lib raw ≡ ok path
      → IsBelowRoot path
  unfolding parse_redaction_path
  parse_redaction_path-IsBelowRoot raw {path} h = elim (Bool-cases (raw == [])) [
    | inl e ↦ absurd (let wrong = (rw e at h) in cc)
    | inr e ↦
        let (segments, p, q) = bind-ok (parse_segments lib (length raw) raw) _ (rw e at h) in
        λ n. parse_segments-nonempty (length raw) raw p (ground arith)
  ]

  -- a path that was not seen before stands in front of the rest
  compile_all-fresh :
      (seen raws : List Text) (first : Text) {paths : List RedactionPath}
      → contains seen first ≡ false
      → compile_all lib seen (first ∷ raws) ≡ ok paths
      → (path : RedactionPath) × (rest : List RedactionPath) × (parse_redaction_path lib first
          ≡ ok path)
        × (compile_all lib (first ∷ seen) raws ≡ ok rest)
        × (paths ≡ path ∷ rest)
  unfolding compile_all
  compile_all-fresh seen raws first out h =
      let (path, e, h1) = bind-ok (parse_redaction_path lib first) _ (rw out at h) in
      let (rest, e', h2) = bind-ok (compile_all lib (first ∷ seen) raws) _ h1 in
      (path, rest, e, e', ground arith)

  compile_all-seen :
      (seen raws : List Text) (first : Text)
      → contains seen first ≡ true
      → compile_all lib seen (first ∷ raws) ≡ compile_all lib seen raws
  unfolding compile_all
  compile_all-seen seen raws first e = rw e

  compile_all-Elem :
      (seen raws : List Text) (raw : Text) {paths : List RedactionPath}
      → compile_all lib seen raws ≡ ok paths
      → contains seen raw ≡ false
      → contains raws raw ≡ true
      → (path : RedactionPath) × (parse_redaction_path lib raw ≡ ok path) × Elem path paths
  unfolding contains
  compile_all-Elem seen [] raw h out m = absurd (cc)
  compile_all-Elem seen (first ∷ raws) raw h out m = elim (Bool-cases (contains seen first)) [
    | inl old ↦
        compile_all-Elem seen raws raw (sym (compile_all-seen seen raws first old) ∙ h) out
          (ground arith)
    | inr new ↦
        let (path, rest, parsed, more, split) = compile_all-fresh seen raws first new h in
        elim (Bool-cases (first == raw)) [
          | inl same ↦ (path, ground (arith, eq_of_== first raw same), rw split (inl refl))
          | inr other ↦
              let (found, e, at) =
                compile_all-Elem (first ∷ seen) raws raw more (ground arith) (ground arith) in
              (found, e, rw split (inr at))
        ]
  ]

  compile_all-nil :
      (seen : List Text) {paths : List RedactionPath}
      → compile_all lib seen [] ≡ ok paths
      → paths ≡ []
  unfolding compile_all
  compile_all-nil seen h = ground arith

  compile_all-IsBelowRoot :
      (seen raws : List Text) {paths : List RedactionPath}
      → compile_all lib seen raws ≡ ok paths
      → All IsBelowRoot paths
  compile_all-IsBelowRoot seen [] h = rw (compile_all-nil seen h) tt
  compile_all-IsBelowRoot seen (first ∷ raws) h = elim (Bool-cases (contains seen first)) [
    | inl old ↦ compile_all-IsBelowRoot seen raws (sym (compile_all-seen seen raws first old) ∙ h)
    | inr new ↦
        let (path, rest, parsed, more, split) = compile_all-fresh seen raws first new h in
        rw split (
          parse_redaction_path-IsBelowRoot first parsed,
          compile_all-IsBelowRoot (first ∷ seen) raws more,
        )
  ]

  -- For a list of paths that compiles: each of them, and the built-in path, parses to a path such
  -- that two objects which differ only at what it names are redacted to one and the same object,
  -- and the redaction of neither panics.
  pub compile_redaction-blind :
      (builtin : RedactionPolicy) (raws : List Text) (raw : Text) (policy : RedactionPolicy)
      → compile_redaction lib raws ≡ ok policy
      → contains (raws ++ builtin_paths lib) raw ≡ true
      → (path : RedactionPath) × (parse_redaction_path lib raw ≡ ok path)
        × ((a b : Fields)
            → scrub path.segments (obj a) ≡ scrub path.segments (obj b)
            → (result : Fields) × (apply builtin (some policy) a ≡ some result)
              × (apply builtin (some policy) b ≡ some result))
  unfolding compile_redaction apply contains
  compile_redaction-blind builtin raws raw policy h m =
      let (compiled, e, h1) = bind-ok (compile_all lib [] (raws ++ builtin_paths lib)) _ h in
      let (path, parsed, at) = compile_all-Elem [] (raws ++ builtin_paths lib) raw e refl m in
      let listed : policy.paths ≡ sort_stable compare_paths compiled = ground arith in
      (
        path,
        parsed,
        λ a b same. rw listed (
            apply_paths-blind path (sort_stable compare_paths compiled) a b
              (sort_stable-All IsBelowRoot compare_paths compiled (compile_all-IsBelowRoot [] _ e))
              (sort_stable-Elem compare_paths path compiled at) same),
      )
