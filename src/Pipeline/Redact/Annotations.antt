-- ===== src/Pipeline/Redact/Annotations.antt =====
-- The path of an annotation, printed and parsed.
use native.Mathlib.Decide.{ℕ_discrete}
use kuberecord.Base.{
  ℕ, suc, ◌≡◌, ◌≢◌, true, false, Option, some, List, [], ◌∷◌, ◌++◌, arith, refl, nat_eq, text_eq,
  ◌==◌, length, contains, ◌∙◌,
}
use kuberecord.Base.Text.{Text, codes, has_prefix}
use kuberecord.Pipeline.Redact.{
  RedactionSegment, Quoting, Result, ok, parse_segments, parse_segment, parse_segment_name,
  after_segment, parse_subscript, cut_at, parse_redaction_path, continue_path,
  annotation_redaction_path,
}

-- What `strconv.Quote` promises for a key that may name an annotation: `Unquote` reads it back, it
-- opens with a quote, and it holds no bracket.
pub record IsQuotable (lib : Quoting) (key : Text) : Type 0 where
  pub read_back : lib.unquote (lib.quote key) ≡ some key
  pub opens : has_prefix (b'"' ∷ []) (lib.quote key) ≡ true
  pub flat : contains (lib.quote key) b']' ≡ false

cut_at-append :
    (c : ℕ) (s rest : Text)
    → contains s c ≡ false
    → cut_at (λ d. d == c) (s ++ (c ∷ rest)) ≡ (s, c ∷ rest)
unfolding cut_at contains
cut_at-append c [] rest h = ground arith
cut_at-append c (d ∷ s) rest h = ground (arith, cut_at-append c s rest)

abbrev plain : Text → RedactionSegment
plain name = record { name = name; wildcard = false }

metadata_name :
    (s : Text)
    → parse_segment_name (codes "metadata" ++ (b'.' ∷ s)) ≡ ok (codes "metadata", b'.' ∷ s)
unfolding parse_segment_name ℕ_discrete
metadata_name s = refl

annotations_name :
    (s : Text)
    → parse_segment_name (codes "annotations" ++ (b'[' ∷ s)) ≡ ok (codes "annotations", b'[' ∷ s)
unfolding parse_segment_name ℕ_discrete
annotations_name s = refl

module _ (lib : Quoting) where
  metadata_segment :
      (rest : Text)
      → parse_segment lib (codes "metadata", b'.' ∷ rest)
        ≡ ok (plain (codes "metadata") ∷ [], b'.' ∷ rest)
  unfolding parse_segment ℕ_discrete
  metadata_segment rest = refl

  after_dot : (c : ℕ) (s : Text) → after_segment (b'.' ∷ c ∷ s) ≡ ok (some (c ∷ s))
  unfolding after_segment ℕ_discrete
  after_dot c s = refl

  -- one round of the loop
  parse_round :
      (fuel : ℕ) (rest remainder : Text) (named : Text × Text) (segments : List RedactionSegment)
      (more : Option Text)
      → parse_segment_name rest ≡ ok named
      → parse_segment lib named ≡ ok (segments, remainder)
      → after_segment remainder ≡ ok more
      → parse_segments lib (suc fuel) rest ≡ continue_path (parse_segments lib fuel) segments more
  unfolding parse_segments
  parse_round fuel rest remainder named segments more p q r = rw (p, q, r) refl

  continue_ok :
      (parse : Text → Result (List RedactionSegment)) (segments others : List RedactionSegment)
      (rest : Text)
      → parse rest ≡ ok others
      → continue_path parse segments (some rest) ≡ ok (segments ++ others)
  unfolding continue_path
  continue_ok parse segments others rest e = rw e refl

  parse_whole :
      (raw : Text) (segments : List RedactionSegment)
      → raw ≢ []
      → parse_segments lib (length raw) raw ≡ ok segments
      → parse_redaction_path lib raw ≡ ok (record { raw = raw; segments = segments })
  unfolding parse_redaction_path
  parse_whole raw segments n e = ground arith

module _ (lib : Quoting) (key : Text) (q : IsQuotable lib key) (named : key ≢ []) where
  subscript_of_key :
      (name : Text) → parse_subscript lib name (lib.quote key) ≡ ok (plain name ∷ plain key ∷ [])
  unfolding parse_subscript has_prefix
  subscript_of_key name = ground (arith, q.read_back, q.opens)

  segment_of_key :
      (name : Text)
      → parse_segment lib (name, b'[' ∷ lib.quote key ++ codes "]")
        ≡ ok (plain name ∷ plain key ∷ [], [])
  unfolding parse_segment ℕ_discrete
  segment_of_key name =
      rw (cut_at-append b']' (lib.quote key) [] q.flat) (rw (subscript_of_key name) refl)

  last_segments :
      (fuel : ℕ)
      → parse_segments lib (suc fuel) (codes "annotations[" ++ (lib.quote key ++ codes "]"))
        ≡ ok (plain (codes "annotations") ∷ plain key ∷ [])
  unfolding parse_segments after_segment
  last_segments fuel =
      rw (annotations_name (lib.quote key ++ codes "]"))
        (rw (segment_of_key (codes "annotations")) refl)

  all_segments :
      (fuel : ℕ)
      → parse_segments lib (suc (suc fuel)) (annotation_redaction_path lib key)
        ≡ ok (plain (codes "metadata") ∷ plain (codes "annotations") ∷ plain key ∷ [])
  unfolding annotation_redaction_path
  all_segments fuel =
      parse_round lib (suc fuel) _ _ _ _ _ (metadata_name _) (metadata_segment lib _)
        (after_dot lib _ _)
      ∙ continue_ok lib _ _ _ _ (last_segments fuel)

  -- The path of a non-empty annotation key parses to the annotations' map and that key, whatever
  -- dots and slashes it has.
  pub parse-annotation_redaction_path :
      parse_redaction_path lib (annotation_redaction_path lib key)
      ≡ ok (record {
        raw = annotation_redaction_path lib key;
        segments = plain (codes "metadata") ∷ plain (codes "annotations") ∷ plain key ∷ [];
      })
  unfolding annotation_redaction_path
  parse-annotation_redaction_path =
      parse_whole lib (annotation_redaction_path lib key) _ (λ e. cc) (all_segments _)
