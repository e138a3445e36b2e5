-- ===== src/Examples/Redactions.antt =====
-- A Secret whose data is redacted, and the path of an annotation.
use kuberecord.Base.{◌≡◌, false, some, [], ◌∷◌, arith, refl, contains, List-ℕ_discrete}
use native.Mathlib.Decide.{ℕ_discrete}
use kuberecord.Base.Sorting.{sort_stable, insert_stable}
use kuberecord.Base.Json.{str, obj, Fields, end, field}
use kuberecord.Base.Text.{Text, codes, has_prefix, compare_text}
use kuberecord.Pipeline.Redact.{
  RedactionPath, RedactionPolicy, Quoting, ok, compile_redaction, builtin_paths, apply, plain,
  parse_redaction_path, annotation_redaction_path, redact_value, compile_all, parse_segments,
  continue_path, after_segment, parse_segment, parse_subscript, parse_segment_name, cut_at,
  is_segment_name, all_in_name,
}
use kuberecord.Pipeline.Redact.Scrub.{scrub, redact_value-Tracks}
use kuberecord.Pipeline.Redact.Compile.{compile_redaction-blind}
use kuberecord.Pipeline.Redact.Annotations.{IsQuotable, parse-annotation_redaction_path}

-- Quoting that stands for one key.
abbrev pub quoting : Quoting
quoting = record { quote = λ key. codes "\"k\""; unquote = λ quoted. some (codes "team/owner") }

abbrev pub secret : Fields
secret = field (codes "kind") (str (codes "Secret")) (field (codes "data") (str (codes "x")) end)

abbrev pub other_secret : Fields
other_secret =
    field (codes "kind") (str (codes "Secret")) (field (codes "data") (str (codes "y")) end)

abbrev pub field_data : RedactionPath
field_data = record { raw = codes "data"; segments = plain (codes "data") ∷ [] }

abbrev owner_raw : Text
owner_raw = codes "metadata.annotations[\"k\"]"

abbrev owner_path : RedactionPath
owner_path = record {
  raw = owner_raw;
  segments =
      plain (codes "metadata") ∷ plain (codes "annotations") ∷ plain (codes "team/owner") ∷ [];
}

abbrev pub secret_policy : RedactionPolicy
secret_policy = record { paths = field_data ∷ owner_path ∷ [] }

quoting-IsQuotable : IsQuotable quoting (codes "team/owner")
quoting-IsQuotable = record {
  read_back = refl;
  opens = unfold has_prefix in ground arith;
  flat = unfold contains in ground arith;
}

parse-annotation_redaction_path_example :
    parse_redaction_path quoting (annotation_redaction_path quoting (codes "team/owner"))
    ≡ ok (record {
      raw = annotation_redaction_path quoting (codes "team/owner");
      segments =
          plain (codes "metadata") ∷ plain (codes "annotations") ∷ plain (codes "team/owner") ∷ [];
    })
parse-annotation_redaction_path_example =
    parse-annotation_redaction_path quoting (codes "team/owner") quoting-IsQuotable (λ e. cc)

pub compiled : compile_redaction quoting (codes "data" ∷ []) ≡ ok secret_policy
unfolding compile_redaction compile_all builtin_paths annotation_redaction_path parse_redaction_path
    parse_segments continue_path after_segment parse_segment parse_subscript parse_segment_name
    cut_at is_segment_name all_in_name contains has_prefix sort_stable insert_stable ℕ_discrete
    List-ℕ_discrete compare_text
compiled = refl

compile_redaction-blind_example :
    (path : RedactionPath) × (parse_redaction_path quoting (codes "data") ≡ ok path)
    × ((a b : Fields)
        → scrub path.segments (obj a) ≡ scrub path.segments (obj b)
        → (result : Fields) × (apply secret_policy (some secret_policy) a ≡ some result)
          × (apply secret_policy (some secret_policy) b ≡ some result))
compile_redaction-blind_example =
    compile_redaction-blind quoting secret_policy (codes "data" ∷ []) (codes "data") secret_policy
      compiled (unfold contains in ground arith)

redact_value-Tracks_example :
    ((redact_value field_data.segments (obj secret)).0 ≡ scrub field_data.segments (obj secret))
    × ((redact_value field_data.segments (obj secret)).1 ≡ false
        → scrub field_data.segments (obj secret) ≡ obj secret)
redact_value-Tracks_example = redact_value-Tracks field_data.segments (obj secret)
