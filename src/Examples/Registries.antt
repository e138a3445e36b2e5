-- ===== src/Examples/Registries.antt =====
-- Two rules that ask for the same kind in one namespace.
use kuberecord.Base.{◌≡◌, true, false, ◌==◌, Option, none, some, [], ◌∷◌, refl, text_eq, contains}
use kuberecord.Base.Map.{lookup}
use kuberecord.Base.Text.{Text, codes}
use kuberecord.Plan.Registry
use kuberecord.Plan.Registry.{
  WatchTarget, TargetKey, TargetState, watch_target_eq, target_key_eq, key, held_by, upsert, remove,
  snapshot,
}
use kuberecord.Plan.Registry.Ledger.{Axis, count_in, tally}
use kuberecord.Plan.Registry.Installed.{
  IsValid, malformed, wants, upsert-IsValid, upsert_all_or_nothing,
}
use kuberecord.Plan.Registry.Sets.{ledger}
use kuberecord.Plan.Registry.Views.{Shows, asked, snapshot-Shows}

abbrev pods : WatchTarget
pods = record {
  sink = record { kind = codes "S3Sink"; name = codes "archive" };
  gvk = record { group = []; version = codes "v1"; kind = codes "Pod" };
  namespace = codes "shop";
  selector = codes "app=web";
  redaction = codes "none";
  event_filter = [];
}

-- A parser that takes every selector as it is.
abbrev parse : Text → Option Text
parse = some

abbrev team : Text
team = codes "team/pods"

abbrev audit : Text
audit = codes "audit/pods"

new-IsValid : IsValid Registry.new
unfolding count_in tally ledger lookup
new-IsValid = record {
  distinct = tt;
  unique = tt;
  tracks = record { exact = λ a k x. refl; live = λ k e h. cc };
}

abbrev one_rule : Registry.Registry
one_rule = (upsert parse team (pods ∷ []) Registry.new).0

one_rule-IsValid : IsValid one_rule
one_rule-IsValid = (upsert-IsValid parse team (pods ∷ []) Registry.new new-IsValid).0

upsert-IsValid_example :
    IsValid (upsert parse audit (pods ∷ []) one_rule).0 × IsValid (remove audit one_rule)
upsert-IsValid_example = upsert-IsValid parse audit (pods ∷ []) one_rule one_rule-IsValid

upsert_all_or_nothing_example :
    ((upsert parse audit (pods ∷ []) one_rule).1 ≡ malformed parse (pods ∷ []))
    × (malformed parse (pods ∷ []) ≡ true → (upsert parse audit (pods ∷ []) one_rule).0 ≡ one_rule)
    × (malformed parse (pods ∷ []) ≡ false
        → (contains (held_by (lookup audit (upsert parse audit (pods ∷ []) one_rule).0.rules)) pods
            ≡ wants parse (pods ∷ []) pods)
          × ((audit == team) ≡ false
              → lookup team (upsert parse audit (pods ∷ []) one_rule).0.rules
                ≡ lookup team one_rule.rules))
upsert_all_or_nothing_example = upsert_all_or_nothing parse audit team (pods ∷ []) pods one_rule

snapshot-Shows_example :
    (lookup (key pods) (snapshot one_rule) ≡ none
      → (a : Axis) (x : Text) → asked a (key pods) x (ledger one_rule.rules) ≡ false)
    × ((st : TargetState)
        → lookup (key pods) (snapshot one_rule) ≡ some st
        → Shows (key pods) (ledger one_rule.rules) st)
snapshot-Shows_example = snapshot-Shows one_rule (key pods) one_rule-IsValid
