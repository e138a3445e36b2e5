-- ===== src/Plan/Registry/Installed.antt =====
-- The registry's invariant: `Upsert` and `Remove` keep the merged targets in step with the rules.
use kuberecord.Base.{
  ◌+◌, ◌≡◌, ◌++◌, Bool, true, false, ◌||◌, Option, none, some, List, [], ◌∷◌, arith, refl, text_eq,
  ◌==◌, if◌then◌else◌, All, contains, Option-cases, inl, inr, ◌∙◌, ==_self,
}
use kuberecord.Base.Map.{
  Map, lookup, insert, erase, Distinct, erase_absent, insert-Distinct, erase-Distinct,
  lookup-insert, lookup-erase,
}
use kuberecord.Base.Text.{Text}
use kuberecord.Plan.Registry.{
  Registry, WatchTarget, TargetKey, TargetEntry, watch_target_eq, target_key_eq, drop_ref,
  add_missing, drop_missing, drop_all, add_target, held_by, install, remove, upsert,
  canonical_targets, is_empty, canonicalize_selector_string,
}
use kuberecord.Plan.Registry.Ledger.{Axis, tally, Tracks}
use kuberecord.Plan.Registry.Sets.{
  Unique, pairs, ledger, missing, missing-nil, tally-append, share-missing, add_missing-Tracks,
  drop_missing-Tracks,
}

-- Each rule stands once, with a set of targets, and the merged targets count exactly what the
-- rules ask for.
pub record IsValid (r : Registry) : Type 0 where
  pub distinct : Distinct r.rules
  pub unique : All (λ (e : Text × List WatchTarget). Unique e.1) r.rules
  pub tracks : Tracks r.targets (ledger r.rules)

module _ (a : Axis) (k : TargetKey) (x : Text) (rule : Text) where
  tally-ledger-erase :
      (m : Map Text (List WatchTarget))
      → Distinct m
      → tally a k x (ledger m)
        ≡ tally a k x (pairs rule (held_by (lookup rule m))) + tally a k x (ledger (erase rule m))
  unfolding ledger lookup erase tally
  tally-ledger-erase [] d = refl
  tally-ledger-erase ((j, ts) ∷ m) d = ground (
    arith,
    tally-ledger-erase m d.1,
    erase_absent rule m,
    tally-append a k x (pairs j ts) (ledger m),
    tally-append a k x (pairs j ts) (ledger (erase rule m)),
  )

  tally-ledger-insert :
      (ts : List WatchTarget) (m : Map Text (List WatchTarget))
      → Distinct m
      → tally a k x (ledger (insert rule ts m))
        ≡ tally a k x (pairs rule ts) + tally a k x (ledger (erase rule m))
  unfolding ledger lookup erase insert tally
  tally-ledger-insert ts [] d = tally-append a k x (pairs rule ts) []
  tally-ledger-insert ts ((j, us) ∷ m) d = ground (
    arith,
    tally-ledger-insert ts m d.1,
    erase_absent rule m,
    tally-append a k x (pairs rule ts) (ledger m),
    tally-append a k x (pairs j us) (ledger (insert rule ts m)),
    tally-append a k x (pairs j us) (ledger (erase rule m)),
  )

pub held-Unique :
    (rule : Text) (m : Map Text (List WatchTarget))
    → All (λ (e : Text × List WatchTarget). Unique e.1) m
    → Unique (held_by (lookup rule m))
unfolding lookup
held-Unique rule [] u = tt
held-Unique rule ((j, ts) ∷ m) u = ground (arith, held-Unique rule m)

All-insert :
    (rule : Text) (ts : List WatchTarget) (m : Map Text (List WatchTarget))
    → Unique ts
    → All (λ (e : Text × List WatchTarget). Unique e.1) m
    → All (λ (e : Text × List WatchTarget). Unique e.1) (insert rule ts m)
unfolding insert
All-insert rule ts [] v u = (v, tt)
All-insert rule ts ((j, us) ∷ m) v u = ground (arith, All-insert rule ts m)

All-erase :
    (rule : Text) (m : Map Text (List WatchTarget))
    → All (λ (e : Text × List WatchTarget). Unique e.1) m
    → All (λ (e : Text × List WatchTarget). Unique e.1) (erase rule m)
unfolding erase
All-erase rule [] u = tt
All-erase rule ((j, us) ∷ m) u = ground (arith, All-erase rule m)

-- The rules after `install`.
abbrev pub installed :
    Text → List WatchTarget → Map Text (List WatchTarget) → Map Text (List WatchTarget)
installed rule desired m = if is_empty desired then erase rule m else insert rule desired m

tally-installed :
    (a : Axis) (k : TargetKey) (x rule : Text) (desired : List WatchTarget)
    (m : Map Text (List WatchTarget))
    → Distinct m
    → tally a k x (ledger (installed rule desired m))
      ≡ tally a k x (pairs rule desired) + tally a k x (ledger (erase rule m))
unfolding pairs tally
tally-installed a k x rule [] m d = omega arith
tally-installed a k x rule (t ∷ ts) m d = tally-ledger-insert a k x rule (t ∷ ts) m d

pub install-IsValid :
    (rule : Text) (desired : List WatchTarget) (r : Registry)
    → Unique desired
    → IsValid r
    → IsValid (install rule desired r)
unfolding install
install-IsValid rule desired r u v =
    let current = held_by (lookup rule r.rules) in
    let held = held-Unique rule r.rules v.unique in
    let l1 = pairs rule (missing desired current) ++ ledger r.rules in
    record {
      distinct = ground (
        arith,
        insert-Distinct rule desired r.rules v.distinct,
        erase-Distinct rule r.rules v.distinct,
      );
      unique =
          ground
            (arith, All-insert rule desired r.rules u v.unique, All-erase rule r.rules v.unique);
      tracks =
          drop_missing-Tracks rule current desired (add_missing rule desired current r.targets) l1
            (ledger (installed rule desired r.rules))
            (λ a k x. omega (
              arith,
              tally-append a k x (pairs rule (missing desired current)) (ledger r.rules),
              tally-ledger-erase a k x rule r.rules v.distinct,
              tally-installed a k x rule desired r.rules v.distinct,
              share-missing rule a k x desired current u held,
            ))
            (add_missing-Tracks rule desired current r.targets (ledger r.rules) l1
              (λ a k x. tally-append a k x (pairs rule (missing desired current)) (ledger r.rules))
              v.tracks);
    }

drop_all-missing :
    (rule : Text) (ts : List WatchTarget) (m : Map TargetKey TargetEntry)
    → drop_all rule ts m ≡ drop_missing rule ts [] m
unfolding drop_all drop_missing contains
drop_all-missing rule [] m = refl
drop_all-missing rule (t ∷ ts) m = drop_all-missing rule ts (drop_ref rule t m)

remove-IsValid : (rule : Text) (r : Registry) → IsValid r → IsValid (remove rule r)
unfolding remove
remove-IsValid rule r v = elim (Option-cases (lookup rule r.rules)) [
  | inl n ↦ rw (n, remove) v
  | inr (current, found) ↦
      rw (found, remove)
        (record {
          distinct = erase-Distinct rule r.rules v.distinct;
          unique = All-erase rule r.rules v.unique;
          tracks = rw drop_all-missing (
              drop_missing-Tracks rule current [] r.targets (ledger r.rules)
                (ledger (erase rule r.rules))
                (λ a k x.
                  rw missing-nil (tally-ledger-erase a k x rule r.rules v.distinct ∙ rw found refl))
                v.tracks);
        })
]

add_target-Unique : (t : WatchTarget) (ts : List WatchTarget) → Unique ts → Unique (add_target t ts)
unfolding add_target
add_target-Unique t ts u = ground arith

contains-add_target :
    (t u : WatchTarget) (ts : List WatchTarget)
    → contains (add_target t ts) u ≡ (t == u) || contains ts u
unfolding add_target contains
contains-add_target t u ts = ground arith

module _ (parse_selector : Text → Option Text) where
  pub canonical_targets-Unique :
      (ts desired : List WatchTarget) {result : List WatchTarget}
      → Unique desired
      → canonical_targets parse_selector ts desired ≡ some result
      → Unique result
  unfolding canonical_targets
  canonical_targets-Unique [] desired u h = ground arith
  canonical_targets-Unique (t ∷ ts) desired u h =
      elim (Option-cases (canonicalize_selector_string parse_selector t.selector)) [
        | inl bad ↦ absurd (ground arith)
        | inr (sel, good) ↦
            canonical_targets-Unique ts (add_target (record t { selector = sel }) desired)
              (add_target-Unique (record t { selector = sel }) desired u) (ground (arith, h))
      ]

  -- Every `Upsert`, malformed or not, and every `Remove` keeps the registry valid: after it the
  -- merged counts are those of the rules' contributions, on every axis and for every target.
  pub upsert-IsValid :
      (rule : Text) (targets : List WatchTarget) (r : Registry)
      → IsValid r
      → IsValid (upsert parse_selector rule targets r).0 × IsValid (remove rule r)
  unfolding upsert
  upsert-IsValid rule targets r v = (
    elim (Option-cases (canonical_targets parse_selector targets [])) [
      | inl bad ↦ rw (bad, upsert) v
      | inr (desired, good) ↦
          rw (good, upsert)
            (install-IsValid rule desired r (canonical_targets-Unique targets [] tt good) v)
    ],
    remove-IsValid rule r v,
  )

  -- Whether some target of a rule carries a selector that does not parse.
  unfoldable pub malformed : List WatchTarget → Bool
  malformed [] = false
  malformed (t ∷ ts) = elim (canonicalize_selector_string parse_selector t.selector) [
    | none ↦ true
    | some _ ↦ malformed ts
  ]

  canonical_targets-malformed :
      (ts desired : List WatchTarget)
      → malformed ts
        ≡ elim (canonical_targets parse_selector ts desired) [ none ↦ true | some _ ↦ false ]
  unfolding canonical_targets malformed
  canonical_targets-malformed [] desired = refl
  canonical_targets-malformed (t ∷ ts) desired =
      elim (Option-cases (canonicalize_selector_string parse_selector t.selector)) [
        | inl bad ↦ ground arith
        | inr (sel, good) ↦ ground (
          arith,
          canonical_targets-malformed ts (add_target (record t { selector = sel }) desired),
        )
      ]

  -- Whether a target is among the given ones once their selectors are canonical.
  unfoldable pub wants : List WatchTarget → WatchTarget → Bool
  wants [] u = false
  wants (t ∷ ts) u =
      elim (canonicalize_selector_string parse_selector t.selector) [
        | none ↦ false
        | some sel ↦ record t { selector = sel } == u
      ]
      || wants ts u

  pub contains-canonical_targets :
      (ts desired result : List WatchTarget) (u : WatchTarget)
      → canonical_targets parse_selector ts desired ≡ some result
      → contains result u ≡ contains desired u || wants ts u
  unfolding canonical_targets wants contains
  contains-canonical_targets [] desired result u h = ground arith
  contains-canonical_targets (t ∷ ts) desired result u h =
      elim (Option-cases (canonicalize_selector_string parse_selector t.selector)) [
        | inl bad ↦ absurd (ground arith)
        | inr (sel, good) ↦
            let ih =
              contains-canonical_targets ts (add_target (record t { selector = sel }) desired)
                result u in
            ground (arith, good, ih, contains-add_target (record t { selector = sel }) u desired)
      ]

  contains-held :
      (rule : Text) (u : WatchTarget) (desired : List WatchTarget) (m : Map Text (List WatchTarget))
      → contains (held_by (lookup rule (installed rule desired m))) u ≡ contains desired u
  unfolding contains
  contains-held rule u [] m = ground (arith, lookup-erase rule rule m, ==_self rule)
  contains-held rule u (t ∷ ts) m = ground (arith, lookup-insert rule rule (t ∷ ts) m, ==_self rule)

  -- `Upsert` is all or nothing: it fails exactly if some selector does not parse, and then the
  -- registry is as it was. Otherwise the rule holds exactly the targets of the call, with their
  -- selectors in canonical form, and no other rule's set changes.
  pub upsert_all_or_nothing :
      (rule other : Text) (targets : List WatchTarget) (u : WatchTarget) (r : Registry)
      → ((upsert parse_selector rule targets r).1 ≡ malformed targets)
        × (malformed targets ≡ true → (upsert parse_selector rule targets r).0 ≡ r)
        × (malformed targets ≡ false
            → (contains (held_by (lookup rule (upsert parse_selector rule targets r).0.rules)) u
                ≡ wants targets u)
              × ((rule == other) ≡ false
                  → lookup other (upsert parse_selector rule targets r).0.rules
                    ≡ lookup other r.rules))
  unfolding upsert install contains
  upsert_all_or_nothing rule other targets u r =
      elim (Option-cases (canonical_targets parse_selector targets [])) [
        | inl bad ↦ ground (arith, canonical_targets-malformed targets [])
        | inr (desired, good) ↦ ground (
          arith,
          canonical_targets-malformed targets [],
          contains-canonical_targets targets [] desired u good,
          contains-held rule u desired r.rules,
          lookup-insert rule other desired r.rules,
          lookup-erase rule other r.rules,
        )
      ]
