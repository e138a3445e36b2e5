-- ===== src/Pipeline/Redact/Absorption.antt =====
-- A policy erases what its paths name: what stood there has no influence on the result.
use kuberecord.Base.{
  ◌≡◌, ◌≢◌, Bool, true, false, some, List, [], ◌∷◌, arith, refl, sym, ◌∙◌, ap, text_eq, inl, inr,
  All, Elem,
}
use kuberecord.Base.Json.{Value, arr, obj, Items, nil, cons, Fields, end, field}
use kuberecord.Base.Text.{Text}
use kuberecord.Pipeline.Redact.{RedactionSegment, RedactionPath, apply_paths}
use kuberecord.Pipeline.Redact.Scrub.{each, under, modify, scrub, redact_value-Tracks}

abbrev Idempotent : (Value → Value) → Type 0
Idempotent f = (x : Value) → f (f x) ≡ f x

-- `f` after `g` does not see what `f` would have removed before.
abbrev Absorbs : (Value → Value) → (Value → Value) → Type 0
Absorbs f g = (x : Value) → f (g (f x)) ≡ f (g x)

each_idem : (f : Value → Value) → Idempotent f → (xs : Items) → each f (each f xs) ≡ each f xs
unfolding each
each_idem f idem nil = refl
each_idem f idem (cons x xs) = cc (idem x, each_idem f idem xs)

under_idem : (w : Bool) (f : Value → Value) → Idempotent f → Idempotent (under w f)
unfolding under
under_idem false f idem x = idem x
under_idem true f idem (arr xs) = ap arr (each_idem f idem xs)
under_idem true f idem x = refl

modify_idem :
    (name : Text) (f : Value → Value)
    → Idempotent f
    → (m : Fields) → modify name f (modify name f m) ≡ modify name f m
unfolding modify
modify_idem name f idem end = refl
modify_idem name f idem (field j v m) = ground (arith, idem v, modify_idem name f idem m)

scrub_idem : (ss : List RedactionSegment) → Idempotent (scrub ss)
unfolding scrub
scrub_idem [] x = refl
scrub_idem (s ∷ ss) (obj fields) = ap obj (
    modify_idem s.name (under s.wildcard (scrub ss))
      (under_idem s.wildcard (scrub ss) (scrub_idem ss)) fields)
scrub_idem (s ∷ ss) x = refl

each-absorb :
    (f g : Value → Value)
    → Absorbs f g
    → (xs : Items) → each f (each g (each f xs)) ≡ each f (each g xs)
unfolding each
each-absorb f g h nil = refl
each-absorb f g h (cons x xs) = cc (h x, each-absorb f g h xs)

modify-absorb :
    (a b : Text) (f g : Value → Value)
    → Idempotent f
    → Absorbs f g
    → (m : Fields) → modify a f (modify b g (modify a f m)) ≡ modify a f (modify b g m)
unfolding modify
modify-absorb a b f g idem h end = refl
modify-absorb a b f g idem h (field j v m) =
    ground (arith, idem v, h v, modify_idem a f idem m, modify-absorb a b f g idem h m)

-- A wildcard and a plain segment never both apply below one name.
wildcard-absorb : (ps qs : List RedactionSegment) → Absorbs (under true (scrub ps)) (scrub qs)
unfolding under scrub
wildcard-absorb ps [] (arr xs) = refl
wildcard-absorb ps [] x = refl
wildcard-absorb ps (q ∷ qs) (arr xs) = under_idem true (scrub ps) (scrub_idem ps) (arr xs)
wildcard-absorb ps (q ∷ qs) x = refl

plain-absorb : (ps qs : List RedactionSegment) → Absorbs (scrub ps) (under true (scrub qs))
unfolding under scrub
plain-absorb [] qs x = refl
plain-absorb (p ∷ ps) qs (obj fields) = scrub_idem (p ∷ ps) (obj fields)
plain-absorb (p ∷ ps) qs (arr xs) = refl
plain-absorb (p ∷ ps) qs _ = refl

-- the four ways in which two segments meet below one name
under-absorb :
    (w u : Bool) (ps qs : List RedactionSegment)
    → Absorbs (scrub ps) (scrub qs)
    → Absorbs (under w (scrub ps)) (under u (scrub qs))
unfolding under
under-absorb false false ps qs h x = h x
under-absorb true true ps qs h (arr xs) = ap arr (each-absorb (scrub ps) (scrub qs) h xs)
under-absorb true true ps qs h x = refl
under-absorb true false ps qs h x = wildcard-absorb ps qs x
under-absorb false true ps qs h x = plain-absorb ps qs x

pub scrub-absorb : (ps qs : List RedactionSegment) → Absorbs (scrub ps) (scrub qs)
unfolding scrub
scrub-absorb [] qs x = refl
scrub-absorb (p ∷ ps) [] x = refl
scrub-absorb (p ∷ ps) (q ∷ qs) (obj fields) = ap obj (
    modify-absorb p.name q.name (under p.wildcard (scrub ps)) (under q.wildcard (scrub qs))
      (under_idem p.wildcard (scrub ps) (scrub_idem ps))
      (under-absorb p.wildcard q.wildcard ps qs (scrub-absorb ps qs)) fields)
scrub-absorb (p ∷ ps) (q ∷ qs) _ = refl

-- the object that `Apply` carries along
scrub_all : List RedactionPath → Value → Value
scrub_all [] x = x
scrub_all (path ∷ paths) x = scrub_all paths (scrub path.segments x)

-- A path with a segment keeps an object an object.
abbrev pub IsBelowRoot : RedactionPath → Type 0
IsBelowRoot path = path.segments ≢ []

scrub-object :
    (ss : List RedactionSegment) (object : Fields)
    → ss ≢ []
    → (next : Fields) × (scrub ss (obj object) ≡ obj next)
unfolding scrub
scrub-object [] object n = absurd (n refl)
scrub-object (s ∷ ss) object n = (modify s.name (under s.wildcard (scrub ss)) object, refl)

apply_paths_step :
    (path : RedactionPath) (paths : List RedactionPath) (object next : Fields)
    → scrub path.segments (obj object) ≡ obj next
    → apply_paths (path ∷ paths) object ≡ apply_paths paths next
unfolding apply_paths
apply_paths_step path paths object next e =
    ground (arith, redact_value-Tracks path.segments (obj object))

apply_paths-scrub_all :
    (paths : List RedactionPath) (object : Fields)
    → All IsBelowRoot paths
    → (result : Fields) × (apply_paths paths object ≡ some result)
      × (obj result ≡ scrub_all paths (obj object))
unfolding scrub_all
apply_paths-scrub_all [] object rooted = (object, unfold apply_paths in refl, refl)
apply_paths-scrub_all (path ∷ paths) object rooted =
    let (next, e) = scrub-object path.segments object rooted.0 in
    let (result, p, q) = apply_paths-scrub_all paths next rooted.1 in
    (result, apply_paths_step path paths object next e ∙ p, q ∙ ap (scrub_all paths) (sym e))

scrub_all-blind :
    (path : RedactionPath) (paths : List RedactionPath) (x y : Value)
    → Elem path paths
    → scrub path.segments x ≡ scrub path.segments y
    → scrub_all paths x ≡ scrub_all paths y
unfolding scrub_all
scrub_all-blind path [] x y m e = absurd m
scrub_all-blind path (q ∷ paths) x y (inl h) e = rw h (ap (scrub_all paths) e)
scrub_all-blind path (q ∷ paths) x y (inr h) e =
    scrub_all-blind path paths (scrub q.segments x) (scrub q.segments y) h (
      cc (
        scrub-absorb path.segments q.segments x,
        scrub-absorb path.segments q.segments y,
        ap (λ (v : Value). scrub path.segments (scrub q.segments v)) e,
      ))

-- A policy with a path below the root takes two objects that differ only at what the path names to
-- one and the same object, and never panics.
pub apply_paths-blind :
    (path : RedactionPath) (paths : List RedactionPath) (a b : Fields)
    → All IsBelowRoot paths
    → Elem path paths
    → scrub path.segments (obj a) ≡ scrub path.segments (obj b)
    → (result : Fields) × (apply_paths paths a ≡ some result) × (apply_paths paths b ≡ some result)
apply_paths-blind path paths a b rooted m e =
    let (ra, pa, qa) = apply_paths-scrub_all paths a rooted in
    let (rb, pb, qb) = apply_paths-scrub_all paths b rooted in
    let same = scrub_all-blind path paths (obj a) (obj b) m e in
    let equal : ra ≡ rb = cc in (ra, pa, rw equal pb)
