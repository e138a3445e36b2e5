-- ===== src/Pipeline/Redact/Scrub.antt =====
-- What a path scrubs, described without the source's bookkeeping of changes and copies, and that
-- the code does exactly that.

use kuberecord.Base.{
  ◌≡◌, Bool, true, false, Option, none, some, List, [], ◌∷◌, arith, refl, ap, text_eq, ◌==◌,
  if◌then◌else◌,
}
use kuberecord.Base.Json.{Value, str, arr, obj, Items, nil, cons, Fields, end, field, get, put}
use kuberecord.Base.Text.{Text}
use kuberecord.Pipeline.Redact.{
  RedactionSegment, redaction_sentinel, redact_leaf, redact_items, redact_elements, replace_child,
  redact_child, redact_value,
}

unfoldable pub each : (Value → Value) → Items → Items
each h nil = nil
each h (cons item items) = cons (h item) (each h items)

-- the elements of an array under a wildcard, the value itself otherwise
unfoldable pub under : Bool → (Value → Value) → Value → Value
unfolding each
under true h (arr items) = arr (each h items)
under true h x = x
under false h x = h x

unfoldable pub modify : Text → (Value → Value) → Fields → Fields
modify name h end = end
modify name h (field other v rest) =
    if other == name then field other (h v) rest else field other v (modify name h rest)

unfoldable pub scrub : List RedactionSegment → Value → Value
scrub [] x = str redaction_sentinel
scrub (s ∷ ss) (obj fields) = obj (modify s.name (under s.wildcard (scrub ss)) fields)
scrub (s ∷ ss) x = x

-- A function of the source and what it does: it reports no change only where there is none.
abbrev pub Tracks : (Value → Value × Bool) → (Value → Value) → Type 0
Tracks f h = (x : Value) → ((f x).0 ≡ h x) × ((f x).1 ≡ false → h x ≡ x)

redact_leaf-Tracks : Tracks redact_leaf (λ x. str redaction_sentinel)
unfolding redact_leaf
redact_leaf-Tracks (str s) = ground arith
redact_leaf-Tracks _ = ground arith

module _ (f : Value → Value × Bool) (h : Value → Value) (t : Tracks f h) where
  redact_items-each :
      (items : Items)
      → ((redact_items f items).0 ≡ each h items)
        × ((redact_items f items).1 ≡ false → each h items ≡ items)
  unfolding redact_items each
  redact_items-each nil = (refl, λ _. refl)
  redact_items-each (cons x xs) = ground (arith, t x, redact_items-each xs)

  redact_elements-Tracks : Tracks (redact_elements f) (under true h)
  unfolding redact_elements under
  redact_elements-Tracks (arr items) = ground (arith, redact_items-each items)
  redact_elements-Tracks x = (refl, λ _. refl)

  put-modify :
      (name : Text) (v : Value) (fields : Fields)
      → get name fields ≡ some v
      → put name (h v) fields ≡ modify name h fields
  unfolding get put modify
  put-modify name v end e = cc
  put-modify name v (field j w rest) e = ground (arith, put-modify name v rest)

  modify_same :
      (name : Text) (v : Value) (fields : Fields)
      → get name fields ≡ some v
      → h v ≡ v
      → modify name h fields ≡ fields
  unfolding get modify
  modify_same name v end e p = refl
  modify_same name v (field j w rest) e p = ground (arith, modify_same name v rest)

  modify_absent :
      (name : Text) (fields : Fields) → get name fields ≡ none → modify name h fields ≡ fields
  unfolding get modify
  modify_absent name end e = refl
  modify_absent name (field j w rest) e = ground (arith, modify_absent name rest)

  replace_child-modify :
      (name : Text) (v : Value) (fields : Fields)
      → get name fields ≡ some v
      → ((replace_child name fields (f v)).0 ≡ obj (modify name h fields))
        × ((replace_child name fields (f v)).1 ≡ false → modify name h fields ≡ fields)
  unfolding replace_child
  replace_child-modify name v fields e =
      ground (arith, t v, put-modify name v fields e, modify_same name v fields e)

  under-Tracks : (w : Bool) → Tracks (λ x. if w then redact_elements f x else f x) (under w h)
  unfolding under
  under-Tracks true x = redact_elements-Tracks x
  under-Tracks false x = t x

module _ (s : RedactionSegment) (f : Value → Value × Bool) (h : Value → Value)
    (t : Tracks f h) where
  redact_child-modify :
      (fields : Fields) (o : Option Value)
      → get s.name fields ≡ o
      → ((redact_child s f fields o).0 ≡ obj (modify s.name (under s.wildcard h) fields))
        × ((redact_child s f fields o).1 ≡ false
            → obj (modify s.name (under s.wildcard h) fields) ≡ obj fields)
  unfolding redact_child
  redact_child-modify fields none e =
      let same =
        modify_absent _ (under s.wildcard h) (under-Tracks f h t s.wildcard) s.name fields e in
      ground arith
  redact_child-modify fields (some v) e =
      let r =
        replace_child-modify _ (under s.wildcard h) (under-Tracks f h t s.wildcard) s.name v fields
          e in
      (r.0, λ n. ap obj (r.1 n))

-- `redactValue` scrubs exactly what its path names, and reports a change wherever there is one.
pub redact_value-Tracks : (ss : List RedactionSegment) → Tracks (redact_value ss) (scrub ss)
unfolding redact_value scrub
redact_value-Tracks [] x = redact_leaf-Tracks x
redact_value-Tracks (s ∷ ss) (obj fields) =
    redact_child-modify s (redact_value ss) (scrub ss) (redact_value-Tracks ss) fields
      (get s.name fields) refl
redact_value-Tracks (s ∷ ss) _ = (refl, λ _. refl)
