-- ===== src/Base/Text.antt =====
-- Go's strings as lists of bytes.
use Prim.Native.Nat.{ℕ, compare, Ordering}
use Prim.Native.Char.{code}
use Prim.Native.String.{String}
use mathlib.Core.Path.{◌≡◌, refl}
use mathlib.Core.Bool.{Bool, true, false, ◌&&◌}
use mathlib.Core.List.{List, [], ◌∷◌, ◌++◌}
use native.Mathlib.Omega.{arith}
use kuberecord.Base.Tests.{nat_eq, ◌==◌}
use kuberecord.Base.Lists.{contains}

abbrev pub Text : Type 0
Text = List ℕ

-- The bytes of a literal, which is ASCII wherever the source has one.
abbrev pub codes : String → Text
codes String.[] = []
codes (String.◌∷◌ c s) = code c ∷ codes s

-- `strings.HasPrefix(s, prefix)`, the prefix first.
unfoldable pub has_prefix : Text → Text → Bool
has_prefix [] s = true
has_prefix (c ∷ p) [] = false
has_prefix (c ∷ p) (d ∷ s) = c == d && has_prefix p s

pub has_prefix-append : (p s : Text) → has_prefix p (p ++ s) ≡ true
unfolding has_prefix
has_prefix-append [] s = refl
has_prefix-append (c ∷ p) s = ground (arith, has_prefix-append p s)

pub has_prefix-past :
    (a : Text) (c : ℕ) (p s : Text) → has_prefix (a ++ (c ∷ p)) (a ++ (c ∷ s)) ≡ has_prefix p s
unfolding has_prefix
has_prefix-past [] c p s = ground arith
has_prefix-past (d ∷ a) c p s = ground (arith, has_prefix-past a c p s)

-- Text that ends at the first separator is read back in one way.
pub split_unique :
    (c : ℕ) (a b p s : Text)
    → contains a c ≡ false
    → contains b c ≡ false
    → a ++ (c ∷ p) ≡ b ++ (c ∷ s)
    → (a ≡ b) × (p ≡ s)
unfolding contains
split_unique c [] [] p s ha hb h = ground arith
split_unique c [] (y ∷ b) p s ha hb h = absurd (ground arith)
split_unique c (x ∷ a) [] p s ha hb h = absurd (ground arith)
split_unique c (x ∷ a) (y ∷ b) p s ha hb h = ground (arith, split_unique c a b p s)

-- A prefix that reaches past the separator fixes what stands before it.
pub has_prefix-split :
    (c : ℕ) (a b p s : Text)
    → contains a c ≡ false
    → contains b c ≡ false
    → has_prefix (a ++ (c ∷ p)) (b ++ (c ∷ s)) ≡ true
    → (a ≡ b) × (has_prefix p s ≡ true)
unfolding contains has_prefix
has_prefix-split c [] [] p s ha hb h = ground arith
has_prefix-split c [] (y ∷ b) p s ha hb h = absurd (ground arith)
has_prefix-split c (x ∷ a) [] p s ha hb h = absurd (ground arith)
has_prefix-split c (x ∷ a) (y ∷ b) p s ha hb h = ground (arith, has_prefix-split c a b p s)

-- `cmp.Or` of two comparisons: the first that is not zero.
abbrev pub cmp_or : Ordering → Ordering → Ordering
cmp_or Ordering.eq o = o
cmp_or o _ = o

abbrev pub flip : Ordering → Ordering
flip Ordering.lt = Ordering.gt
flip Ordering.eq = Ordering.eq
flip Ordering.gt = Ordering.lt

-- `cmp.Compare` of two strings: bytewise.
unfoldable pub compare_text : Text → Text → Ordering
compare_text [] [] = Ordering.eq
compare_text [] (d ∷ t) = Ordering.lt
compare_text (c ∷ s) [] = Ordering.gt
compare_text (c ∷ s) (d ∷ t) = cmp_or (compare c d) (compare_text s t)

pub compare_text-eq : (s t : Text) → compare_text s t ≡ Ordering.eq → s ≡ t
unfolding compare_text
compare_text-eq [] [] h = refl
compare_text-eq [] (d ∷ t) h = cc
compare_text-eq (c ∷ s) [] h = cc
compare_text-eq (c ∷ s) (d ∷ t) h = ground (arith, compare_text-eq s t)

pub compare_text_self : (s : Text) → compare_text s s ≡ Ordering.eq
unfolding compare_text
compare_text_self [] = refl
compare_text_self (c ∷ s) = ground (arith, compare_text_self s)

pub compare_text-flip : (s t : Text) → compare_text t s ≡ flip (compare_text s t)
unfolding compare_text
compare_text-flip [] [] = refl
compare_text-flip [] (d ∷ t) = refl
compare_text-flip (c ∷ s) [] = refl
compare_text-flip (c ∷ s) (d ∷ t) = ground (arith, compare_text-flip s t)

pub compare_text_trans :
    (s t u : Text)
    → compare_text s t ≡ Ordering.lt
    → compare_text t u ≡ Ordering.lt
    → compare_text s u ≡ Ordering.lt
unfolding compare_text
compare_text_trans [] [] [] h k = cc
compare_text_trans [] (d ∷ t) [] h k = cc
compare_text_trans [] [] (e ∷ u) h k = refl
compare_text_trans [] (d ∷ t) (e ∷ u) h k = refl
compare_text_trans (c ∷ s) [] u h k = cc
compare_text_trans (c ∷ s) (d ∷ t) [] h k = cc
compare_text_trans (c ∷ s) (d ∷ t) (e ∷ u) h k = ground (arith, compare_text_trans s t u)
