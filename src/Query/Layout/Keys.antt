-- ===== src/Query/Layout/Keys.antt =====
-- The keys that the writer makes stand under the root that the reader lists.
use kuberecord.Base.{
  ℕ, ◌/◌, ◌%◌, ◌≡◌, Bool, true, false, ◌&&◌, [], ◌∷◌, ◌++◌, arith, refl, sym, ◌∙◌, text_eq, nat_eq,
  ◌==◌, contains, List-ℕ_discrete,
}
use native.Mathlib.Decide.{ℕ_discrete}
use mathlib.Core.List.{append_assoc}
use kuberecord.Base.Tests.{==_self, eq_of_==}
use kuberecord.Base.Text.{Text, codes, has_prefix, has_prefix-past, has_prefix-split}
use kuberecord.Query.Layout.{
  Calendar, format_partition, object_suffix, trim, trim_left, kept_segments, join, join_segments,
  records_root, day_prefix, hour_prefix, object_key, hour,
}

-- What is documented of `Format`: dates tell days apart and clocks the hours of a day, without slashes.
pub record IsCalendar (cal : Calendar) : Type 0 where
  pub same_date : (h k : ℕ) → h / 24 ≡ k / 24 → cal.date h ≡ cal.date k
  pub dates : (h k : ℕ) → cal.date h ≡ cal.date k → h / 24 ≡ k / 24
  pub clocks : (h k : ℕ) → cal.clock h ≡ cal.clock k → h % 24 ≡ k % 24
  pub flat_date : (h : ℕ) → contains (cal.date h) b'/' ≡ false
  pub flat_clock : (h : ℕ) → contains (cal.clock h) b'/' ≡ false

-- The prefix and the cluster stand without slashes at their ends.
pub record IsPlain (prefix cluster_id : Text) : Type 0 where
  pub plain_prefix : trim prefix ≡ prefix
  pub plain_cluster : trim (codes "cluster_id=" ++ cluster_id) ≡ codes "cluster_id=" ++ cluster_id

-- What follows the root in a key.
abbrev pub tail : Calendar → ℕ → Text → Text
tail cal h content_hash =
    codes "date="
    ++ (cal.date h
        ++ (b'/' ∷ codes "hour=" ++ (cal.clock h ++ (b'/' ∷ content_hash ++ object_suffix))))

plain_format : trim format_partition ≡ format_partition
unfolding trim trim_left ℕ_discrete
plain_format = refl

pub object_key-tail :
    (cal : Calendar) (prefix cluster_id : Text) (ts : ℕ) (content_hash : Text)
    → IsPlain prefix cluster_id
    → object_key cal prefix cluster_id ts content_hash
      ≡ records_root prefix cluster_id ++ tail cal (ts / hour) content_hash
unfolding object_key records_root join_segments kept_segments join List-ℕ_discrete
object_key-tail cal [] cluster_id ts content_hash v =
    rw (plain_format, v.plain_cluster) (simp (append_assoc))
object_key-tail cal (c ∷ prefix) cluster_id ts content_hash v =
    rw (plain_format, v.plain_cluster, v.plain_prefix) (simp (append_assoc))

has_prefix-both : (a p s : Text) → has_prefix (a ++ p) (a ++ s) ≡ has_prefix p s
unfolding has_prefix
has_prefix-both [] p s = refl
has_prefix-both (c ∷ a) p s = ground (arith, has_prefix-both a p s)

same_bool : (a b : Bool) → (a ≡ true → b ≡ true) → (b ≡ true → a ≡ true) → a ≡ b
same_bool true b f g = sym (f refl)
same_bool false true f g = g refl
same_bool false false f g = refl

and_right : (a b : Bool) → (a && b) ≡ true → b ≡ true
and_right a b h = ground arith

both_true : {a b : Bool} → a ≡ true → b ≡ true → (a && b) ≡ true
both_true p q = ground arith

clock_hit :
    (clock s : Text)
    → has_prefix (codes "hour=" ++ (clock ++ (b'/' ∷ []))) (codes "hour=" ++ (clock ++ (b'/' ∷ s)))
      ≡ true
unfolding has_prefix
clock_hit clock s =
    has_prefix-both (codes "hour=") (clock ++ (b'/' ∷ [])) (clock ++ (b'/' ∷ s))
    ∙ has_prefix-past clock b'/' [] s

module _ (cal : Calendar) (c : IsCalendar cal) (h k : ℕ) where
  has_prefix-date :
      (p s : Text)
      → has_prefix (cal.date h ++ (b'/' ∷ p)) (cal.date k ++ (b'/' ∷ s))
        ≡ (h / 24 == k / 24 && has_prefix p s)
  has_prefix-date p s =
      same_bool _ _
        (λ m.
          let (same, rest) =
            has_prefix-split b'/' (cal.date h) (cal.date k) p s (c.flat_date h) (c.flat_date k) m in
          ground (arith, c.dates h k same, rest, ==_self (h / 24)))
        (λ m.
          let same : h / 24 ≡ k / 24 = ground arith in
          rw (c.same_date h k same) (has_prefix-past (cal.date k) b'/' p s ∙ ground arith))

  has_prefix-clock :
      (s : Text)
      → has_prefix (cal.clock h ++ (b'/' ∷ [])) (cal.clock k ++ (b'/' ∷ s)) ≡ true
      → h % 24 ≡ k % 24
  has_prefix-clock s m =
      c.clocks h k
        (has_prefix-split b'/' (cal.clock h) (cal.clock k) [] s (c.flat_clock h) (c.flat_clock k)
          m).0

  -- a day's prefix is one of the keys of the hours of the day
  pub has_prefix-day :
      (root content_hash : Text)
      → has_prefix (day_prefix cal root h) (root ++ tail cal k content_hash) ≡ (h / 24 == k / 24)
  unfolding has_prefix
  has_prefix-day root content_hash =
      has_prefix-both root _ _
      ∙ has_prefix-both (codes "date=") _ _
      ∙ has_prefix-date [] _
      ∙ ground arith

  -- an hour's prefix is one of the keys of the hour
  pub has_prefix-hour :
      (root content_hash : Text)
      → has_prefix (hour_prefix cal root h) (root ++ tail cal k content_hash) ≡ (h == k)
  has_prefix-hour root content_hash =
      has_prefix-both root _ _
      ∙ has_prefix-both (codes "date=") _ _
      ∙ has_prefix-date _ _
      ∙ same_bool _ _
          (λ m.
            let clock : h % 24 ≡ k % 24 = has_prefix-clock (content_hash ++ object_suffix) (
              sym (
                has_prefix-both (codes "hour=") (cal.clock h ++ (b'/' ∷ []))
                  (cal.clock k ++ (b'/' ∷ content_hash ++ object_suffix)))
              ∙ and_right (h / 24 == k / 24) _ m) in
            let day : h / 24 ≡ k / 24 = ground arith in
            let same : h ≡ k = omega (arith, clock, day) in rw same (==_self k))
          (λ m.
            let same : h ≡ k = eq_of_== h k m in
            rw same (
              both_true (==_self (k / 24))
                (clock_hit (cal.clock k) (content_hash ++ object_suffix))))
