-- ===== src/Examples/Archives.antt =====
-- An archive with one object, and a window that its last record falls into.
use kuberecord.Base.{
  ℕ, ◌+◌, ◌*◌, ◌/◌, ◌%◌, ◌≡◌, false, [], ◌∷◌, arith, refl, ap, nat_eq, contains, text_eq,
}
use native.Mathlib.Decide.{ℕ_discrete}
use kuberecord.Base.Text.{codes}
use kuberecord.Query.Layout.{
  Calendar, hour, trim, trim_left, partition_spans, records_root, object_key,
}
use kuberecord.Query.Layout.Keys.{IsCalendar, IsPlain}
use kuberecord.Query.Layout.Tiling.{times_listed, partition_spans-finds}

-- Each day and each hour of a day is a letter of its own.
abbrev letters : Calendar
letters = record { date = λ h. (h / 24 + 100) ∷ []; clock = λ h. (h % 24 + 100) ∷ [] }

one_letter : (a b : ℕ) → (a + 100) ∷ [] ≡ (b + 100) ∷ [] → a ≡ b
one_letter a b e = ground arith

no_slash : (a : ℕ) → contains ((a + 100) ∷ []) b'/' ≡ false
unfolding contains
no_slash a = ground arith

letters-IsCalendar : IsCalendar letters
letters-IsCalendar = record {
  same_date = λ h k e. ap (λ (d : ℕ). (d + 100) ∷ []) e;
  dates = λ h k e. one_letter (h / 24) (k / 24) e;
  clocks = λ h k e. one_letter (h % 24) (k % 24) e;
  flat_date = λ h. no_slash (h / 24);
  flat_clock = λ h. no_slash (h % 24);
}

archive-IsPlain : IsPlain (codes "archive") (codes "c1")
unfolding trim trim_left ℕ_discrete
archive-IsPlain = record { plain_prefix = refl; plain_cluster = refl }

-- The object is of an hour past noon; the window is the next hour.
partition_spans-finds_example :
    times_listed
      (partition_spans letters
        (records_root (codes "archive") (codes "c1"))
        (14 * hour)
        (15 * hour)
        hour)
      (object_key letters (codes "archive") (codes "c1") (13 * hour + 5) (codes "h"))
    ≡ 1
partition_spans-finds_example =
    partition_spans-finds letters (codes "archive") (codes "c1") (codes "h") (13 * hour + 5)
      (14 * hour + 1) (14 * hour) (15 * hour) hour letters-IsCalendar archive-IsPlain (omega arith)
      (omega arith) (omega arith) (omega arith)
