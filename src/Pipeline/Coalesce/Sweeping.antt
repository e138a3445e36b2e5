-- ===== src/Pipeline/Coalesce/Sweeping.antt =====
-- What a recorded row, a sweep, an expiry and a stopped scope do to later decisions.
use kuberecord.Base.{
  ℕ, ◌+◌, ◌≡◌, ◌≢◌, false, Option, none, some, arith, refl, text_eq, ◌==◌, [], ◌∷◌, ◌≤◌,
  if◌then◌else◌, ltb,
}
use kuberecord.Base.Map.{
  Map, lookup, insert, lookup-insert, lookup-erase, Distinct, insert-Distinct,
}
use kuberecord.Base.Int.{ℤ, pos, leb_ℤ, ◌≤ℤ◌}
use kuberecord.Base.Text.{Text, has_prefix}
use kuberecord.Pipeline.Coalesce.{
  Coalescer, CoalesceEntry, decide, sweep_locked, sweep_entries, elapsed, remember, forget,
  delete_prefix, delete_prefix_entries,
}

-- an entry that a sweep keeps
abbrev fresh : ℕ → ℤ → Option CoalesceEntry → Option CoalesceEntry
fresh now window none = none
fresh now window (some e) = if leb_ℤ window (elapsed now e) then none else some e

lookup-sweep_entries :
    (now : ℕ) (window : ℤ) (k : Text) (m : Map Text CoalesceEntry)
    → Distinct m
    → lookup k (sweep_entries now window m) ≡ fresh now window (lookup k m)
unfolding lookup sweep_entries
lookup-sweep_entries now window k [] d = refl
lookup-sweep_entries now window k ((j, e) ∷ m) d =
    ground (arith, lookup-sweep_entries now window k m)

sweep_entries-Distinct :
    (now : ℕ) (window : ℤ) (m : Map Text CoalesceEntry)
    → Distinct m
    → Distinct (sweep_entries now window m)
unfolding sweep_entries
sweep_entries-Distinct now window [] d = tt
sweep_entries-Distinct now window ((j, e) ∷ m) d =
    ground (arith, sweep_entries-Distinct now window m, lookup-sweep_entries now window j m)

-- A sweep changes no decision that is taken later under the same window, or under a shorter one.
pub decide-sweep_locked :
    (key hash : Text) (now later : ℕ) (window shorter : ℤ) (c : Coalescer)
    → Distinct c.entries
    → now ≤ later
    → shorter ≤ℤ window
    → decide key hash shorter later (sweep_locked now window c) ≡ decide key hash shorter later c
unfolding decide sweep_locked
decide-sweep_locked key hash now later window shorter c d le s =
    ground (arith, lookup-sweep_entries now window key c.entries)

lookup-delete_prefix_entries :
    (prefix k : Text) (m : Map Text CoalesceEntry)
    → lookup k (delete_prefix_entries prefix m).0
      ≡ (if has_prefix prefix k then none else lookup k m)
unfolding lookup delete_prefix_entries
lookup-delete_prefix_entries prefix k [] = ground arith
lookup-delete_prefix_entries prefix k ((j, e) ∷ m) =
    ground (arith, lookup-delete_prefix_entries prefix k m)

-- Once a row is recorded, a bump of that Event with the same projection is suppressed until the
-- window ends, whatever the sweep dropped; what was decided for other Events stays so.
pub decide-remember :
    (key other hash : Text) (at later window : ℕ) (c : Coalescer)
    → Distinct c.entries
    → at ≤ later
    → ((decide key hash (pos window) later (remember key hash at (pos window) c)).1
        ≡ ltb later (at + window))
      × (key ≢ other
          → decide other hash (pos window) later (remember key hash at (pos window) c)
            ≡ decide other hash (pos window) later c)
unfolding decide remember
decide-remember key other hash at later window c d le =
    let c' : Coalescer = record c {
      entries = insert key (record { hash = hash; at = at }) c.entries;
    } in
    let d' = insert-Distinct key (record { hash = hash; at = at }) c.entries d in
    (
      ground (
        arith,
        decide-sweep_locked key hash at later (pos window) (pos window) c' d',
        lookup-insert key key (record { hash = hash; at = at }) c.entries,
      ),
      λ ne. ground (
        arith,
        decide-sweep_locked other hash at later (pos window) (pos window) c' d',
        lookup-insert key other (record { hash = hash; at = at }) c.entries,
      ),
    )

-- An expired Event and a stopped scope leave nothing behind that could suppress a row, and change
-- no decision about other Events.
pub decide-delete_prefix :
    (prefix key hash : Text) (window : ℤ) (now : ℕ) (c : Coalescer)
    → (decide key hash window now (delete_prefix prefix c).0
        ≡ (if has_prefix prefix key then (pos 0, false) else decide key hash window now c))
      × (decide key hash window now (forget prefix c)
          ≡ (if prefix == key then (pos 0, false) else decide key hash window now c))
unfolding decide delete_prefix forget
decide-delete_prefix prefix key hash window now c = (
  ground (arith, lookup-delete_prefix_entries prefix key c.entries),
  ground (arith, lookup-erase prefix key c.entries),
)
