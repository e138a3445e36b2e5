-- ===== src/Pipeline/Coalesce.antt =====
-- internal/pipeline/coalesce.go: which `count` bumps of an Event are worth a row. An instant is its
-- number of nanoseconds, a duration an integer; Go's saturation of a difference of more than 292
-- years is not modelled.
pub mod Decisions
pub mod Sweeping
pub mod Projection
use kuberecord.Base.{
  ℕ, ◌+◌, ◌*◌, ◌≡◌, Bool, true, false, not, ◌&&◌, ◌||◌, Option, none, some, List, [], ◌∷◌, arith,
  text_eq, ◌==◌, if◌then◌else◌, length, leb, ltb, contains,
}
use Prim.Native.Nat.{max}
use kuberecord.Base.Map.{Map, lookup, insert, erase}
use kuberecord.Base.Int.{ℤ, pos, sub_ℕ, ◌-ℤ◌, leb_ℤ}
use kuberecord.Base.Text.{Text, codes, has_prefix}

-- `coalesceEntry`
pub record CoalesceEntry : Type 0 where
  pub hash : Text
  pub at : ℕ

-- `coalescer`
pub record Coalescer : Type 0 where
  pub entries : Map Text CoalesceEntry
  pub sweep_at : ℕ

-- The zero value.
abbrev pub empty : Coalescer
empty = record { entries = []; sweep_at = 0 }

abbrev pub coalesce_sweep_floor : ℕ
coalesce_sweep_floor = 128

-- `now.Sub(entry.at)`
abbrev pub elapsed : ℕ → CoalesceEntry → ℤ
elapsed now entry = sub_ℕ now entry.at

-- `decide` once the row that was last recorded for the key is known.
unfoldable pub decide_on : Option CoalesceEntry → Text → ℤ → ℕ → ℤ × Bool
decide_on none hash window now = (pos 0, false)
decide_on (some last) hash window now =
    if not (last.hash == hash)
    then (pos 0, false)
    else if leb_ℤ window (elapsed now last)
    then (pos 0, false)
    else (window -ℤ elapsed now last, true)

-- `decide`
unfoldable pub decide : Text → Text → ℤ → ℕ → Coalescer → ℤ × Bool
unfolding decide_on
decide key hash window now c =
    if leb_ℤ window (pos 0)
    then (pos 0, false)
    else decide_on (lookup key c.entries) hash window now

-- The loop of `sweepLocked`.
unfoldable pub sweep_entries : ℕ → ℤ → Map Text CoalesceEntry → Map Text CoalesceEntry
sweep_entries now window [] = []
sweep_entries now window ((k, entry) ∷ m) =
    let rest = sweep_entries now window m in
    if leb_ℤ window (elapsed now entry) then rest else (k, entry) ∷ rest

abbrev pub next_sweep : Map Text CoalesceEntry → ℕ
next_sweep m = max (2 * length m) coalesce_sweep_floor

-- `sweepLocked`
unfoldable pub sweep_locked : ℕ → ℤ → Coalescer → Coalescer
sweep_locked now window c =
    let kept = sweep_entries now window c.entries in
    if ltb (length c.entries) c.sweep_at
    then c
    else record { entries = kept; sweep_at = next_sweep kept }

-- `remember`
unfoldable pub remember : Text → Text → ℕ → ℤ → Coalescer → Coalescer
remember key hash stamped_at window c =
    if leb_ℤ window (pos 0)
    then c
    else sweep_locked stamped_at window
        (record c { entries = insert key (record { hash = hash; at = stamped_at }) c.entries })

-- `forget`
unfoldable pub forget : Text → Coalescer → Coalescer
forget key c = record c { entries = erase key c.entries }

-- The loop of `deletePrefix`.
unfoldable pub delete_prefix_entries : Text → Map Text CoalesceEntry → Map Text CoalesceEntry × ℕ
delete_prefix_entries prefix [] = ([], 0)
delete_prefix_entries prefix ((k, entry) ∷ m) =
    let rest = delete_prefix_entries prefix m in
    if has_prefix prefix k then (rest.0, rest.1 + 1) else ((k, entry) ∷ rest.0, rest.1)

-- `deletePrefix`
unfoldable pub delete_prefix : Text → Coalescer → Coalescer × ℕ
delete_prefix prefix c =
    let (kept, removed) = delete_prefix_entries prefix c.entries in
    (
      if ltb 0 removed
          then record { entries = kept; sweep_at = next_sweep kept }
          else record c { entries = kept },
      removed,
    )

-- `eventBumpFields`
abbrev pub event_bump_fields : List Text
event_bump_fields =
    codes "count"
    ∷ codes "lastTimestamp"
    ∷ codes "eventTime"
    ∷ codes "series"
    ∷ codes "deprecatedCount"
    ∷ codes "deprecatedLastTimestamp"
    ∷ []

-- The loop of `eventCoalesceHash`: the object without the fields that a bump rewrites.
unfoldable pub project {ℓ} : {V : Type ℓ} → Map Text V → Map Text V
project [] = []
project ((field, value) ∷ m) =
    let rest = project m in if contains event_bump_fields field then rest else (field, value) ∷ rest

-- `eventCoalesceHash`, over `json.Marshal` followed by the hexadecimal SHA-256, whose values are
-- of type `H`; `none` is an error of the former.
unfoldable pub event_coalesce_hash {ℓ κ} :
    {V : Type ℓ} {H : Type κ} → (Map Text V → Option H) → Map Text V → Option H
unfolding project
event_coalesce_hash digest normalized = digest (project normalized)
