-- ===== src/Query/Replay.antt =====
-- internal/query/replay.go: rebuilding an object from its recorded rows. The patch library and
-- `json.Unmarshal` are parameters; an instant is a number.
pub mod Folding
pub mod Bases
use kuberecord.Base.{
  ℕ, zero, suc, ◌+◌, ◌≡◌, Bool, true, false, not, Option, none, some, List, [], ◌∷◌, arith, text_eq,
  ◌==◌, if◌then◌else◌,
}
use kuberecord.Base.Lists.{drop}
use kuberecord.Base.Text.{Text}

-- `ReplayRow`, with the fields `data` and `diff` of the source.
pub record ReplayRow : Type 0 where
  pub ts : ℕ
  pub event_type : Text
  pub state : Text
  pub diff : Text
  pub sha256 : Text

-- `Reconstruction`
pub record Reconstruction (Object : Type 0) : Type 0 where
  pub object : Object
  pub base_ts : ℕ
  pub base_event : Text
  pub patches_applied : ℕ
  pub sha256 : Text

-- The errors of `Replay`, each with the instant that it names; an index out of range panics.
pub data ReplayError : Type 0 where
  decoding_patch applying_patch decoding_state : ℕ → ReplayError
  out_of_range : ReplayError

pub data Result {ℓ} (A : Type ℓ) : Type ℓ where
  ok : A → Result A
  err : ReplayError → Result A

infixl 5 ◌>>=◌
abbrev pub ◌>>=◌ {ℓ κ} :
    {Got : Type ℓ} {Next : Type κ} → Result Got → (Got → Result Next) → Result Next
ok got >>= next = next got
err error >>= next = err error

abbrev pub or_error {ℓ} : {A : Type ℓ} → ReplayError → Option A → Result A
or_error e none = err e
or_error e (some a) = ok a

-- `BaseRow`, the index counted from the start; `none` where the source has -1.
unfoldable pub base_row : List ReplayRow → Option ℕ
base_row [] = none
base_row (row ∷ rows) = elim (base_row rows) [
  | some i ↦ some (suc i)
  | none ↦ if row.state == [] then none else some 0
]

-- What `Replay` carries from row to row.
pub record Progress : Type 0 where
  pub state : Text
  pub applied : ℕ
  pub last : ReplayRow

-- What the replay uses of github.com/evanphx/json-patch and of `json.Unmarshal`.
pub record Patching : Type 1 where
  pub Patch : Type 0
  pub Object : Type 0
  pub decode_patch : Text → Option Patch
  pub apply_patch : Patch → Text → Option Text
  pub unmarshal : Text → Option Object

module _ (lib : Patching) where
  open lib use {Object, decode_patch, apply_patch, unmarshal}

  -- The patch of one row, applied.
  unfoldable pub apply_diff : ReplayRow → Text → Result Text
  apply_diff row state = do
    patch ← or_error (decoding_patch row.ts) (decode_patch row.diff)
    or_error (applying_patch row.ts) (apply_patch patch state)

  -- The body of the loop of `Replay`.
  unfoldable pub replay_row : ReplayRow → Progress → Result Progress
  unfolding apply_diff
  replay_row row p =
      if not (row.state == [])
      then ok (record p { state = row.state; last = row })
      else if not (row.diff == [])
      then (do
        next ← apply_diff row p.state
        ok (record { state = next; applied = p.applied + 1; last = row }))
      else ok (record p { last = row })

  unfoldable pub replay_rows : List ReplayRow → Progress → Result Progress
  replay_rows [] p = ok p
  replay_rows (row ∷ rows) p = do p' ← replay_row row p; replay_rows rows p'

  -- What `Replay` makes of the last row's state.
  unfoldable pub finish : ReplayRow → Progress → Result (Reconstruction Object)
  finish base p = do
    object ← or_error (decoding_state p.last.ts) (unmarshal p.state)
    ok (record {
      object = object;
      base_ts = base.ts;
      base_event = base.event_type;
      patches_applied = p.applied;
      sha256 = p.last.sha256;
    })

  -- `Replay` from a base row on.
  unfoldable pub replay_from : List ReplayRow → Result (Reconstruction Object)
  unfolding replay_rows finish
  replay_from [] = err out_of_range
  replay_from (base ∷ rows) = do
    p ← replay_rows rows (record { state = base.state; applied = 0; last = base })
    finish base p

  -- `Replay`
  unfoldable pub replay : List ReplayRow → ℕ → Result (Reconstruction Object)
  unfolding replay_from
  replay history base = replay_from (drop base history)
