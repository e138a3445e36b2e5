-- ===== src/Examples/Replays.antt =====
-- Three rows: a full state, a diff, and a deletion.
use kuberecord.Base.{◌≡◌, some, List, [], ◌∷◌, ◌++◌, arith}
use kuberecord.Base.Text.{Text, codes}
use kuberecord.Query.Replay.{ReplayRow, Progress, Patching, ok, replay_row, replay_rows, apply_diff}
use kuberecord.Query.Replay.Folding.{replay_rows-append}

abbrev created : ReplayRow
created = record {
  ts = 1;
  event_type = codes "Added";
  state = codes "a";
  diff = [];
  sha256 = codes "h1";
}

abbrev modified : ReplayRow
modified = record {
  ts = 2;
  event_type = codes "Modified";
  state = [];
  diff = codes "b";
  sha256 = codes "h2";
}

abbrev deleted : ReplayRow
deleted = record { ts = 3; event_type = codes "Deleted"; state = []; diff = []; sha256 = [] }

abbrev history : List ReplayRow
history = created ∷ modified ∷ []

-- A patch that appends its text.
abbrev appending : Patching
appending = record {
  Patch = Text;
  Object = Text;
  decode_patch = some;
  apply_patch = λ p s. some (s ++ p);
  unmarshal = some;
}

abbrev base_progress : Progress
base_progress = record { state = created.state; applied = 0; last = created }

abbrev patched : Progress
patched = record { state = codes "ab"; applied = 1; last = modified }

one-patched : replay_rows appending (modified ∷ []) base_progress ≡ ok patched
unfolding replay_rows replay_row apply_diff
one-patched = ground arith

replay_rows-append_example :
    replay_rows appending ((modified ∷ []) ++ (deleted ∷ [])) base_progress
    ≡ replay_row appending deleted patched
replay_rows-append_example =
    replay_rows-append appending (modified ∷ []) deleted base_progress patched one-patched
