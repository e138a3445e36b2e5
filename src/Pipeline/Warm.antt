-- ===== src/Pipeline/Warm.antt =====
-- internal/pipeline/warm.go: what a sink's history says of a scope, and the baselines and the targets
-- that a warm-up takes from it. The retries end with the context: an attempt is what the interfaces
-- answer to it, and a list of attempts that ends is a context that is done.
pub mod Incarnations
pub mod Grouping
pub mod Seeding
use kuberecord.Base.{
  ℕ, Bool, true, false, not, ◌&&◌, ◌||◌, Option, none, some, List, [], ◌∷◌, ◌++◌, map,
  List-ℕ_discrete, Eq, text_eq, nat_eq, ◌==◌, if◌then◌else◌, ltb, contains,
}
use Prim.Native.Nat.{Ordering}
use kuberecord.Base.Map.{Map, lookup, insert}
use kuberecord.Base.Text.{Text, codes, compare_text}
use kuberecord.Pipeline.HashCache.{CacheEntry, zero_entry, store_if_absent}
use kuberecord.Pipeline.Identity.{Key, ScopeKey, cache_key}
use kuberecord.Pipeline.Process.{SinkState, set_cache, record_cache_entries}
use kuberecord.Sink.Identity.{SinkId, id_eq}
use kuberecord.Sink.Record.{SinkRecord}

-- `sink.KnownState`
pub record KnownState : Type 0 where
  pub namespace : Text
  pub name : Text
  pub uid : Text
  pub sha256 : Text
  pub api_version : Text
  pub ts : ℕ

-- `scopeRef`
pub record ScopeRef : Type 0 where
  pub sink : SinkId
  pub scope : ScopeKey

-- `scopeRef.key`
unfoldable pub ref_key : ScopeRef → Text → Text → Key
ref_key ref namespace name = record {
  sink = ref.sink;
  group = ref.scope.group;
  kind = ref.scope.kind;
  namespace = namespace;
  name = name;
}

-- `gcTarget`
pub record GcTarget : Type 0 where
  pub namespace : Text
  pub name : Text
  pub uid : Text

unfoldable pub GcTarget_discrete : Discrete GcTarget
GcTarget_discrete = hlevel List-ℕ_discrete

instance abbrev pub target_eq : Eq GcTarget
target_eq = record { same = GcTarget_discrete }

-- `reincarnation`
pub record Reincarnation : Type 0 where
  pub namespace : Text
  pub name : Text
  pub uid : Text
  pub api_version : Text
  pub ts : ℕ

-- `reincarnation.closeOutRecord`
unfoldable pub close_out_record : Text → Key → Reincarnation → SinkRecord
close_out_record cluster_id key r = record {
  timestamp = r.ts;
  cluster_id = cluster_id;
  event_type = codes "Deleted";
  api_group = key.group;
  api_version = r.api_version;
  kind = key.kind;
  namespace = key.namespace;
  name = key.name;
  uid = r.uid;
  resource_version = [];
  labels = [];
  actors = [];
  state = [];
  diff = [];
  sha256 = [];
}

-- `identity`
pub record Identity : Type 0 where
  pub namespace : Text
  pub name : Text

unfoldable pub Identity_discrete : Discrete Identity
Identity_discrete = hlevel List-ℕ_discrete

instance abbrev pub identity_eq : Eq Identity
identity_eq = record { same = Identity_discrete }

abbrev pub identity_of : KnownState → Identity
identity_of state = record { namespace = state.namespace; name = state.name }

-- A group is its first row and the others.
abbrev pub Group : Type 0
Group = KnownState × List KnownState

abbrev pub extend : KnownState → Option Group → Group
extend state none = (state, [])
extend state (some (first, rest)) = (first, rest ++ (state ∷ []))

-- The loop of `groupByIdentity`: the map and the slice it points into are one map, in order.
unfoldable pub group_states : List KnownState → Map Identity Group → Map Identity Group
group_states [] groups = groups
group_states (state ∷ states) groups =
    group_states states
      (insert (identity_of state) (extend state (lookup (identity_of state) groups)) groups)

-- `groupByIdentity`
unfoldable pub group_by_identity : List KnownState → Map Identity Group
group_by_identity states = group_states states []

abbrev pub is_greater : Ordering → Bool
is_greater Ordering.gt = true
is_greater _ = false

-- The test of `splitIncarnations`.
unfoldable pub succeeds : KnownState → KnownState → Bool
succeeds state current =
    ltb current.ts state.ts
    || (state.ts == current.ts && is_greater (compare_text state.uid current.uid))

-- The first loop of `splitIncarnations`.
unfoldable pub newest : KnownState → List KnownState → KnownState
newest current [] = current
newest current (state ∷ states) = newest (if succeeds state current then state else current) states

-- The second loop of `splitIncarnations`.
unfoldable pub other_uids : Text → List KnownState → List KnownState
other_uids uid [] = []
other_uids uid (state ∷ states) =
    let rest = other_uids uid states in if not (state.uid == uid) then state ∷ rest else rest

-- `splitIncarnations`
unfoldable pub split_incarnations : Group → KnownState × List KnownState
split_incarnations (first, rest) =
    (newest first rest, other_uids (newest first rest).uid (first ∷ rest))

-- The baseline of an incarnation.
unfoldable pub baseline_of : KnownState → CacheEntry
baseline_of current = record zero_entry { hash = current.sha256; uid = current.uid }

abbrev pub target_of : KnownState → GcTarget
target_of state = record { namespace = state.namespace; name = state.name; uid = state.uid }

abbrev pub prior_of : KnownState → Reincarnation
prior_of prior = record {
  namespace = prior.namespace;
  name = prior.name;
  uid = prior.uid;
  api_version = prior.api_version;
  ts = prior.ts;
}

-- What `seedScope` returns.
pub record Seed : Type 0 where
  pub seeded : List GcTarget
  pub priors : List Reincarnation

-- A round of the loop of `seedScope`: the baseline is stored, unless there is a live entry.
unfoldable pub seed_entry : ScopeRef → KnownState → SinkState → SinkState
seed_entry ref current s =
    set_cache
      (store_if_absent (cache_key (ref_key ref current.namespace current.name))
        (baseline_of current) s.cache)
      s

unfoldable pub seed_groups : ScopeRef → Map Identity Group → SinkState → SinkState × Seed
seed_groups ref [] s = (s, record { seeded = []; priors = [] })
seed_groups ref ((id, group) ∷ groups) s =
    let split = split_incarnations group in
    let rest = seed_groups ref groups (seed_entry ref split.0 s) in
    (
      rest.0,
      record {
        seeded = target_of split.0 ∷ rest.1.seeded;
        priors = map prior_of split.1 ++ rest.1.priors;
      },
    )

-- `seedScope` on the states that were read.
unfoldable pub seed_states : ScopeRef → List KnownState → SinkState → SinkState × Seed
seed_states ref states s =
    let seed = seed_groups ref (group_by_identity states) s in (record_cache_entries seed.0, seed.1)

-- What the routers and the reader answer to one attempt; `none` is a failed read.
pub record Reading (A : Type 0) : Type 0 where
  pub has_reader : Bool
  pub is_live : Bool
  pub read : Option A

-- What `readerFor` returns: a reader, or one of its two errors.
pub data ReaderFor : Type 0 where
  ready no_state_reader sink_not_live : ReaderFor

-- `readerFor`
unfoldable pub reader_for : {A : Type 0} → Reading A → ReaderFor
reader_for reading =
    if reading.has_reader then ready else if reading.is_live then no_state_reader else sink_not_live

-- A sink's state, with the coordinator's `writerOnly`.
pub record Warming : Type 0 where
  pub state : SinkState
  pub writer_only : List SinkId

-- `announceWriterOnly` on `writerOnly`; whether it was announced decides only the log line.
unfoldable pub announce_writer_only : SinkId → List SinkId → List SinkId
announce_writer_only id writer_only =
    if contains writer_only id then writer_only else id ∷ writer_only

abbrev pub seed_read :
    ScopeRef → Warming × Option Seed → Option (List KnownState) → Warming → Warming × Option Seed
seed_read ref again none w = again
seed_read ref again (some states) w =
    let seed = seed_states ref states w.state in (record w { state = seed.0 }, some seed.1)

-- An attempt of `seedScope`; `again` is what the next ones give.
abbrev pub seed_attempt :
    ScopeRef
    → Warming × Option Seed
    → Reading (List KnownState)
    → ReaderFor
    → Warming
    → Warming × Option Seed
seed_attempt ref again reading ready w = seed_read ref again reading.read w
seed_attempt ref again reading no_state_reader w =
    (record w { writer_only = announce_writer_only ref.sink w.writer_only }, none)
seed_attempt ref again reading sink_not_live w = again

-- `seedScope`; `none` is its error.
unfoldable pub seed_scope :
    ScopeRef → List (Reading (List KnownState)) → Warming → Warming × Option Seed
seed_scope ref [] w = (w, none)
seed_scope ref (reading ∷ readings) w =
    seed_attempt ref (seed_scope ref readings w) reading (reader_for reading) w
