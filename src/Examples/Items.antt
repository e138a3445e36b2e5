-- ===== src/Examples/Items.antt =====
-- A ConfigMap that the sink was told of goes away, and a close-out waits for its retry.
use kuberecord.Base.{
  ℕ, ◌<◌, ◌≤◌, List, All, nat_eq, ◌+◌, ◌≡◌, ◌⊎◌, true, false, none, some, [], ◌∷◌, ◌++◌, arith,
  refl, text_eq, ◌==◌, if◌then◌else◌, contains, List-ℕ_discrete,
}
use native.Mathlib.Decide.{ℕ_discrete}
use kuberecord.Base.Json.{str, obj, Fields, end, field, get}
use kuberecord.Base.Int.{pos}
use kuberecord.Base.Map.{lookup}
use kuberecord.Base.Text.{Text, codes}
use kuberecord.Pipeline.HashCache.{CacheEntry, raw, claimed, in_flight, reserve_delete, claim_entry}
use kuberecord.Pipeline.Identity.{Key, cache_key, ScopeKey}
use kuberecord.Pipeline.Normalize.Actors.{IsActor, decode_actors-encode_actors}
use kuberecord.Pipeline.Change.{Coalescing, modified}
use kuberecord.Pipeline.Upsert.Runs.{Continues, modified-Continues}
use kuberecord.Pipeline.Normalize.{
  decode_actors, encode_actors, strip_volatile_fields, extract_actors,
}
use kuberecord.Pipeline.Normalize.Stripping.{Once}
use kuberecord.Pipeline.Process.{
  checkpoint_every_for, SinkState, Writer, Clock, requeue, after, count, event_coalesce_skip,
  enqueue_failed, deleted_row, emit_delete, pending_for, retry_pending_close_outs,
}
use kuberecord.Pipeline.Process.CloseOuts.{
  which, close_outs_of, refuses, retry_pending_close_outs-splits,
}
use kuberecord.Pipeline.Process.Deletions.{
  claim, handed_over, emit_delete_once, emit_delete_refused,
}
use kuberecord.Pipeline.Redact.{
  ok, Result, RedactionSegment, ◌>>=◌, builtin_paths, parse_redaction_path, parse_segments,
  continue_path, after_segment, parse_segment, parse_segment_name, cut_at, is_segment_name,
  all_in_name,
}
use kuberecord.Pipeline.Redact.Fuel.{Parses, parse_redaction_path-Parses}
use kuberecord.Pipeline.Redact.Scrub.{scrub, modify, under}
use kuberecord.Pipeline.Coalesce.{CoalesceEntry}
use kuberecord.Pipeline.Coalesce.Decisions.{Suppresses}
use kuberecord.Pipeline.Upsert.{process_upsert, write_modified}
use kuberecord.Pipeline.Upsert.Postponing.{writes, write_modified-postpones}
use kuberecord.Pipeline.Upsert.Blindness.{AgreeBeside, stripped, process_upsert-blind}
use kuberecord.Pipeline.WorkItem as WorkItem
use kuberecord.Pipeline.WorkItem.{empty_state, Sinks, evict_scope}
use kuberecord.Pipeline.WorkItem.Eviction.{Forgets, evict_scope_lem}
use kuberecord.Sink.Identity.{SinkId}
use kuberecord.Examples.Histories.{writer, clock, config, pipeline, of_document}
use kuberecord.Examples.Redactions.{
  quoting, secret, other_secret, field_data, secret_policy, compiled,
}

abbrev told : CacheEntry
told = record {
  hash = codes "h1";
  json = none;
  encoding = raw;
  uid = codes "u1";
  api_version = codes "v1";
  modified_since_checkpoint = 0;
  version = 4;
  pending_delete = false;
}

abbrev known : SinkState
known = record empty_state { cache = (cache_key config, told) ∷ [] }

abbrev full_writer : Writer
full_writer = record writer { takes = λ row. false }

told-claimed : (claim pipeline writer clock config [] known).outcome ≡ claimed
unfolding reserve_delete claim_entry lookup cache_key
told-claimed = ground arith

refused-claimed : (claim pipeline full_writer clock config [] known).outcome ≡ claimed
unfolding reserve_delete claim_entry lookup cache_key
refused-claimed = ground arith

emit_delete_once_example :
    (emit_delete pipeline writer clock config [] known
      ≡ (handed_over pipeline writer clock config [] known, claimed, none))
    × (emit_delete pipeline writer clock config
          (codes "u1")
          (handed_over pipeline writer clock config [] known)
        ≡ (handed_over pipeline writer clock config [] known, in_flight, none))
emit_delete_once_example =
    emit_delete_once pipeline writer clock config [] known clock (codes "u1") told-claimed refl

emit_delete_refused_example :
    (s' : SinkState) × (emit_delete pipeline full_writer clock config [] known
      ≡ (s', claimed, some enqueue_failed))
    × (s'.jobs ≡ known.jobs)
    × (lookup (cache_key config) s'.cache
        ≡ some (record (claim pipeline full_writer clock config [] known).entry {
          version = (claim pipeline full_writer clock config [] known).version;
          pending_delete = false;
        }))
emit_delete_refused_example =
    emit_delete_refused pipeline full_writer clock config [] known refused-claimed refl

-- the close-out of an object of that name
abbrev waiting : SinkState
waiting = record known {
  close_outs = (cache_key config, deleted_row pipeline clock config told ∷ []) ∷ [];
}

retry_pending_close_outs-splits_example :
    ((retry_pending_close_outs writer config waiting).jobs
      ≡ waiting.jobs
        ++ close_outs_of config (which writer.takes (pending_for (cache_key config) waiting)))
    × ((k : Text)
        → pending_for k (retry_pending_close_outs writer config waiting) ≡ (
            if cache_key config == k
            then which (refuses writer config) (pending_for (cache_key config) waiting)
            else pending_for k waiting))
retry_pending_close_outs-splits_example = retry_pending_close_outs-splits writer config waiting

parse_redaction_path-Parses_example :
    (out : Result (List RedactionSegment)) × Parses quoting (codes "spec.data") out
    × (parse_redaction_path quoting (codes "spec.data")
        ≡ (out >>= λ segments. ok (record { raw = codes "spec.data"; segments = segments })))
parse_redaction_path-Parses_example =
    parse_redaction_path-Parses quoting (codes "spec.data") (λ e. cc)

-- A pod with a generation and a name.
abbrev pod_metadata : Fields
pod_metadata =
    field (codes "generation") (str (codes "7")) (field (codes "name") (str (codes "web")) end)

abbrev pod : Fields
pod = field (codes "metadata") (obj pod_metadata) end

pod_metadata-Once : Once pod_metadata
unfolding get
pod_metadata-Once = (ground arith, (refl, tt))

pod-metadata : get (codes "metadata") pod ≡ some (obj pod_metadata)
unfolding get
pod-metadata = ground arith

secrets-AgreeBeside : AgreeBeside pipeline.encoding secret other_secret
unfolding extract_actors get
secrets-AgreeBeside = record {
  uids = refl;
  resource_versions = refl;
  versions = refl;
  labels = refl;
  annotated = refl;
  extracted = ground arith;
}

secrets-scrub :
    scrub field_data.segments (obj (stripped pipeline.encoding secret))
    ≡ scrub field_data.segments (obj (stripped pipeline.encoding other_secret))
unfolding scrub modify under strip_volatile_fields get ℕ_discrete List-ℕ_discrete
secrets-scrub = refl

listed : contains ((codes "data" ∷ []) ++ builtin_paths quoting) (codes "data") ≡ true
unfolding contains
listed = ground arith

parsed : parse_redaction_path quoting (codes "data") ≡ ok field_data
unfolding parse_redaction_path parse_segments continue_path after_segment parse_segment
    parse_segment_name cut_at is_segment_name all_in_name ℕ_discrete List-ℕ_discrete
parsed = refl

process_upsert-blind_example :
    process_upsert pipeline writer clock config (some (some secret_policy)) secret empty_state
    ≡ process_upsert pipeline writer clock config
        (some (some secret_policy))
        other_secret
        empty_state
process_upsert-blind_example =
    process_upsert-blind quoting (codes "data" ∷ []) (codes "data") field_data secret_policy
      pipeline writer clock config secret other_secret empty_state compiled listed parsed
      secrets-AgreeBeside secrets-scrub

abbrev two_actors : List Text
two_actors = codes "kubectl" ∷ codes "helm" ∷ []

two_actors-IsActor : All IsActor two_actors
unfolding contains
two_actors-IsActor = (((λ e. cc), ground arith), (((λ e. cc), ground arith), tt))

decode_actors-encode_actors_example : decode_actors (encode_actors two_actors) ≡ two_actors
decode_actors-encode_actors_example = decode_actors-encode_actors two_actors two_actors-IsActor

modified-Continues_example :
    Continues
      (checkpoint_every_for writer)
      (told.modified_since_checkpoint + 1)
      (codes "b")
      (modified pipeline writer false told (of_document (codes "b")))
modified-Continues_example = modified-Continues pipeline writer false told (of_document (codes "b"))

-- An Event that was recorded at instant 100, and bumps within its window.
abbrev event_key : Key
event_key = record config { kind = codes "Event" }

abbrev recorded : CoalesceEntry
recorded = record { hash = codes "c0"; at = 100 }

abbrev bumping : SinkState
bumping = record known {
  coalesce = record { entries = (cache_key event_key, recorded) ∷ []; sweep_at = 512 };
}

abbrev within_30 : Coalescing
within_30 = record { window = pos 30; hash = codes "c0" }

abbrev at_110 : Clock
at_110 = record clock { decided_at = 110 }

write_modified-postpones_example :
    (¬ (
        Suppresses
          (lookup (cache_key event_key) bumping.coalesce.entries)
          (codes "c0")
          (pos 30)
          110)
      → write_modified pipeline writer at_110 event_key
          (of_document (codes "b"))
          within_30
          told
          bumping
        ≡ writes pipeline writer event_key (of_document (codes "b")) within_30 told at_110 bumping)
    × ((last : CoalesceEntry)
        → lookup (cache_key event_key) bumping.coalesce.entries ≡ some last
        → Suppresses (some last) (codes "c0") (pos 30) 110
        → (flush : ℕ) × (write_modified pipeline writer at_110 event_key
              (of_document (codes "b"))
              within_30
              told
              bumping
            ≡ (requeue (after event_key (pos flush)) (count event_coalesce_skip bumping), none))
          × (0 < flush)
          × (110 + flush ≡ last.at + 30)
          × ((later : Clock) (t : SinkState)
              → lookup (cache_key event_key) t.coalesce.entries ≡ some last
              → 110 + flush ≤ later.decided_at
              → write_modified pipeline writer later event_key
                  (of_document (codes "b"))
                  within_30
                  told
                  t
                ≡ writes pipeline writer event_key
                    (of_document (codes "b"))
                    within_30
                    told
                    later
                    t))
write_modified-postpones_example =
    write_modified-postpones pipeline writer event_key (of_document (codes "b")) within_30 told
      at_110 bumping

-- The ConfigMap's scope stops on its sink; another sink has its own state.
abbrev config_scope : ScopeKey
config_scope = record { group = []; kind = codes "ConfigMap"; namespace = codes "shop" }

abbrev other_sink : SinkId
other_sink = record { kind = codes "ClickHouseSink"; name = codes "default" }

abbrev two_sinks : Sinks
two_sinks = (config.sink, record known { warm = config_scope ∷ [] }) ∷ (other_sink, known) ∷ []

evict_scope_example :
    Forgets config_scope
      (WorkItem.get config.sink two_sinks)
      (WorkItem.get config.sink (evict_scope config.sink config_scope two_sinks))
    × ((config.sink ≡ other_sink)
        ⊎ (WorkItem.get other_sink (evict_scope config.sink config_scope two_sinks)
            ≡ WorkItem.get other_sink two_sinks))
evict_scope_example = evict_scope_lem config.sink config_scope two_sinks other_sink
