-- ===== src/Pipeline/WorkItem/Eviction.antt =====
-- What the eviction of a scope leaves, and the independence of the sinks.
use kuberecord.Base.{
  ℕ, ◌≡◌, ◌⊎◌, inl, inr, Bool, true, false, none, some, List, [], ◌∷◌, arith, refl, ◌∙◌, text_eq,
  ◌==◌, if◌then◌else◌, contains, Option-cases, Bool-cases,
}
use kuberecord.Base.Int.{ℤ, pos}
use kuberecord.Base.Lists.{remove_all}
use kuberecord.Base.Map.{lookup, insert, lookup-insert}
use kuberecord.Base.Tests.{==_self, eq_of_==}
use kuberecord.Base.Text.{Text, has_prefix}
use kuberecord.Pipeline.Coalesce.{decide, empty}
use kuberecord.Pipeline.Coalesce.Sweeping.{decide-delete_prefix}
use kuberecord.Pipeline.HashCache.Laws.{delete_prefix_lem}
use kuberecord.Pipeline.Identity.{ScopeKey, scope_key_eq, scope_key_prefix}
use kuberecord.Pipeline.Process.{SinkState, record_cache_entries}
use kuberecord.Pipeline.WorkItem.{Sinks, empty_state, get, evict_state, evict_scope}
use kuberecord.Sink.Identity.{SinkId, id_eq}

contains-remove_all :
    (sc : ScopeKey) (scs : List ScopeKey) → contains (remove_all sc scs) sc ≡ false
unfolding contains remove_all
contains-remove_all sc [] = ground arith
contains-remove_all sc (x ∷ xs) = ground (arith, contains-remove_all sc xs)

-- The second state is the first without the scope: no row more, no entry and no recorded Event under
-- its prefix, all others as they were, and the scope not warm.
pub record Forgets (sc : ScopeKey) (s s' : SinkState) : Type 0 where
  pub rows : s'.jobs ≡ s.jobs
  pub entries :
      (k : Text)
      → lookup k s'.cache ≡ (if has_prefix (scope_key_prefix sc) k then none else lookup k s.cache)
  pub decisions :
      (k hash : Text) (window : ℤ) (now : ℕ)
      → decide k hash window now s'.coalesce ≡ (
          if has_prefix (scope_key_prefix sc) k
          then (pos 0, false)
          else decide k hash window now s.coalesce)
  pub cold : contains s'.warm sc ≡ false

evict_state-Forgets : (sc : ScopeKey) (s : SinkState) → Forgets sc s (evict_state sc s)
unfolding evict_state record_cache_entries
evict_state-Forgets sc s = record {
  rows = refl;
  entries = λ k. (delete_prefix_lem (scope_key_prefix sc) k s.cache).0;
  decisions = λ k hash window now.
      (decide-delete_prefix (scope_key_prefix sc) k hash window now s.coalesce).0;
  cold = contains-remove_all sc s.warm;
}

if_same : {A : Type 0} (b : Bool) (x : A) → x ≡ (if b then x else x)
if_same true x = refl
if_same false x = refl

decide-empty :
    (k hash : Text) (window : ℤ) (now : ℕ) → decide k hash window now empty ≡ (pos 0, false)
unfolding decide lookup
decide-empty k hash window now = ground arith

empty-Forgets : (sc : ScopeKey) → Forgets sc empty_state empty_state
unfolding lookup contains
empty-Forgets sc = record {
  rows = refl;
  entries = λ k. if_same _ none;
  decisions = λ k hash window now. rw (decide-empty k hash window now) (if_same _ (pos 0, false));
  cold = refl;
}

module _ (id : SinkId) (sc : ScopeKey) (sinks : Sinks) where
  evict_absent : lookup id sinks ≡ none → evict_scope id sc sinks ≡ sinks
  unfolding evict_scope
  evict_absent e = ground arith

  evict_held :
      (s : SinkState)
      → lookup id sinks ≡ some s
      → evict_scope id sc sinks ≡ insert id (evict_state sc s) sinks
  unfolding evict_scope
  evict_held s e = ground arith

  get_absent : lookup id sinks ≡ none → get id sinks ≡ empty_state
  unfolding get
  get_absent e = rw e refl

  get_held : (s : SinkState) → lookup id sinks ≡ some s → get id sinks ≡ s
  unfolding get
  get_held s e = rw e refl

  get-insert :
      (other : SinkId) (t : SinkState)
      → get other (insert id t sinks) ≡ (if id == other then t else get other sinks)
  unfolding get
  get-insert other t = ground (arith, lookup-insert id other t sinks)

  evict_scope-Forgets : Forgets sc (get id sinks) (get id (evict_scope id sc sinks))
  evict_scope-Forgets = elim (Option-cases (lookup id sinks)) [
    | inl n ↦ rw (evict_absent n) (rw (get_absent n) (empty-Forgets sc))
    | inr (s, e) ↦ rw (evict_held s e) (
        rw (get_held s e)
          (rw (get-insert id (evict_state sc s)) (rw (==_self id) (evict_state-Forgets sc s))))
  ]

  get_other :
      (other : SinkId)
      → (id == other) ≡ false
      → get other (evict_scope id sc sinks) ≡ get other sinks
  get_other other h = elim (Option-cases (lookup id sinks)) [
    | inl n ↦ rw (evict_absent n) refl
    | inr (s, e) ↦ rw (evict_held s e) (get-insert other (evict_state sc s) ∙ rw h refl)
  ]

  -- Evicting a scope of a sink writes nothing: no row is added, every entry and every recorded Event
  -- under the scope's prefix is gone, all others are as they were, the scope is no longer warm, and
  -- no other sink is touched.
  pub evict_scope_lem :
      (other : SinkId)
      → Forgets sc (get id sinks) (get id (evict_scope id sc sinks))
        × ((id ≡ other) ⊎ (get other (evict_scope id sc sinks) ≡ get other sinks))
  evict_scope_lem other = (
    evict_scope-Forgets,
    elim (Bool-cases (id == other)) [
      | inl y ↦ inl (eq_of_== id other y)
      | inr n ↦ inr (get_other other n)
    ],
  )
