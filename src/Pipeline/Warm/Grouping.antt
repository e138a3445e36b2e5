-- ===== src/Pipeline/Warm/Grouping.antt =====
-- The rows of an identity, in the order of the history.
use kuberecord.Base.{
  ◌≡◌, Bool, true, false, Option, none, some, List, [], ◌∷◌, ◌++◌, refl, sym, ◌∙◌, ◌==◌,
  if◌then◌else◌,
}
use mathlib.Core.List.{append_assoc, append-nil}
use kuberecord.Base.Tests.{eq_of_==}
use kuberecord.Base.Map.{Map, lookup, insert, lookup-insert, Distinct, insert-Distinct}
use kuberecord.Pipeline.Warm.{
  KnownState, Identity, identity_eq, identity_of, Group, extend, group_states, group_by_identity,
}
use kuberecord.Pipeline.Warm.Incarnations.{rows}

abbrev pub rows_at : Option Group → List KnownState
rows_at none = []
rows_at (some g) = rows g

unfoldable pub with_identity : Identity → List KnownState → List KnownState
with_identity id [] = []
with_identity id (state ∷ states) =
    let rest = with_identity id states in if identity_of state == id then state ∷ rest else rest

rows-extend :
    (state : KnownState) (o : Option Group) → rows (extend state o) ≡ rows_at o ++ (state ∷ [])
rows-extend state none = refl
rows-extend state (some (first, rest)) = refl

rows_at-if :
    (b : Bool) (g : Group) (o : Option Group)
    → rows_at (if b then some g else o) ≡ (if b then rows g else rows_at o)
rows_at-if true g o = refl
rows_at-if false g o = refl

if_same :
    (b : Bool) (id other : Identity) (groups : Map Identity Group) (state : KnownState)
    (rest : List KnownState)
    → (b ≡ true → other ≡ id)
    → (if b then rows_at (lookup other groups) ++ (state ∷ []) else rows_at (lookup id groups))
        ++ rest
      ≡ rows_at (lookup id groups) ++ (if b then state ∷ rest else rest)
if_same true id other groups state rest e =
    rw (e refl) (append_assoc (rows_at (lookup id groups)) (state ∷ []) rest)
if_same false id other groups state rest e = refl

group_states-rows :
    (id : Identity) (states : List KnownState) (groups : Map Identity Group)
    → rows_at (lookup id (group_states states groups))
      ≡ rows_at (lookup id groups) ++ with_identity id states
unfolding group_states with_identity
group_states-rows id [] groups = sym (append-nil (rows_at (lookup id groups)))
group_states-rows id (state ∷ states) groups =
    let other = identity_of state in
    let grown = extend state (lookup other groups) in
    let at : rows_at (lookup id (insert other grown groups)) ≡ (
        if other == id
        then rows_at (lookup other groups) ++ (state ∷ [])
        else rows_at (lookup id groups)) =
      rw
        (
          lookup-insert other id grown groups,
          rows_at-if (other == id) grown (lookup id groups),
          rows-extend state (lookup other groups),
        )
        refl in
    group_states-rows id states (insert other grown groups)
    ∙ rw at
        (if_same (other == id) id other groups state (with_identity id states) (eq_of_== other id))

group_states-Distinct :
    (states : List KnownState) (groups : Map Identity Group)
    → Distinct groups
    → Distinct (group_states states groups)
unfolding group_states
group_states-Distinct [] groups d = d
group_states-Distinct (state ∷ states) groups d =
    group_states-Distinct states _ (insert-Distinct (identity_of state) _ groups d)

-- Each identity of a history has one group, and it holds the rows of that identity, in the order of the
-- history.
pub group_by_identity_lem :
    (states : List KnownState)
    → Distinct (group_by_identity states)
      × ((id : Identity) → rows_at (lookup id (group_by_identity states)) ≡ with_identity id states)
unfolding group_by_identity
group_by_identity_lem states = (
  group_states-Distinct states [] tt,
  λ id. group_states-rows id states [] ∙ unfold lookup in refl,
)
