-- ===== src/Watch/Manager/Absence.antt =====
-- The manager says that an object is absent only where every informer that could hold it runs without it.
use kuberecord.Base.{
  ◌≡◌, inl, inr, Bool, true, false, Option, none, some, List, [], ◌∷◌, arith, refl, All,
}
use mathlib.Core.Path.{subst}
use kuberecord.Base.Json.{Fields}
use kuberecord.Base.Lists.{Elem, Elem-All}
use kuberecord.Base.Map.{Map}
use kuberecord.Base.Text.{Text}
use kuberecord.Pipeline.Identity.{Key}
use kuberecord.Pipeline.WorkItem.{Lookup, failed, answer}
use kuberecord.Watch.Interest.{InterestId, ScopeInterest}
use kuberecord.Watch.InterestTable.{InterestTable, replace, lookup_identity}
use kuberecord.Watch.InterestTable.Finding.{Installed, Serves, lookup_identity-Serves}
use kuberecord.Watch.Manager.{
  Indexed, broken, missing, mistyped, held, Informer, Pool, index_key, get_indexed, get_entry,
  get_each, get_among, get,
}

-- The interest's informer runs and does not hold the key.
abbrev pub Lacks : Pool → Text → ScopeInterest → Type 0
Lacks pool key i =
    (informer : Informer) × (pool i.informer ≡ some informer) × (informer.get_by_key key ≡ missing)

-- The interest's informer runs and holds the object under the key.
abbrev pub Has : Pool → Text → Fields → ScopeInterest → Type 0
Has pool key object i =
    (informer : Informer) × (pool i.informer ≡ some informer)
    × (informer.get_by_key key ≡ held object)

-- What an answer says of the interests that are asked, where `absent` is whether an earlier one has no
-- informer.
abbrev Tells : Pool → Text → List ScopeInterest → Bool → Lookup → Type 0
Tells pool key interests absent failed = Unit
Tells pool key interests absent (answer none active) =
    (absent ≡ false) × (active ≡ true) × All (Lacks pool key) interests
Tells pool key interests absent (answer (some object) active) =
    (active ≡ true) × ((i : ScopeInterest) × Elem i interests × Has pool key object i)

module _ (pool : Pool) (key : Text) (i : ScopeInterest) (interests : List ScopeInterest)
    (absent : Bool) where
  later :
      (l : Lookup)
      → Lacks pool key i
      → Tells pool key interests absent l
      → Tells pool key (i ∷ interests) absent l
  later failed lacks t = tt
  later (answer none active) lacks t = (t.0, t.1, (lacks, t.2))
  later (answer (some object) active) lacks (e, (j, m, has)) = (e, (j, inr m, has))

  -- without an informer nothing is said to be absent
  passed : (l : Lookup) → Tells pool key interests true l → Tells pool key (i ∷ interests) absent l
  passed failed t = tt
  passed (answer none active) t = absurd (ground arith)
  passed (answer (some object) active) (e, (j, m, has)) = (e, (j, inr m, has))

  indexed-Tells :
      (next : Bool → Lookup) (informer : Informer) (r : Indexed)
      → pool i.informer ≡ some informer
      → informer.get_by_key key ≡ r
      → ((b : Bool) → Tells pool key interests b (next b))
      → Tells pool key (i ∷ interests) absent (get_indexed next absent r)
  indexed-Tells next informer broken e g n = tt
  indexed-Tells next informer missing e g n = later (next absent) (informer, e, g) (n absent)
  indexed-Tells next informer mistyped e g n = tt
  indexed-Tells next informer (held object) e g n = (refl, (i, inl refl, (informer, e, g)))

  entry-Tells :
      (next : Bool → Lookup) (o : Option Informer)
      → pool i.informer ≡ o
      → ((b : Bool) → Tells pool key interests b (next b))
      → Tells pool key (i ∷ interests) absent (get_entry next absent key o)
  entry-Tells next none e n = passed (next true) (n true)
  entry-Tells next (some informer) e n =
      indexed-Tells next informer (informer.get_by_key key) e refl n

get_each-Tells :
    (pool : Pool) (key : Text) (interests : List ScopeInterest) (absent : Bool)
    → Tells pool key interests absent (get_each pool key interests absent)
unfolding get_each
get_each-Tells pool key [] true = tt
get_each-Tells pool key [] false = (refl, refl, tt)
get_each-Tells pool key (i ∷ interests) absent =
    entry-Tells pool key i interests absent (get_each pool key interests) (pool i.informer) refl
      (get_each-Tells pool key interests)

absent_among :
    (pool : Pool) (key : Text) (interests : List ScopeInterest)
    → get_among pool key interests ≡ answer none true
    → All (Lacks pool key) interests
absent_among pool key [] e = tt
absent_among pool key (i ∷ interests) e =
    (subst (Tells pool key (i ∷ interests) false) e
      (get_each-Tells pool key (i ∷ interests) false)).2

found_among :
    (pool : Pool) (key : Text) (interests : List ScopeInterest) (object : Fields) (active : Bool)
    → get_among pool key interests ≡ answer (some object) active
    → (i : ScopeInterest) × Elem i interests × Has pool key object i
found_among pool key [] object active e = absurd (ground arith)
found_among pool key (i ∷ interests) object active e =
    (subst (Tells pool key (i ∷ interests) false) e
      (get_each-Tells pool key (i ∷ interests) false)).1

inactive_among :
    (pool : Pool) (key : Text) (interests : List ScopeInterest) (o : Option Fields)
    → get_among pool key interests ≡ answer o false
    → (i : ScopeInterest) → ¬ (Elem i interests)
inactive_among pool key [] o e i m = m
inactive_among pool key (j ∷ interests) none e i m = absurd (
    ground (
      arith,
      (subst (Tells pool key (j ∷ interests) false) e
          (get_each-Tells pool key (j ∷ interests) false)).1,
    ))
inactive_among pool key (j ∷ interests) (some object) e i m = absurd (
    ground (
      arith,
      (subst (Tells pool key (j ∷ interests) false) e
          (get_each-Tells pool key (j ∷ interests) false)).0,
    ))

-- After a replacement of the table: if the manager says that a watched object is absent, every desired
-- interest that serves it has a running informer that does not hold it; an object that it gives is held
-- by the informer of such an interest; and it says that the scope is not watched only if there is none.
pub get-Tells :
    (pool : Pool) (desired : Map InterestId ScopeInterest) (t : InterestTable) (ref : Key)
    → (get pool (replace desired t).0 ref ≡ answer none true
        → (i : ScopeInterest) → Installed i desired
        → Serves i ref
        → Lacks pool (index_key ref) i)
      × ((object : Fields) (active : Bool)
          → get pool (replace desired t).0 ref ≡ answer (some object) active
          → (i : ScopeInterest) × Installed i desired
            × Serves i ref
            × Has pool (index_key ref) object i)
      × ((o : Option Fields)
          → get pool (replace desired t).0 ref ≡ answer o false
          → (i : ScopeInterest) → Installed i desired
          → ¬ (Serves i ref))
unfolding get
get-Tells pool desired t ref =
    let interests = lookup_identity ref (replace desired t).0 in
    (
      λ e i installed serves.
          Elem-All (Lacks pool (index_key ref)) i interests
            ((lookup_identity-Serves desired t i ref).1 (installed, serves))
            (absent_among pool (index_key ref) interests e),
      λ object active e.
          let (i, m, has) = found_among pool (index_key ref) interests object active e in
          let (installed, serves) = (lookup_identity-Serves desired t i ref).0 m in
          (i, installed, serves, has),
      λ o e i installed serves.
          inactive_among pool (index_key ref) interests o e i
            ((lookup_identity-Serves desired t i ref).1 (installed, serves)),
    )
