-- ===== src/Watch/InterestTable/Finding.antt =====
-- The table answers with the interests that an object falls under, and reports the ones that vanished.
use kuberecord.Base.{
  ◌≡◌, ◌↔◌, ◌⊎◌, inl, inr, Bool, true, false, Option, none, some, List, [], ◌∷◌, ◌++◌, arith, refl,
  sym, ap, ◌∙◌, Eq, ◌==◌, if◌then◌else◌, Bool-cases, All, text_eq,
}
use mathlib.Core.List.{append_assoc, append-nil}
use mathlib.Core.Path.{subst}
use kuberecord.Base.Lists.{Elem, Elem-All, Elem-append_left, Elem-append_right, Elem-append}
use kuberecord.Base.Map.{Map, lookup, insert, lookup-insert}
use kuberecord.Base.Sorting.{sort_stable, sort_stable-All, sort_stable-Elem}
use kuberecord.Base.Tests.{eq_of_==, ne_of_==}
use kuberecord.Pipeline.Identity.{Key}
use kuberecord.Watch.Interest.{
  InterestId, interest_eq, IdentityKey, identity_key_eq, ScopeInterest, identity,
}
use kuberecord.Watch.InterestTable.{
  InterestTable, or_no_interests, index_by, unless_wanted, vanished, compare_interests, replace,
  lookup_identity,
}

-- The interests of a key, in the order of the map.
unfoldable pub with_key :
    {K : Type 0} ⦃e : Eq K⦄
    → (ScopeInterest → K)
    → K
    → Map InterestId ScopeInterest
    → List ScopeInterest
with_key key k [] = []
with_key key k ((id, i) ∷ interests) =
    let rest = with_key key k interests in if key i == k then i ∷ rest else rest

module _ {K : Type 0} ⦃e : Eq K⦄ (key : ScopeInterest → K) (k : K) where
  grown :
      (b : Bool) (other : K) (index : Map K (List ScopeInterest)) (i : ScopeInterest)
      (rest : List ScopeInterest)
      → (b ≡ true → other ≡ k)
      → or_no_interests
            (if b then some (or_no_interests (lookup other index) ++ (i ∷ [])) else lookup k index)
          ++ rest
        ≡ or_no_interests (lookup k index) ++ (if b then i ∷ rest else rest)
  grown true other index i rest same =
      rw (same refl) (append_assoc (or_no_interests (lookup k index)) (i ∷ []) rest)
  grown false other index i rest same = refl

  pub index_by-lookup :
      (interests : Map InterestId ScopeInterest) (index : Map K (List ScopeInterest))
      → or_no_interests (lookup k (index_by key interests index))
        ≡ or_no_interests (lookup k index) ++ with_key key k interests
  unfolding index_by with_key
  index_by-lookup [] index = sym (append-nil (or_no_interests (lookup k index)))
  index_by-lookup ((id, i) ∷ interests) index =
      index_by-lookup interests
        (insert (key i) (or_no_interests (lookup (key i) index) ++ (i ∷ [])) index)
      ∙ rw (lookup-insert (key i) k (or_no_interests (lookup (key i) index) ++ (i ∷ [])) index)
          (grown (key i == k) (key i) index i (with_key key k interests) (eq_of_== (key i) k))

-- The interest is one of the map's.
abbrev pub Installed : ScopeInterest → Map InterestId ScopeInterest → Type 0
Installed i interests = (id : InterestId) × Elem (id, i) interests

with_key-Installed :
    (k : IdentityKey) (interests : Map InterestId ScopeInterest) (i : ScopeInterest)
    → Elem i (with_key identity k interests) ↔ (Installed i interests × (identity i ≡ k))
unfolding with_key
with_key-Installed k [] i = (λ m. absurd m, λ m. absurd m.0.1)
with_key-Installed k ((id, j) ∷ interests) i = elim (Bool-cases (identity j == k)) [
  | inl y ↦ rw y (
    λ m. elim m [
      | inl same ↦ (
        (id, inl (ap (λ (x : ScopeInterest). (id, x)) same)),
        ap identity (sym same) ∙ eq_of_== (identity j) k y,
      )
      | inr later ↦
          let ((at, placed), named) = (with_key-Installed k interests i).0 later in
          ((at, inr placed), named)
    ],
    λ m. elim m.0.1 [
      | inl same ↦ inl (ap (λ (x : InterestId × ScopeInterest). x.1) same)
      | inr later ↦ inr ((with_key-Installed k interests i).1 ((m.0.0, later), m.1))
    ],
  )
  | inr n ↦ rw n (
    λ m.
        let ((at, placed), named) = (with_key-Installed k interests i).0 m in
        ((at, inr placed), named),
    λ m. elim m.0.1 [
      | inl same ↦ absurd (
          ne_of_== (identity j) k n
            (ap (λ (x : InterestId × ScopeInterest). identity x.1) same ∙ m.1))
      | inr later ↦ (with_key-Installed k interests i).1 ((m.0.0, later), m.1)
    ],
  )
]

abbrev exact : Key → IdentityKey
exact ref = record {
  group = ref.group;
  kind = ref.kind;
  namespace = ref.namespace;
  sink = ref.sink;
}

abbrev cluster_wide : Key → IdentityKey
cluster_wide ref = record { group = ref.group; kind = ref.kind; namespace = []; sink = ref.sink }

-- The interest watches the object's kind for its sink, in its namespace or in all.
abbrev pub Serves : ScopeInterest → Key → Type 0
Serves i ref =
    (i.gvk.group ≡ ref.group)
    × (i.gvk.kind ≡ ref.kind)
    × (i.sink ≡ ref.sink)
    × ((i.informer.scope.namespace ≡ []) ⊎ (i.informer.scope.namespace ≡ ref.namespace))

identity-Serves :
    (i : ScopeInterest) (ref : Key)
    → (identity i ≡ exact ref) ⊎ (identity i ≡ cluster_wide ref)
    → Serves i ref
unfolding identity
identity-Serves i ref (inl e) = (
  ap (λ (k : IdentityKey). k.group) e,
  ap (λ (k : IdentityKey). k.kind) e,
  ap (λ (k : IdentityKey). k.sink) e,
  inr (ap (λ (k : IdentityKey). k.namespace) e),
)
identity-Serves i ref (inr e) = (
  ap (λ (k : IdentityKey). k.group) e,
  ap (λ (k : IdentityKey). k.kind) e,
  ap (λ (k : IdentityKey). k.sink) e,
  inl (ap (λ (k : IdentityKey). k.namespace) e),
)

Serves-identity :
    (i : ScopeInterest) (ref : Key)
    → Serves i ref
    → (identity i ≡ exact ref) ⊎ (identity i ≡ cluster_wide ref)
unfolding identity
Serves-identity i ref (g, k, s, inl all) = inr (ground (arith, g, k, s, all))
Serves-identity i ref (g, k, s, inr one) = inl (ground (arith, g, k, s, one))

module _ (desired : Map InterestId ScopeInterest) (t : InterestTable) where
  by_identity-Installed :
      (i : ScopeInterest) (k : IdentityKey)
      → Elem i (or_no_interests (lookup k (replace desired t).0.by_identity))
        ↔ (Installed i desired × (identity i ≡ k))
  unfolding replace lookup
  by_identity-Installed i k =
      let found : or_no_interests (lookup k (index_by identity desired []))
          ≡ with_key identity k desired =
        index_by-lookup identity k desired [] in
      (
        λ m. (with_key-Installed k desired i).0 (subst (Elem i) found m),
        λ m. subst (Elem i) (sym found) ((with_key-Installed k desired i).1 m),
      )

  lookup_identity-Elem :
      (i : ScopeInterest) (ref : Key)
      → Elem i (lookup_identity ref (replace desired t).0) ↔ (
          Elem i (or_no_interests (lookup (exact ref) (replace desired t).0.by_identity))
          ⊎ Elem i (or_no_interests (lookup (cluster_wide ref) (replace desired t).0.by_identity)))
  unfolding lookup_identity
  lookup_identity-Elem i ref = elim (Bool-cases (exact ref == cluster_wide ref)) [
    | inl y ↦ rw y (
      λ m. inl m,
      λ m. elim m [
        | inl here ↦ here
        | inr there ↦
            subst
              (λ (k : IdentityKey).
                Elem i (or_no_interests (lookup k (replace desired t).0.by_identity)))
              (sym (eq_of_== (exact ref) (cluster_wide ref) y)) there
      ],
    )
    | inr n ↦ rw n (
      λ m. Elem-append i _ _ m,
      λ m. elim m [
        | inl here ↦ Elem-append_left i _ _ here
        | inr there ↦ Elem-append_right i _ _ there
      ],
    )
  ]

  -- After a replacement the lookup of an object's key answers with exactly the desired interests that
  -- watch its kind for its sink, in its namespace or in all of them.
  pub lookup_identity-Serves :
      (i : ScopeInterest) (ref : Key)
      → Elem i (lookup_identity ref (replace desired t).0) ↔ (Installed i desired × Serves i ref)
  lookup_identity-Serves i ref = (
    λ m. elim ((lookup_identity-Elem i ref).0 m) [
      | inl here ↦
          let (installed, e) = (by_identity-Installed i (exact ref)).0 here in
          (installed, identity-Serves i ref (inl e))
      | inr there ↦
          let (installed, e) = (by_identity-Installed i (cluster_wide ref)).0 there in
          (installed, identity-Serves i ref (inr e))
    ],
    λ m. (lookup_identity-Elem i ref).1 (elim (Serves-identity i ref m.1) [
      | inl e ↦ inl ((by_identity-Installed i (exact ref)).1 (m.0, e))
      | inr e ↦ inr ((by_identity-Installed i (cluster_wide ref)).1 (m.0, e))
    ]),
  )

unless_wanted-Elem :
    (o : Option ScopeInterest) (j i : ScopeInterest) (rest : List ScopeInterest)
    → Elem i (unless_wanted o j rest) ↔ (((o ≡ none) × (j ≡ i)) ⊎ Elem i rest)
unless_wanted-Elem none j i rest = (
  λ m. elim m [ inl same ↦ inl (refl, same) | inr later ↦ inr later ],
  λ m. elim m [ inl here ↦ inl here.1 | inr later ↦ inr later ],
)
unless_wanted-Elem (some wanted) j i rest =
    (λ m. inr m, λ m. elim m [ inl here ↦ absurd (cc here.0) | inr later ↦ later ])

vanished-Elem :
    (desired interests : Map InterestId ScopeInterest) (i : ScopeInterest)
    → Elem i (vanished desired interests)
      ↔ ((id : InterestId) × Elem (id, i) interests × (lookup id desired ≡ none))
unfolding vanished
vanished-Elem desired [] i = (λ m. absurd m, λ m. absurd m.1)
vanished-Elem desired ((id, j) ∷ interests) i =
    let kept = unless_wanted-Elem (lookup id desired) j i (vanished desired interests) in
    let later = vanished-Elem desired interests i in
    (
      λ m. elim (kept.0 m) [
        | inl (gone, same) ↦ (id, inl (ap (λ (x : ScopeInterest). (id, x)) same), gone)
        | inr there ↦ let (at, placed, missing) = later.0 there in (at, inr placed, missing)
      ],
      λ m. elim m.1 [
        | inl same ↦
            let named : id ≡ m.0 = ap (λ (x : InterestId × ScopeInterest). x.0) same in
            kept.1 (
              inl (
                ap (λ (k : InterestId). lookup k desired) named ∙ m.2,
                ap (λ (x : InterestId × ScopeInterest). x.1) same,
              ))
        | inr there ↦ kept.1 (inr (later.1 (m.0, there, m.2)))
      ],
    )

all_elements :
    {A : Type 0} (xs ys : List A) → ((x : A) → Elem x xs → Elem x ys) → All (λ x. Elem x ys) xs
all_elements [] ys f = tt
all_elements (x ∷ xs) ys f = (f x (inl refl), all_elements xs ys (λ y m. f y (inr m)))

-- A replacement reports exactly the interests that were installed and whose identity is not desired.
pub replace-vanished :
    (desired : Map InterestId ScopeInterest) (t : InterestTable) (i : ScopeInterest)
    → Elem i (replace desired t).1
      ↔ ((id : InterestId) × Elem (id, i) t.current × (lookup id desired ≡ none))
unfolding replace
replace-vanished desired t i = (
  λ m. (vanished-Elem desired t.current i).0 (
      Elem-All (λ x. Elem x (vanished desired t.current)) i
        (sort_stable compare_interests (vanished desired t.current)) m
        (sort_stable-All (λ x. Elem x (vanished desired t.current)) compare_interests
          (vanished desired t.current)
          (all_elements (vanished desired t.current) (vanished desired t.current) (λ x n. n)))),
  λ m.
      sort_stable-Elem compare_interests i (vanished desired t.current)
        ((vanished-Elem desired t.current i).1 m),
)
