-- ===== src/Pipeline/Normalize/Stripping.antt =====
-- What `stripVolatileFields` keeps of an object.
use kuberecord.Base.{
  ◌≡◌, Bool, true, false, Option, none, some, arith, refl, sym, ap, ◌∙◌, text_eq, ◌==◌,
  if◌then◌else◌, Bool-cases, inl, inr, contains, ◌⊎◌,
}
use kuberecord.Base.Json.{Value, obj, Fields, end, field, get, get-put}
use kuberecord.Base.Text.{Text, codes}
use kuberecord.Base.Tests.{eq_of_==, ==_self}
use kuberecord.Pipeline.Normalize.{
  volatile_fields, strip_field, keep_field, strip_metadata, strip_volatile_fields,
}

-- Each name stands once.
abbrev pub Once : Fields → Type 0
Once end = Unit {0}
Once (field name value rest) = (get name rest ≡ none) × Once rest

-- a field, where there is one, after the switch
abbrev pub switched : Bool → Text → Option Value → Option Value
switched strip_actors name none = none
switched strip_actors name (some value) = strip_field strip_actors name value

get-keep_field :
    (name other : Text) (o : Option Value) (rest : Fields)
    → get name rest ≡ none
    → get name (keep_field other o rest) ≡ (if other == name then o else none)
unfolding get
get-keep_field name other none rest h = ground arith
get-keep_field name other (some v) rest h = ground arith

get-keep_other :
    (name other : Text) (o : Option Value) (rest : Fields)
    → (other == name) ≡ false
    → get name (keep_field other o rest) ≡ get name rest
unfolding get
get-keep_other name other none rest h = refl
get-keep_other name other (some v) rest h = rw h refl

get-strip_metadata :
    (b : Bool) (name : Text) (m : Fields)
    → Once m
    → get name (strip_metadata b m) ≡ switched b name (get name m)
unfolding get strip_metadata
get-strip_metadata b name end h = refl
get-strip_metadata b name (field other v rest) h = elim (Bool-cases (other == name)) [
  | inl y ↦
      let e : other ≡ name = eq_of_== other name y in
      let gone : get name (strip_metadata b rest) ≡ none =
        get-strip_metadata b name rest h.1 ∙ rw (← e) (rw h.0 refl) in
      get-keep_field name other (strip_field b other v) (strip_metadata b rest) gone
      ∙ rw y (ap (λ (n : Text). strip_field b n v) e)
  | inr n ↦
      rw n
        (get-keep_other name other (strip_field b other v) _ n ∙ get-strip_metadata b name rest h.1)
]

-- Of an object whose metadata names each field once, the metadata that is hashed has exactly the
-- fields that the switch keeps, as it keeps them, and every other field of the object stays.
pub strip_volatile_fields_lem :
    (b : Bool) (name : Text) (object m : Fields)
    → Once m
    → get (codes "metadata") object ≡ some (obj m)
    → ((m' : Fields) × (get (codes "metadata") (strip_volatile_fields object b) ≡ some (obj m'))
        × (get name m' ≡ switched b name (get name m)))
      × ((name ≡ codes "metadata") ⊎ (get name (strip_volatile_fields object b) ≡ get name object))
unfolding strip_volatile_fields
strip_volatile_fields_lem b name object m once there =
    let put_law =
      λ (other : Text). get-put (codes "metadata") other (obj (strip_metadata b m)) object in
    rw there (
      (
        strip_metadata b m,
        put_law (codes "metadata") ∙ rw (==_self (codes "metadata")) refl,
        get-strip_metadata b name m once,
      ),
      elim (Bool-cases (codes "metadata" == name)) [
        | inl y ↦ inl (sym (eq_of_== (codes "metadata") name y))
        | inr n ↦ inr (put_law name ∙ rw n refl)
      ],
    )

-- A field that the cluster rewrites without a change of intent is not there after the switch.
pub volatile-switched :
    (b : Bool) (name : Text) (o : Option Value)
    → contains volatile_fields name ≡ true
    → switched b name o ≡ none
unfolding strip_field
volatile-switched b name none h = refl
volatile-switched b name (some v) h = rw h refl
