-- ===== src/Base/Json.antt =====
-- JSON documents as encoding/json decodes them into `any`: what the pipeline reads of a Kubernetes
-- object. A number keeps its literal; an object is the list of its fields, each name once.
use mathlib.Core.Path.{◌≡◌}
use mathlib.Core.Bool.{Bool}
use mathlib.Core.Option.{Option, none, some}
use mathlib.Core.List.{[], ◌∷◌}
use native.Mathlib.Omega.{arith}
use kuberecord.Base.Tests.{text_eq, ◌==◌, if◌then◌else◌}
use kuberecord.Base.Map.{Map}
use kuberecord.Base.Text.{Text}

mutual
  pub data Value : Type 0 where
    null : Value
    bool : Bool → Value
    num : Text → Value
    str : Text → Value
    arr : Items → Value
    obj : Fields → Value

  pub data Items : Type 0 where
    nil : Items
    cons : Value → Items → Items

  pub data Fields : Type 0 where
    end : Fields
    field : (name : Text) → (value : Value) → (others : Fields) → Fields

-- `v, ok := object[name]`
unfoldable pub get : Text → Fields → Option Value
get name end = none
get name (field other v rest) = if other == name then some v else get name rest

-- `object[name] = v` on a copy, where the name is there already
unfoldable pub put : Text → Value → Fields → Fields
put name v end = field name v end
put name v (field other w rest) =
    if other == name then field other v rest else field other w (put name v rest)

-- the fields as a map
abbrev pub entries : Fields → Map Text Value
entries end = []
entries (field name v rest) = (name, v) ∷ entries rest

-- `v.(map[string]any)`, `v.([]any)` and `v.(string)`
abbrev pub as_object : Value → Option Fields
as_object (obj fields) = some fields
as_object _ = none

abbrev pub as_array : Value → Option Items
as_array (arr items) = some items
as_array _ = none

abbrev pub as_string : Value → Option Text
as_string (str s) = some s
as_string _ = none

pub get-put :
    (name other : Text) (v : Value) (fields : Fields)
    → get other (put name v fields) ≡ (if name == other then some v else get other fields)
unfolding get put
get-put name other v end = ground arith
get-put name other v (field j w rest) = ground (arith, get-put name other v rest)
