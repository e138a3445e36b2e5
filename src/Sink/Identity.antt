-- ===== src/Sink/Identity.antt =====
-- internal/sink/id.go: the identity of a sink, and its order.
pub mod Order
use Prim.Native.Nat.{Ordering}
use kuberecord.Base.{◌≡◌, ◌++◌, arith, ap, List-ℕ_discrete, Eq}
use kuberecord.Base.Text.{Text, codes, cmp_or, compare_text}

-- `ID`
pub record SinkId : Type 0 where
  pub kind : Text
  pub name : Text

unfoldable pub SinkId_discrete : Discrete SinkId
SinkId_discrete = hlevel List-ℕ_discrete

instance abbrev pub id_eq : Eq SinkId
id_eq = record { same = SinkId_discrete }

-- `ID.String`
unfoldable pub to_string : SinkId → Text
to_string id = id.kind ++ (codes "/" ++ id.name)

-- `ID.Compare`
unfoldable pub compare : SinkId → SinkId → Ordering
compare a b = cmp_or (compare_text a.kind b.kind) (compare_text a.name b.name)
