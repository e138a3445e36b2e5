-- ===== src/Sink/Identity/Order.antt =====
-- The order of sink identities.
use Prim.Native.Nat.{Ordering}
use kuberecord.Base.{◌≡◌, arith, ◌↔◌}
use kuberecord.Base.Text.{
  flip, compare_text-eq, compare_text_self, compare_text-flip, compare_text_trans,
}
use kuberecord.Sink.Identity.{SinkId, compare}

-- Two identities compare as equal exactly when they are equal, so a sort by `Compare` never
-- confuses two sinks that share a name.
pub compare-eq_iff : (a b : SinkId) → (compare a b ≡ Ordering.eq) ↔ (a ≡ b)
unfolding compare
compare-eq_iff a b = (
  λ h. ground (arith, compare_text-eq a.kind b.kind, compare_text-eq a.name b.name),
  λ e. rw e (rw (compare_text_self b.kind) (compare_text_self b.name)),
)

-- `Compare` is a strict total order: turning the arguments round turns the answer round, and
-- "before" is transitive.
pub compare_order :
    (a b c : SinkId)
    → (compare b a ≡ flip (compare a b))
      × (compare a b ≡ Ordering.lt → compare b c ≡ Ordering.lt → compare a c ≡ Ordering.lt)
unfolding compare
compare_order a b c = (
  ground (arith, compare_text-flip a.kind b.kind, compare_text-flip a.name b.name),
  λ h k. ground (
    arith,
    compare_text_trans a.kind b.kind c.kind,
    compare_text_trans a.name b.name c.name,
    compare_text-eq a.kind b.kind,
    compare_text-eq b.kind c.kind,
  ),
)
