-- ===== src/Delivery/Envelope.antt =====
-- When a delivery's envelope is accepted (net/src/suppression.rs).
use riscdom.Prelude.{List, String, arith, eq_iff, if◌then◌else◌, length, ltb, ok, ℕ, ◌↔◌, ◌≡◌}
use riscdom.Delivery.{SegmentDone, SegmentEvent, indices, verify_delivery}
use riscdom.Delivery.Sort.{same_numbers_iff, times}

-- A delivery is accepted exactly when it was addressed to this node, as many events arrived as its end
-- says, and every position below that number arrived once and no other did, in whatever order.
pub verify_delivery_iff :
    {V : Type 0} (this_node : String) (done : SegmentDone) (events : List (SegmentEvent V))
    → (verify_delivery this_node done events ≡ ok tt) ↔ (
        (done.centre ≡ this_node)
        × (length events ≡ done.total)
        × ((p : ℕ) → times p (indices events) ≡ (if ltb p done.total then 1 else 0)))
unfolding verify_delivery
verify_delivery_iff this_node done events =
    let places = same_numbers_iff (indices events) done.total in
    (
      λ h. (
        ground (arith, h, eq_iff done.centre this_node),
        ground (arith, h),
        places.0 (ground (arith, h)),
      ),
      λ g. ground (arith, g.0, g.1, places.1 g.2, eq_iff done.centre this_node),
    )
