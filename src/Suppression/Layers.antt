-- ===== src/Suppression/Layers.antt =====
-- What each layer of the suppression does in each phase (net/src/suppression.rs).
use riscdom.Prelude.{Bool, String, arith, is_some, refl, true, ◌≡◌}
use riscdom.Prelude.Int.{pos, ℤ, ◌≤ℤ◌}
use riscdom.Witness.{WitnessTable}
use riscdom.Suppression.{
  Suppression, backoff_delay_ms, confirm, is_backing_off, maybe_stand_in, new, observe, stand_down,
  suppression_backoff_max,
}

-- The delay lies between 0 and the longest backoff.
pub backoff_delay_bounds :
    (node : String) (now : ℤ)
    → (pos 0 ≤ℤ backoff_delay_ms node now)
      × (backoff_delay_ms node now ≤ℤ pos suppression_backoff_max)
unfolding backoff_delay_ms
backoff_delay_bounds node now = (omega arith, omega arith)

-- A deadline is set exactly while the machine backs off.
abbrev pub IsValid : Suppression → Type 0
IsValid m = is_some m.deadline_ms ≡ is_backing_off m.phase

-- One call on the machine.
pub data Call : Type 0 where
  observes : (centre_reachable : Bool) (now : ℤ) → Call
  confirms :
      (table : WitnessTable) (centre : String) (now : ℤ) (witness_online : String → Bool) → Call
  stands_down : (now : ℤ) → Call
  stands_in : (now : ℤ) → Call

abbrev pub step : Suppression → Call → Suppression
step m (observes centre_reachable now) = observe m centre_reachable now
step m (confirms table centre now witness_online) = (confirm m table centre now witness_online).1
step m (stands_down now) = stand_down m now
step m (stands_in now) = (maybe_stand_in m now).1

pub step-IsValid : (m : Suppression) (c : Call) → IsValid m → IsValid (step m c)
unfolding observe confirm stand_down maybe_stand_in
step-IsValid m (observes centre_reachable now) v = ground arith
step-IsValid m (confirms table centre now witness_online) v = ground arith
step-IsValid m (stands_down now) v = ground arith
step-IsValid m (stands_in now) v = ground arith

-- A reachable centre and a takeover broadcast put the machine back to a candidate from any phase,
-- with no deadline.
pub reset :
    (m : Suppression) (now : ℤ)
    → (observe m true now ≡ new m.node_id now) × (stand_down m now ≡ new m.node_id now)
unfolding observe stand_down new
reset m now = (refl, refl)
