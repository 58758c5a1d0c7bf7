-- ===== src/Suppression.antt =====
-- net/src/suppression.rs: the three layers before a node stands in for its centre.
-- The proofs are in the modules below.
pub mod Layers
pub mod Timeline
pub mod Line
mod Examples
use Prim.Native.Nat.{bit_xor}
use riscdom.Prelude.{
  Bool, List, Option, String, [], any, false, if◌then◌else◌, none, not, some, str_lt, true, ℕ, ◌%◌,
  ◌&&◌, ◌*◌, ◌++◌, ◌+◌, ◌^◌, ◌||◌, ◌∷◌,
}
use riscdom.Prelude.Int.{le_bytes_i64, leb_ℤ, pos, saturating_add_i64, saturating_sub_i64, ℤ}
use riscdom.Prelude.Utf8.{as_bytes}
use riscdom.Witness.{Judgement, WitnessTable, judge}

-- `SUPPRESSION_WAIT` and `SUPPRESSION_BACKOFF_MAX`, in milliseconds.
abbrev pub suppression_wait : ℤ
suppression_wait = pos (60 * 1000)

abbrev pub suppression_backoff_max : ℕ
suppression_backoff_max = 30 * 1000

pub data SuppressionPhase : Type 0 where
  candidate waiting confirming backing_off standing_in : SuppressionPhase

pub as_str : SuppressionPhase → String
as_str candidate = "candidate"
as_str waiting = "waiting"
as_str confirming = "confirming"
as_str backing_off = "backing-off"
as_str standing_in = "standing-in"

pub record Suppression : Type 0 where
  pub node_id : String
  pub phase : SuppressionPhase
  pub since_ms : ℤ
  pub deadline_ms : Option ℤ

pub new : String → ℤ → Suppression
new node_id now = record {
  node_id = node_id;
  phase = candidate;
  since_ms = now;
  deadline_ms = none;
}

-- The branch of `observe` for a centre that is not reachable.
pub lost : SuppressionPhase → Suppression → ℤ → Suppression
lost candidate m now = record m { phase = waiting; since_ms = now }
lost waiting m now =
    if leb_ℤ suppression_wait (saturating_sub_i64 now m.since_ms)
    then record m { phase = confirming; since_ms = now }
    else m
lost confirming m now = m
lost backing_off m now = m
lost standing_in m now = m

pub observe : Suppression → Bool → ℤ → Suppression
unfolding lost
observe m centre_reachable now =
    if centre_reachable
    then record m { phase = candidate; since_ms = now; deadline_ms = none }
    else lost m.phase m now

-- FNV-1a, one byte.
abbrev fnv_step : ℕ → ℕ → ℕ
fnv_step hash byte = bit_xor hash byte * 0x100000001b3 % 2 ^ 64

pub fnv : ℕ → List ℕ → ℕ
fnv hash [] = hash
fnv hash (byte ∷ bytes) = fnv (fnv_step hash byte) bytes

pub backoff_delay_ms : String → ℤ → ℤ
backoff_delay_ms node_id now =
    pos (
      fnv 0xcbf29ce484222325 (as_bytes node_id ++ le_bytes_i64 now) % (suppression_backoff_max + 1))

abbrev is_confirming : SuppressionPhase → Bool
is_confirming confirming = true
is_confirming _ = false

abbrev pub is_backing_off : SuppressionPhase → Bool
is_backing_off backing_off = true
is_backing_off _ = false

pub confirm :
    Suppression → WitnessTable → String → ℤ → (String → Bool) → Option Judgement × Suppression
confirm m table centre now witness_online =
    if not (is_confirming m.phase)
    then (none, m)
    else elim (judge table centre now witness_online) [
      | none ↦ (none, m)
      | some judgement ↦ (
        some judgement,
        record m {
          phase = backing_off;
          since_ms = now;
          deadline_ms = some (saturating_add_i64 now (backoff_delay_ms m.node_id now));
        },
      )
    ]

pub stand_down : Suppression → ℤ → Suppression
stand_down m now = record m { phase = candidate; since_ms = now; deadline_ms = none }

-- `matches!((self.phase, self.deadline_ms), (BackingOff, Some(deadline)) if now >= deadline)`.
pub backoff_elapsed : Suppression → ℤ → Bool
backoff_elapsed m now =
    is_backing_off m.phase
    && elim m.deadline_ms [ none ↦ false | some deadline ↦ leb_ℤ deadline now ]

pub maybe_stand_in : Suppression → ℤ → Bool × Suppression
unfolding backoff_elapsed
maybe_stand_in m now =
    if not (is_backing_off m.phase) || not (backoff_elapsed m now)
    then (false, m)
    else (true, record m { phase = standing_in; since_ms = now; deadline_ms = none })

-- `Iterator::min`, from the first item on.
pub min_from : String → List String → String
min_from least [] = least
min_from least (node ∷ nodes) = min_from (if str_lt node least then node else least) nodes

pub first_in_line : List String → Option String
unfolding min_from
first_in_line [] = none
first_in_line (node ∷ nodes) = some (min_from node nodes)

pub is_first_in_line : String → List String → Bool
unfolding any
is_first_in_line node_id others = not (any (λ other. str_lt other node_id) others)
