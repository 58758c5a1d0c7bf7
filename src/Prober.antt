-- ===== src/Prober.antt =====
-- net/src/liveness.rs: a prober's own view of its peers, and the reports that it makes.
-- The proofs are in the modules below.
pub mod Views
pub mod Reports
mod Examples
use riscdom.Prelude.{
  Bool, List, Map, Option, String, [], false, if◌then◌else◌, insert, keys, lookup, ltb, map, none,
  not, some, true, ℕ, ◌+◌, ◌-◌, ◌^◌, ◌||◌, ◌∷◌,
}
use riscdom.Prelude.Int.{ℤ}

abbrev pub probe_misses : ℕ
probe_misses = 3

pub data Report : Type 0 where
  unreachable : String → Report
  reachable : String → Report

pub node_id : Report → String
node_id (unreachable n) = n
node_id (reachable n) = n

-- `Report::reachable`, the witness of life.
pub is_reachable : Report → Bool
is_reachable (unreachable n) = false
is_reachable (reachable n) = true

pub record PeerView : Type 0 where
  pub last_answer_ms : Option ℤ
  pub consecutive_misses : ℕ
  pub reachable : Bool

pub record Prober : Type 0 where
  pub views : Map PeerView

abbrev pub fresh_view : PeerView
fresh_view = record { last_answer_ms = none; consecutive_misses = 0; reachable = true }

pub collect : List String → Map PeerView → Map PeerView
collect [] m = m
collect (peer ∷ peers) m = collect peers (insert peer fresh_view m)

pub new : List String → Prober
unfolding collect
new peers = record { views = collect peers [] }

pub peers : Prober → List String
peers p = keys p.views

abbrev is_nil {ℓ} : {A : Type ℓ} → List A → Bool
is_nil [] = true
is_nil (x ∷ xs) = false

pub is_empty : Prober → Bool
is_empty p = is_nil p.views

pub view : Prober → String → Option PeerView
view p peer = lookup peer p.views

-- `u32::saturating_add(1)`.
abbrev saturating_suc : ℕ → ℕ
saturating_suc n = if ltb n (2 ^ 32 - 1) then n + 1 else 2 ^ 32 - 1

abbrev with_view : Prober → String → PeerView → Prober
with_view p peer v = record { views = insert peer v p.views }

-- The view after an answer, and the view after a miss with the report that the miss makes.
abbrev pub answered : ℤ → PeerView
answered now = record { last_answer_ms = some now; consecutive_misses = 0; reachable = true }

pub record_answer : Prober → String → ℤ → Option Report × Prober
record_answer p peer now = elim (lookup peer p.views) [
  | none ↦ (none, p)
  | some v ↦ (if v.reachable then none else some (reachable peer), with_view p peer (answered now))
]

-- `view.consecutive_misses` is written before the test, so the test reads the new count.
pub missed : String → PeerView → Option Report × PeerView
missed peer v =
    let counted : PeerView = record v {
      consecutive_misses = saturating_suc v.consecutive_misses;
    } in
    if not counted.reachable || ltb counted.consecutive_misses probe_misses
    then (none, counted)
    else (some (unreachable peer), record counted { reachable = false })

pub record_miss : Prober → String → Option Report × Prober
unfolding missed
record_miss p peer = elim (lookup peer p.views) [
  | none ↦ (none, p)
  | some v ↦ let (report, v') = missed peer v in (report, with_view p peer v')
]

abbrev pulse_of : String × PeerView → Report
pulse_of (peer, v) = if v.reachable then reachable peer else unreachable peer

pub pulse : Prober → List Report
pulse p = map pulse_of p.views

-- The two inputs of a cycle, and a run of them: the reports in order, and the prober after.
pub data Input : Type 0 where
  answer : (peer : String) (now : ℤ) → Input
  miss : (peer : String) → Input

abbrev pub input_peer : Input → String
input_peer (answer peer now) = peer
input_peer (miss peer) = peer

abbrev pub step : Prober → Input → Option Report × Prober
step p (answer peer now) = record_answer p peer now
step p (miss peer) = record_miss p peer

pub run : Prober → List Input → Prober
run p [] = p
run p (i ∷ is) = run (step p i).1 is

abbrev pub cons_report : Option Report → List Report → List Report
cons_report none rs = rs
cons_report (some r) rs = r ∷ rs

pub reports : Prober → List Input → List Report
reports p [] = []
reports p (i ∷ is) = cons_report (step p i).0 (reports (step p i).1 is)
