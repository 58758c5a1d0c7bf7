-- ===== src/Replay.antt =====
-- net/src/replay.rs: the replay guard, one high-water mark per peer over a fixed window.
-- The proofs are in the modules below.
pub mod Record
pub mod InWindow
pub mod Once
mod Examples
use mathlib.Core.Option
use riscdom.Prelude.{
  List, Map, Option, Result, String, [], contains, err, if◌then◌else◌, insert, length, lookup, map,
  ok, unwrap_or, ℕ, ◌&&◌, ◌*◌, ◌∷◌,
}
use riscdom.Prelude.Int.{add_i64, eqb_ℤ, ltb_ℤ, pos, sub_i64, ℤ}

abbrev pub replay_window_back_ms : ℤ
replay_window_back_ms = pos (5 * 60 * 1000)

abbrev pub replay_window_ahead_ms : ℤ
replay_window_ahead_ms = pos (60 * 1000)

pub record Window : Type 0 where
  pub back_ms : ℤ
  pub ahead_ms : ℤ

abbrev pub default_window : Window
default_window = record { back_ms = replay_window_back_ms; ahead_ms = replay_window_ahead_ms }

pub data ReplayError : Type 0 where
  stale : (ts now back_ms : ℤ) → ReplayError
  future : (ts now ahead_ms : ℤ) → ReplayError
  replay : (from : String) (ts : ℤ) → ReplayError

pub record PeerRecord : Type 0 where
  pub high_water : ℤ
  pub at_water : List String

-- `#[derive(Default)]` of `PeerRecord`.
abbrev default_record : PeerRecord
default_record = record { high_water = pos 0; at_water = [] }

pub record ReplayGuard : Type 0 where
  pub window : Window
  pub peers : Map PeerRecord

abbrev pub new : ReplayGuard
new = record { window = default_window; peers = [] }

abbrev pub with_window : Window → ReplayGuard
with_window w = record { window = w; peers = [] }

pub tracked_peers : ReplayGuard → ℕ
tracked_peers g = length g.peers

pub high_water : ReplayGuard → String → Option ℤ
high_water g from = Option.map (λ (r : PeerRecord). r.high_water) (lookup from g.peers)

-- `entry(from).or_default()`: the record that the code then writes through.
abbrev pub entry_or_default : ReplayGuard → String → PeerRecord
entry_or_default g from = unwrap_or (lookup from g.peers) default_record

-- The set insertion of `HashSet::insert`.
abbrev pub set_insert : String → List String → List String
set_insert h hs = if contains hs h then hs else h ∷ hs

abbrev pub with_record : ReplayGuard → String → PeerRecord → ReplayGuard
with_record g from r = record g { peers = insert from r g.peers }

-- The record after an acceptance: the mark advances and the set is cleared when `ts` is newer.
unfoldable pub advance : PeerRecord → ℤ → String → PeerRecord
advance r ts body_hash =
    if ltb_ℤ r.high_water ts
    then record { high_water = ts; at_water = set_insert body_hash [] }
    else record r { at_water = set_insert body_hash r.at_water }

-- `ReplayGuard::accept`. A refusal for replay leaves the entry that `or_default` made.
unfoldable pub accept :
    ReplayGuard → String → ℤ → String → ℤ → Result (Unit {0}) ReplayError × ReplayGuard
accept g from ts body_hash now =
    if ltb_ℤ ts (sub_i64 now g.window.back_ms)
    then (err (stale ts now g.window.back_ms), g)
    else if ltb_ℤ (add_i64 now g.window.ahead_ms) ts
    then (err (future ts now g.window.ahead_ms), g)
    else let r = entry_or_default g from in
      if ltb_ℤ ts r.high_water
      then (err (replay from ts), with_record g from r)
      else if eqb_ℤ ts r.high_water && contains r.at_water body_hash
      then (err (replay from ts), with_record g from r)
      else (ok tt, with_record g from (advance r ts body_hash))

-- One call of `accept`, and the guard after a run of them, whatever each answered.
pub record Call : Type 0 where
  pub from : String
  pub ts : ℤ
  pub body_hash : String
  pub now : ℤ

abbrev pub call : ReplayGuard → Call → Result (Unit {0}) ReplayError × ReplayGuard
call g c = accept g c.from c.ts c.body_hash c.now

unfoldable pub run : ReplayGuard → List Call → ReplayGuard
run g [] = g
run g (c ∷ cs) = run (call g c).1 cs
