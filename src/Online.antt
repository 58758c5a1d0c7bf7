-- ===== src/Online.antt =====
-- net/src/relay.rs: `OnlineTable`, the server's table of the nodes that have registered. The lock
-- around the rows is not modelled: each operation holds it from its first read to its last. The
-- proofs are in the modules below.
pub mod Presence
mod Examples
use riscdom.Prelude.{
  Bool, List, Map, Option, String, [], false, if◌then◌else◌, insert, is_some, length, lookup, map,
  none, some, str_eq, str_lt, true, ℕ, ◌*◌, ◌+◌, ◌==◌, ◌∷◌,
}
use riscdom.Prelude.Int.{leb_ℤ, pos, sub_i64, ℤ}

abbrev pub online_window_ms : ℤ
online_window_ms = pos (3 * 15_000)

pub record Registration : Type 0 where
  pub addresses : List String
  pub capabilities : List String
  pub rooms : List String

unfoldable pub in_rooms : List String → Registration
in_rooms rooms = record { addresses = []; capabilities = []; rooms = rooms }

pub data Online : Type 0 where
  online offline : Online

unfoldable pub as_str : Online → String
as_str online = "online"
as_str offline = "offline"

-- `state == Online::Online`.
abbrev pub is_word_online : Online → Bool
is_word_online online = true
is_word_online offline = false

pub record OnlineEntry : Type 0 where
  pub node_id : String
  pub addresses : List String
  pub capabilities : List String
  pub rooms : List String
  pub last_heartbeat_ms : ℤ
  pub judged_at_ms : Option ℤ
  pub state : Online

pub record Row : Type 0 where
  pub addresses : List String
  pub capabilities : List String
  pub rooms : List String
  pub last_heartbeat_ms : ℤ
  pub judged_at_ms : Option ℤ

pub record OnlineTable : Type 0 where
  pub nodes : Map Row

abbrev pub new : OnlineTable
new = record { nodes = [] }

-- What is written through `get_mut`.
abbrev pub with_row : OnlineTable → String → Row → OnlineTable
with_row t node_id row = record { nodes = insert node_id row t.nodes }

unfoldable pub register : OnlineTable → String → Registration → ℤ → Bool × OnlineTable
register t node_id claims now = elim (lookup node_id t.nodes) [
  | some row ↦ (
    false,
    with_row t node_id (record row {
      addresses = claims.addresses;
      capabilities = claims.capabilities;
      rooms = claims.rooms;
      last_heartbeat_ms = now;
    }),
  )
  | none ↦ (
    true,
    with_row t node_id (record {
      addresses = claims.addresses;
      capabilities = claims.capabilities;
      rooms = claims.rooms;
      last_heartbeat_ms = now;
      judged_at_ms = none;
    }),
  )
]

unfoldable pub beat : OnlineTable → String → ℤ → Bool × OnlineTable
beat t node_id now = elim (lookup node_id t.nodes) [
  | some row ↦ (true, with_row t node_id (record row { last_heartbeat_ms = now }))
  | none ↦ (false, t)
]

unfoldable pub state_of : ℤ → ℤ → Online
state_of last_heartbeat_ms now =
    if leb_ℤ (sub_i64 now last_heartbeat_ms) online_window_ms then online else offline

unfoldable pub entry_of : ℤ → String × Row → OnlineEntry
unfolding state_of
entry_of now (node_id, row) = record {
  node_id = node_id;
  addresses = row.addresses;
  capabilities = row.capabilities;
  rooms = row.rooms;
  last_heartbeat_ms = row.last_heartbeat_ms;
  judged_at_ms = row.judged_at_ms;
  state = state_of row.last_heartbeat_ms now;
}

-- `sort_by` on the name of the node: stable, so an entry stays in front of its equals.
unfoldable pub insert_entry : OnlineEntry → List OnlineEntry → List OnlineEntry
insert_entry e [] = e ∷ []
insert_entry e (x ∷ xs) = if str_lt x.node_id e.node_id then x ∷ insert_entry e xs else e ∷ x ∷ xs

unfoldable pub sort_entries : List OnlineEntry → List OnlineEntry
unfolding insert_entry
sort_entries [] = []
sort_entries (e ∷ es) = insert_entry e (sort_entries es)

unfoldable pub rows : OnlineTable → ℤ → List OnlineEntry
unfolding sort_entries entry_of
rows t now = sort_entries (map (entry_of now) t.nodes)

-- `find` on the name of the node.
unfoldable pub find_entry : String → List OnlineEntry → Option OnlineEntry
find_entry node_id [] = none
find_entry node_id (e ∷ es) = if str_eq e.node_id node_id then some e else find_entry node_id es

unfoldable pub row : OnlineTable → String → ℤ → Option OnlineEntry
unfolding find_entry rows
row t node_id now = find_entry node_id (rows t now)

unfoldable pub len : OnlineTable → ℕ
len t = length t.nodes

unfoldable pub is_empty : OnlineTable → Bool
unfolding len
is_empty t = len t == 0

unfoldable pub count_online : List OnlineEntry → ℕ
count_online [] = 0
count_online (e ∷ es) = (if is_word_online e.state then 1 else 0) + count_online es

unfoldable pub online_at : OnlineTable → ℤ → ℕ
unfolding count_online rows
online_at t now = count_online (rows t now)

unfoldable pub is_online : OnlineTable → String → ℤ → Bool
unfolding row
is_online t node_id now = elim (row t node_id now) [
  | none ↦ false
  | some e ↦ is_word_online e.state
]

unfoldable pub mark_judged : OnlineTable → String → ℤ → Bool × OnlineTable
mark_judged t node_id now = elim (lookup node_id t.nodes) [
  | none ↦ (false, t)
  | some row ↦
      if is_some row.judged_at_ms
      then (false, t)
      else (true, with_row t node_id (record row { judged_at_ms = some now }))
]

unfoldable pub clear_judged : OnlineTable → String → Option ℤ × OnlineTable
clear_judged t node_id = elim (lookup node_id t.nodes) [
  | none ↦ (none, t)
  | some row ↦ (row.judged_at_ms, with_row t node_id (record row { judged_at_ms = none }))
]

unfoldable pub heard_from : OnlineTable → String → ℤ → Bool × OnlineTable
heard_from t node_id now = elim (lookup node_id t.nodes) [
  | some row ↦ (true, with_row t node_id (record row { last_heartbeat_ms = now }))
  | none ↦ (false, t)
]

-- A call on the table, and the table after a run of them, whatever each answered.
pub data Call : Type 0 where
  registering : String → Registration → ℤ → Call
  beating hearing judging : String → ℤ → Call
  clearing : String → Call

unfoldable pub step : OnlineTable → Call → OnlineTable
step t (registering node_id claims now) = (register t node_id claims now).1
step t (beating node_id now) = (beat t node_id now).1
step t (hearing node_id now) = (heard_from t node_id now).1
step t (judging node_id now) = (mark_judged t node_id now).1
step t (clearing node_id) = (clear_judged t node_id).1

unfoldable pub run : OnlineTable → List Call → OnlineTable
run t [] = t
run t (c ∷ cs) = run (step t c) cs
