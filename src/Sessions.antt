-- ===== src/Sessions.antt =====
-- net/src/relay.rs: `SessionTable`, who is dialled in, and the part of `serve_connection` that binds a
-- connection and retires it. The socket of a session is known by the session's id. The proofs are in
-- the module below.
pub mod Newest
mod Examples
use riscdom.Prelude.{
  Bool, List, Map, Option, String, [], false, if◌then◌else◌, insert, is_some, length, lookup, none,
  remove, some, suc, true, zero, ℕ, ◌%◌, ◌++◌, ◌+◌, ◌==◌, ◌^◌, ◌∷◌,
}

pub record Live : Type 0 where
  pub id : ℕ
  pub addr : String

pub record SessionTable : Type 0 where
  pub sessions : Map Live
  -- An `AtomicU64`, which wraps.
  pub next_id : ℕ

abbrev pub new : SessionTable
new = record { sessions = []; next_id = 0 }

unfoldable pub bind : SessionTable → String → String → ℕ × SessionTable
bind t node_id addr = (
  t.next_id,
  record {
    sessions = insert node_id (record { id = t.next_id; addr = addr }) t.sessions;
    next_id = (t.next_id + 1) % 2 ^ 64;
  },
)

unfoldable pub unbind : SessionTable → String → ℕ → Bool × SessionTable
unbind t node_id id = elim (lookup node_id t.sessions) [
  | none ↦ (false, t)
  | some live ↦
      if live.id == id
      then (true, record t { sessions = remove node_id t.sessions })
      else (false, t)
]

unfoldable pub is_present : SessionTable → String → Bool
is_present t node_id = is_some (lookup node_id t.sessions)

unfoldable pub address_of : SessionTable → String → Option String
address_of t node_id = elim (lookup node_id t.sessions) [ none ↦ none | some live ↦ some live.addr ]

pub len : SessionTable → ℕ
len t = length t.sessions

pub is_empty : SessionTable → Bool
unfolding len
is_empty t = len t == 0

-- The connections that were bound, in order, each with what it retires itself with.
pub record Connections : Type 0 where
  pub table : SessionTable
  pub bound : List (String × ℕ)

abbrev pub no_connections : Connections
no_connections = record { table = new; bound = [] }

-- A connection is bound when its first frame authenticates; later its loop ends, and it retires
-- itself. Any number of connections are served at once, so their events come in any order.
pub data Event : Type 0 where
  opened : (node_id addr : String) → Event
  ended : (connection : ℕ) → Event

abbrev pub get_elem? {ℓ} : {A : Type ℓ} → List A → ℕ → Option A
get_elem? [] i = none
get_elem? (x ∷ xs) zero = some x
get_elem? (x ∷ xs) (suc i) = get_elem? xs i

unfoldable pub serve : Connections → Event → Connections
unfolding bind unbind
serve c (opened node_id addr) =
    let (id, table) = bind c.table node_id addr in
    record { table = table; bound = c.bound ++ (node_id, id) ∷ [] }
serve c (ended connection) = elim (get_elem? c.bound connection) [
  | none ↦ c
  | some (node_id, id) ↦ record c { table = (unbind c.table node_id id).1 }
]

unfoldable pub serve_all : Connections → List Event → Connections
serve_all c [] = c
serve_all c (e ∷ es) = serve_all (serve c e) es
