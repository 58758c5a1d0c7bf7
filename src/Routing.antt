-- ===== src/Routing.antt =====
-- net/src/relay.rs: `route`, and how a frame goes down a session (with `frame_bytes` of
-- net/src/transport.rs). A routed frame that goes out is told as the session that it was written to and
-- the text that was written; whether a socket takes the bytes is a parameter. The proofs are in the
-- modules below.
use Prim.Native.Char.{Char, code}
pub mod Carried
pub mod Once
mod Examples
use riscdom.Prelude.{
  Bool, List, Option, Result, String, [], err, false, if◌then◌else◌, is_some, lookup, none, not, ok,
  some, str_eq, true, ℕ, ◌==◌, ◌∷◌,
}
use riscdom.Prelude.Int.{ℤ}
use riscdom.Prelude.Text.{chars, concat}
use riscdom.Json.{Json, JsonLists}
use riscdom.Replay.{ReplayGuard}
use riscdom.Peers.{PeerKeys, PeersFile, entry}
use riscdom.Frames.{Local, hello, local_of}
use riscdom.Sessions.{SessionTable}
use riscdom.Sign.{
  Category, MessageError, SignedMessage, VerifyError, World, accept_message, authenticate_forwarded,
  category, check_identity, invalid, network, parse_line, refused,
}

-- A failed write; the errors of connecting and reading are not met here.
pub data TransportError : Type 0 where
  io_write : (why : String) → TransportError

pub data RelayError : Type 0 where
  malformed : MessageError → RelayError
  refused_frame : VerifyError → RelayError
  unknown_destination no_session : (node_id : String) → RelayError
  transport : TransportError → RelayError

-- `RelayError::category`; a failed write is of the network.
unfoldable pub relay_category : RelayError → Category
unfolding category
relay_category (malformed why) = invalid
relay_category (refused_frame problem) = category problem
relay_category (unknown_destination node_id) = refused
relay_category (no_session node_id) = refused
relay_category (transport problem) = network

pub data Routed (V : Type 0) : Type 0 where
  to_server : (from to : String) (action : Local V) → Routed V
  forwarded : (from to : String) → Routed V

unfoldable pub routed_from : {V : Type 0} → Routed V → String
routed_from (to_server from to action) = from
routed_from (forwarded from to) = from

pub routed_to : {V : Type 0} → Routed V → String
routed_to (to_server from to action) = to
routed_to (forwarded from to) = to

unfoldable pub routed_local : {V : Type 0} → Routed V → Option (Local V)
routed_local (to_server from to action) = some action
routed_local (forwarded from to) = none

pub was_forwarded : {V : Type 0} → Routed V → Bool
was_forwarded (to_server from to action) = false
was_forwarded (forwarded from to) = true

-- What was written, and to which session.
pub record Push : Type 0 where
  pub session : ℕ
  pub bytes : String

abbrev pub ends_with_newline : List Char → Bool
ends_with_newline [] = false
ends_with_newline (c ∷ []) = code c == 10
ends_with_newline (c ∷ d ∷ cs) = ends_with_newline (d ∷ cs)

unfoldable pub frame_bytes : String → String
frame_bytes frame = if ends_with_newline (chars frame) then frame else concat (frame ∷ "\n" ∷ [])

-- Whether the socket of a session takes these bytes; an error has the text of the system's.
abbrev pub Write : Type 0
Write = ℕ → String → Result (Unit {0}) String

unfoldable pub forward_to : Write → SessionTable → String → String → Result Push RelayError
unfolding frame_bytes
forward_to write sessions node_id frame = elim (lookup node_id sessions.sessions) [
  | none ↦ err (no_session node_id)
  | some live ↦ elim (write live.id (frame_bytes frame)) [
    | err why ↦ err (transport (io_write why))
    | ok done ↦ ok (record { session = live.id; bytes = frame_bytes frame })
  ]
]

abbrev pub is_greeting : {V : Type 0} → Local V → Bool
is_greeting hello = true
is_greeting action = false

module _ {V : Type 0} {Key : Type 0} ⦃json : Json V⦄ ⦃lists : JsonLists V⦄
    (world : World V Key) where
  -- The branch of a frame that is addressed to the server.
  unfoldable pub take_local :
      SignedMessage V → PeerKeys Key → ReplayGuard → ℤ → Result (Routed V) RelayError × ReplayGuard
  take_local m keys guard now = elim (check_identity world m keys) [
    | err problem ↦ (err (refused_frame problem), guard)
    | ok known ↦
        let action = local_of m.body in
        if is_greeting action
        then (ok (to_server m.from m.to action), guard)
        else let (answer, guard') = accept_message world m guard now in
          (
            elim answer [
              | err problem ↦ err (refused_frame problem)
              | ok fresh ↦ ok (to_server m.from m.to action)
            ],
            guard',
          )
  ]

  -- The branch of a frame that is addressed elsewhere, after its authentication.
  unfoldable pub carry :
      SignedMessage V
      → String
      → PeersFile V
      → (String → String → Result Push RelayError)
      → Result (Routed V) RelayError × List Push
  carry m frame peers forwarder =
      if not (is_some (entry peers m.to))
      then (err (unknown_destination m.to), [])
      else elim (forwarder m.to frame) [
        | err problem ↦ (err problem, [])
        | ok push ↦ (ok (forwarded m.from m.to), push ∷ [])
      ]

  -- The answer, what was written, and the guard after the call.
  unfoldable pub route_message :
      SignedMessage V
      → String
      → String
      → PeersFile V
      → PeerKeys Key
      → ReplayGuard
      → (String → String → Result Push RelayError)
      → ℤ
      → Result (Routed V) RelayError × List Push × ReplayGuard
  unfolding take_local carry
  route_message m frame server_node_id peers keys guard forwarder now =
      if str_eq m.to server_node_id
      then (let (answer, guard') = take_local m keys guard now in (answer, [], guard'))
      else let (answer, guard') = authenticate_forwarded world m keys guard now in
        elim answer [
          | err problem ↦ (err (refused_frame problem), [], guard')
          | ok known ↦
              let (outcome, pushed) = carry m frame peers forwarder in (outcome, pushed, guard')
        ]

  unfoldable pub route :
      String
      → String
      → PeersFile V
      → PeerKeys Key
      → ReplayGuard
      → (String → String → Result Push RelayError)
      → ℤ
      → Result (Routed V) RelayError × List Push × ReplayGuard
  unfolding route_message
  route frame server_node_id peers keys guard forwarder now = elim (parse_line world frame) [
    | err problem ↦ (err (malformed problem), [], guard)
    | ok m ↦ route_message m frame server_node_id peers keys guard forwarder now
  ]

  -- A frame that arrives, with what the server knows then, and the routing of a run of them by one
  -- guard, whatever each is answered.
  pub record Arrival : Type 0 where
    pub frame : String
    pub peers : PeersFile V
    pub keys : PeerKeys Key
    pub forwarder : String → String → Result Push RelayError
    pub now : ℤ

  abbrev pub arrive :
      String → ReplayGuard → Arrival → Result (Routed V) RelayError × List Push × ReplayGuard
  arrive me guard a = route a.frame me a.peers a.keys guard a.forwarder a.now

  unfoldable pub arrive_all : String → ReplayGuard → List Arrival → ReplayGuard
  arrive_all me guard [] = guard
  arrive_all me guard (a ∷ as') = arrive_all me (arrive me guard a).2 as'
