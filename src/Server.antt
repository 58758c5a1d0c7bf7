-- ===== src/Server.antt =====
-- net/src/relay.rs: `RelayServer`, the state that the server keeps and what it does with a frame that is
-- addressed to it. The locks are not modelled: the calls come one after another. What a call writes to a
-- session, and what it hands to the sinks (which a deployment with a chain wires), is told as a list of
-- effects in order. A call that signs reads the clock once more, at `stamp`. The proofs are in the
-- modules below.
pub mod Transitions
pub mod Judged
pub mod KeyLog
pub mod Consistent
mod Examples
use riscdom.Sessions
use riscdom.Online
use riscdom.Witness
use riscdom.Replay
use riscdom.Prelude.{
  Bool, List, Map, Option, Result, String, [], any, contains, err, false, if◌then◌else◌, insert,
  is_some, length, lookup, ltb, map, none, ok, some, str_eq, true, unwrap_or, ℕ, ◌&&◌, ◌++◌, ◌∷◌,
}
use riscdom.Prelude.Int.{add_i64, eqb_ℤ, pos, ℤ}
use riscdom.Json.{Json, JsonLists}
use riscdom.Replay.{ReplayGuard}
use riscdom.Peers.{PeerKeys, PeersError, PeersFile, entry, peer_keys}
use riscdom.Rooms.{RoomProblem, RoomsFile, check_rooms}
use riscdom.Frames.{
  ChainDigest, KeyEvent, Local, address_answer_body, addresses, digest, heartbeat, hello, key_event,
  key_event_log, reachable_report, registered_body, registering, registry, unreachable_report,
  unrecognised,
}
use riscdom.Sessions.{SessionTable, address_of, bind, unbind}
use riscdom.Sign.{World, sign, to_line}
use riscdom.Routing.{Push, RelayError, Routed, Write, forward_to, malformed, route}
use riscdom.Discovery.{Codec, Registry, registry_to_body}
use riscdom.Online.{
  Online, OnlineEntry, OnlineTable, beat, clear_judged, heard_from, is_online, mark_judged,
  register,
}
use riscdom.Witness.{Judgement, WitnessTable, judge, record_report}

abbrev pub first_generation : ℤ
first_generation = pos 1

pub data RecoverMethod : Type 0 where
  by_heartbeat by_probe : RecoverMethod

pub data Transition : Type 0 where
  judged : Judgement → Transition
  recovered : (peer : String) (how : RecoverMethod) → Transition

pub data LocalReply : Type 0 where
  silent unrecognised_frame : LocalReply
  registered : (node_id : String) (fresh : Bool) → LocalReply
  beat_taken unplaced : (node_id : String) → LocalReply
  digest_taken : (node_id : String) (length : ℕ) → LocalReply
  key_event_taken : (node_id action : String) → LocalReply
  unreachable_reported reachable_reported : (peer : String) → LocalReply
  addresses_sent : (known : List String) → LocalReply
  registry_sent : (generation : ℤ) → LocalReply

-- What a call writes, and what it hands to the sinks.
pub data Effect : Type 0 where
  pushed : Push → Effect
  fired : Transition → Effect
  digest_received : (node_id : String) → ChainDigest → Effect

pub data ServerError : Type 0 where
  unusable_peers : PeersError → ServerError
  unusable_rooms : RoomProblem → ServerError

pub record RelayServer (V : Type 0) (Key : Type 0) : Type 0 where
  pub node_id : String
  pub peers : PeersFile V
  pub keys : PeerKeys Key
  pub rooms : RoomsFile
  pub generation : ℤ
  pub guard : ReplayGuard
  pub sessions : SessionTable
  pub online : OnlineTable
  pub witnesses : WitnessTable
  pub digests : Map ChainDigest
  pub key_events : Map (List (KeyEvent V))

-- `while log.len() > KEY_EVENT_LOG { log.pop_front(); }`.
unfoldable pub drop_oldest : {A : Type 0} → List A → List A
drop_oldest [] = []
drop_oldest (x ∷ xs) = if ltb key_event_log (length (x ∷ xs)) then drop_oldest xs else x ∷ xs

abbrev pub same_event : {V : Type 0} → KeyEvent V → KeyEvent V → Bool
same_event event held = str_eq held.action event.action && eqb_ℤ held.at_ms event.at_ms

unfoldable pub keep_event : {V : Type 0} → KeyEvent V → List (KeyEvent V) → List (KeyEvent V)
unfolding drop_oldest
keep_event event log = if any (same_event event) log then log else drop_oldest (log ++ event ∷ [])

-- The addresses that are not known yet are pushed behind those that are.
unfoldable pub add_addresses : List String → List String → List String
add_addresses known [] = known
add_addresses known (address ∷ more) =
    add_addresses (if contains known address then known else known ++ address ∷ []) more

-- `judge`: the effect that a new judgement has, and the table with its mark.
unfoldable pub mark_judgement : Option Judgement → ℤ → OnlineTable → List Effect × OnlineTable
mark_judgement none now online = ([], online)
mark_judgement (some j) now online =
    let (marked, online') = mark_judged online j.peer now in
    (if marked then fired (judged j) ∷ [] else [], online')

-- What clears a judgement, with the effect of the recovery if one had held.
abbrev pub recovery : Option ℤ → String → RecoverMethod → List Effect
recovery none peer how = []
recovery (some at) peer how = fired (recovered peer how) ∷ []

-- After a report of life: the judgement is cleared, and the row refreshed if one had held.
unfoldable pub hear : OnlineTable → String → ℤ → List Effect × OnlineTable
hear online peer now =
    let (held, cleared) = clear_judged online peer in
    (recovery held peer by_probe, if is_some held then (heard_from cleared peer now).1 else cleared)

module _ {V : Type 0} {Key : Type 0} where
  unfoldable pub addresses_for : RelayServer V Key → String → List String
  unfolding add_addresses
  addresses_for s node_id =
      let known : List String = elim (address_of s.sessions node_id) [
        | none ↦ []
        | some address ↦ address ∷ []
      ] in
      elim (entry s.peers node_id) [ none ↦ known | some e ↦ add_addresses known e.addresses ]

  unfoldable pub registry_of : RelayServer V Key → Registry V
  registry_of s = record {
    table = record { generation = s.generation; entries = s.peers.peers };
    rooms = s.rooms;
  }

  pub digest_of : RelayServer V Key → String → Option ChainDigest
  digest_of s node_id = lookup node_id s.digests

  unfoldable pub key_events_of : RelayServer V Key → String → List (KeyEvent V)
  key_events_of s node_id = unwrap_or (lookup node_id s.key_events) []

  pub online_rows_at : RelayServer V Key → ℤ → List OnlineEntry
  online_rows_at s now = Online.rows s.online now

  unfoldable pub judge_subject : RelayServer V Key → String → ℤ → List Effect × RelayServer V Key
  unfolding mark_judgement
  judge_subject s subject now =
      let judgement = judge s.witnesses subject now (λ witness. is_online s.online witness now) in
      let (effects, online) = mark_judgement judgement now s.online in
      (effects, record s { online = online })

  unfoldable pub take_heartbeat :
      RelayServer V Key → String → ℤ → LocalReply × List Effect × RelayServer V Key
  take_heartbeat s from now =
      let (landed, online) = beat s.online from now in
      let (held, cleared) = clear_judged online from in
      if landed
      then (beat_taken from, recovery held from by_heartbeat, record s { online = cleared })
      else (unplaced from, [], record s { online = online })

  unfoldable pub take_key_event : RelayServer V Key → String → KeyEvent V → RelayServer V Key
  unfolding keep_event
  take_key_event s from event = record s {
    key_events =
        insert from (keep_event event (unwrap_or (lookup from s.key_events) [])) s.key_events;
  }

  -- A report is recorded, and then the threshold is read again, or the judgement cleared.
  unfoldable pub take_report :
      RelayServer V Key → String → String → Bool → ℤ → List Effect × RelayServer V Key
  unfolding judge_subject hear
  take_report s from node_id false now =
      judge_subject (record s { witnesses = record_report s.witnesses from node_id false now })
        node_id now
  take_report s from node_id true now =
      let (effects, online) = hear s.online node_id now in
      (
        effects,
        record s { witnesses = record_report s.witnesses from node_id true now; online = online },
      )

-- A call on the server, and a run of calls: what they do, and the server after them. A connection that
-- is bound or retired is a call too.
pub data Call (V : Type 0) : Type 0 where
  answering : Write → (stamp : ℤ) (from : String) → Local V → (now : ℤ) → Call V
  routing : Write → (frame : String) (now : ℤ) → Call V
  publishing_peers : PeersFile V → Call V
  publishing_rooms : RoomsFile → Call V
  binding : (node_id addr : String) → Call V
  unbinding : (node_id : String) (id : ℕ) → Call V

module _ {V : Type 0} {Key : Type 0} ⦃json : Json V⦄ ⦃lists : JsonLists V⦄ (codec : Codec V)
    (world : World V Key) where
  unfoldable pub new_server :
      String → PeersFile V → RoomsFile → Result (RelayServer V Key) ServerError
  new_server node_id peers rooms = elim (peer_keys world.keys peers) [
    | err problem ↦ err (unusable_peers problem)
    | ok keys ↦ elim (check_rooms rooms.rooms) [
      | err problem ↦ err (unusable_rooms problem)
      | ok done ↦ ok (record {
        node_id = node_id;
        peers = peers;
        keys = keys;
        rooms = rooms;
        generation = first_generation;
        guard = Replay.new;
        sessions = Sessions.new;
        online = Online.new;
        witnesses = Witness.new;
        digests = [];
        key_events = [];
      })
    ]
  ]

  unfoldable pub set_peers :
      PeersFile V → RelayServer V Key → Result (Unit {0}) PeersError × RelayServer V Key
  set_peers peers s = elim (peer_keys world.keys peers) [
    | err problem ↦ (err problem, s)
    | ok keys ↦
        (ok tt, record s { peers = peers; keys = keys; generation = add_i64 s.generation (pos 1) })
  ]

  unfoldable pub set_rooms :
      RoomsFile → RelayServer V Key → Result (Unit {0}) RoomProblem × RelayServer V Key
  set_rooms rooms s = elim (check_rooms rooms.rooms) [
    | err problem ↦ (err problem, s)
    | ok done ↦ (ok tt, record s { rooms = rooms; generation = add_i64 s.generation (pos 1) })
  ]

  unfoldable pub send_to : Write → ℤ → RelayServer V Key → String → V → Result Push RelayError
  send_to write stamp s node_id body = elim (sign world s.node_id node_id stamp body) [
    | err problem ↦ err (malformed problem)
    | ok message ↦ elim (to_line world message) [
      | err problem ↦ err (malformed problem)
      | ok frame ↦ forward_to write s.sessions node_id frame
    ]
  ]

  -- The answer to a question, once what it tells was sent.
  abbrev pub sent : Result Push RelayError → LocalReply → Result LocalReply RelayError × List Effect
  sent (err problem) reply = (err problem, [])
  sent (ok push) reply = (ok reply, pushed push ∷ [])

  unfoldable pub answer_local :
      Write
      → ℤ
      → String
      → Local V
      → ℤ
      → RelayServer V Key
      → Result LocalReply RelayError × List Effect × RelayServer V Key
  unfolding take_heartbeat take_report take_key_event registry_of addresses_for
  answer_local write stamp from hello now s = (ok silent, [], s)
  answer_local write stamp from (unrecognised body) now s = (ok unrecognised_frame, [], s)
  answer_local write stamp from (registering claims) now s =
      let (fresh, online) = register s.online from claims now in
      let s' : RelayServer V Key = record s { online = online } in
      let (reply, effects) =
        sent (send_to write stamp s' from registered_body) (registered from fresh) in
      (reply, effects, s')
  answer_local write stamp from heartbeat now s =
      let (reply, effects, s') = take_heartbeat s from now in (ok reply, effects, s')
  answer_local write stamp from (digest chain length) now s =
      let taken : ChainDigest = record { chain = chain; length = length } in
      (
        ok (digest_taken from length),
        digest_received from taken ∷ [],
        record s { digests = insert from taken s.digests },
      )
  answer_local write stamp from (key_event at_ms action detail) now s = (
    ok (key_event_taken from action),
    [],
    take_key_event s from (record { at_ms = at_ms; action = action; detail = detail }),
  )
  answer_local write stamp from (unreachable_report node_id) now s =
      let (effects, s') = take_report s from node_id false now in
      (ok (unreachable_reported node_id), effects, s')
  answer_local write stamp from (reachable_report node_id) now s =
      let (effects, s') = take_report s from node_id true now in
      (ok (reachable_reported node_id), effects, s')
  answer_local write stamp from (addresses node_id) now s =
      let known = addresses_for s node_id in
      let (reply, effects) =
        sent (send_to write stamp s from (address_answer_body known)) (addresses_sent known) in
      (reply, effects, s)
  answer_local write stamp from registry now s =
      let body = registry_to_body codec world.keys (registry_of s) in
      let (reply, effects) = sent (send_to write stamp s from body) (registry_sent s.generation) in
      (reply, effects, s)

  -- `RelayServer::route`.
  unfoldable pub route_frame :
      Write
      → String
      → ℤ
      → RelayServer V Key
      → Result (Routed V) RelayError × List Effect × RelayServer V Key
  route_frame write frame now s =
      let (answer, pushes, guard) =
        route world frame s.node_id s.peers s.keys s.guard (forward_to write s.sessions) now in
      (answer, map pushed pushes, record s { guard = guard })

  unfoldable pub step : RelayServer V Key → Call V → List Effect × RelayServer V Key
  unfolding route_frame set_peers set_rooms
  step s (answering write stamp from action now) =
      let (reply, effects, s') = answer_local write stamp from action now s in (effects, s')
  step s (routing write frame now) =
      let (answer, effects, s') = route_frame write frame now s in (effects, s')
  step s (publishing_peers peers) = ([], (set_peers peers s).1)
  step s (publishing_rooms rooms) = ([], (set_rooms rooms s).1)
  step s (binding node_id addr) = ([], record s { sessions = (bind s.sessions node_id addr).1 })
  step s (unbinding node_id id) = ([], record s { sessions = (unbind s.sessions node_id id).1 })

  unfoldable pub run : RelayServer V Key → List (Call V) → List Effect × RelayServer V Key
  run s [] = ([], s)
  run s (c ∷ cs) =
      let (effects, s') = step s c in let (later, last) = run s' cs in (effects ++ later, last)
