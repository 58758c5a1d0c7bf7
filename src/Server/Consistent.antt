-- ===== src/Server/Consistent.antt =====
-- What a server publishes is what it routes by, and can be read (net/src/relay.rs, net/src/registry.rs).
use riscdom.Prelude.{List, Result-cases, String, [], arith, inl, inr, ok, refl, ◌∷◌, ◌≡◌}
use riscdom.Prelude.Int.{InI64, add_i64, pos, wrap_i64-InI64, ℤ, ◌+ℤ◌}
use riscdom.Prelude.Text.{codes}
use riscdom.Json.{Json, JsonLists, ObjectLaws}
use riscdom.Peers.{
  PeerEntry, PeerKeys, PeersFile, collect_keys, insert_keys, no_keys, peer_keys, verifying_key,
}
use riscdom.Rooms.{RoomsFile, check_rooms}
use riscdom.Frames.{Local, heartbeat}
use riscdom.Sign.{World}
use riscdom.Routing.{Write}
use riscdom.Discovery.{Codec, Registry, registry_from_body, registry_to_body}
use riscdom.Discovery.Published.{CodecLaws, HasKeys, registry_from_body-registry_to_body}
use riscdom.Server.{
  Call, RelayServer, answer_local, answering, binding, judge_subject, new_server, publishing_peers,
  publishing_rooms, registry_of, routing, run, step, take_heartbeat, take_report, unbinding,
}

module _ {V : Type 0} {Key : Type 0} ⦃json : Json V⦄ ⦃lists : JsonLists V⦄ (codec : Codec V)
    (world : World V Key) where
  -- The keys in force are those of the table, the rooms are usable, and the generation is an `i64`.
  pub record IsConsistent (s : RelayServer V Key) : Type 0 where
    pub derived : peer_keys world.keys s.peers ≡ ok s.keys
    pub usable : check_rooms s.rooms.rooms ≡ ok tt
    pub number : InI64 s.generation

  new_server-IsConsistent :
      (node_id : String) (peers : PeersFile V) (rooms : RoomsFile) (s : RelayServer V Key)
      → new_server codec world node_id peers rooms ≡ ok s
      → IsConsistent s
  unfolding new_server
  new_server-IsConsistent node_id peers rooms s h =
      elim (Result-cases (peer_keys world.keys peers)) [
        | inl (keys, k) ↦ elim (Result-cases (check_rooms rooms.rooms)) [
          | inl (done, r) ↦ record {
            derived = ground (arith, h, k, r);
            usable = ground (arith, h, k, r);
            number = ground (arith, h, k, r);
          }
          | inr (why, r) ↦ absurd (ground (arith, h, k, r))
        ]
        | inr (why, k) ↦ absurd (ground (arith, h, k))
      ]

  advanced : (n : ℤ) → InI64 (add_i64 n (pos 1))
  unfolding add_i64
  advanced n = wrap_i64-InI64 (n +ℤ pos 1)

  same-IsConsistent :
      (s s' : RelayServer V Key)
      → IsConsistent s
      → s'.peers ≡ s.peers
      → s'.keys ≡ s.keys
      → s'.rooms ≡ s.rooms
      → s'.generation ≡ s.generation
      → IsConsistent s'
  same-IsConsistent s s' c p k r g = record {
    derived = rw (p, k) c.derived;
    usable = rw r c.usable;
    number = rw g c.number;
  }

  answer-IsConsistent :
      (s : RelayServer V Key) (write : Write) (stamp : ℤ) (from : String) (action : Local V)
      (now : ℤ)
      → IsConsistent s
      → IsConsistent (answer_local codec world write stamp from action now s).2
  unfolding answer_local take_heartbeat take_report judge_subject
  answer-IsConsistent s write stamp from heartbeat now c =
      same-IsConsistent s _ c (ground arith) (ground arith) (ground arith) (ground arith)
  answer-IsConsistent s write stamp from _ now c = same-IsConsistent s _ c refl refl refl refl

  step-IsConsistent :
      (s : RelayServer V Key) (c : Call V) → IsConsistent s → IsConsistent (step codec world s c).1
  unfolding step
  step-IsConsistent s (answering write stamp from action now) c =
      answer-IsConsistent s write stamp from action now c
  step-IsConsistent s (routing write frame now) c = same-IsConsistent s _ c refl refl refl refl
  step-IsConsistent s (publishing_peers peers) c =
      elim (Result-cases (peer_keys world.keys peers)) [
        | inl (keys, k) ↦ record {
          derived = ground (arith, k);
          usable = ground (arith, k, c.usable);
          number = ground (arith, k, advanced s.generation);
        }
        | inr (why, k) ↦
            same-IsConsistent s _ c (ground (arith, k)) (ground (arith, k)) (ground (arith, k))
              (ground (arith, k))
      ]
  step-IsConsistent s (publishing_rooms rooms) c = elim (Result-cases (check_rooms rooms.rooms)) [
    | inl (done, r) ↦ record {
      derived = ground (arith, r, c.derived);
      usable = ground (arith, r);
      number = ground (arith, r, advanced s.generation);
    }
    | inr (why, r) ↦
        same-IsConsistent s _ c (ground (arith, r)) (ground (arith, r)) (ground (arith, r))
          (ground (arith, r))
  ]
  step-IsConsistent s (binding node_id addr) c = same-IsConsistent s _ c refl refl refl refl
  step-IsConsistent s (unbinding node_id id) c = same-IsConsistent s _ c refl refl refl refl

  run-IsConsistent :
      (cs : List (Call V)) (s : RelayServer V Key)
      → IsConsistent s
      → IsConsistent (run codec world s cs).1
  unfolding run
  run-IsConsistent [] s c = c
  run-IsConsistent (call ∷ cs) s c =
      run-IsConsistent cs (step codec world s call).1 (step-IsConsistent s call c)

  collect_keys-HasKeys :
      (es : List (PeerEntry V)) (keys keys' : PeerKeys Key)
      → collect_keys world.keys es keys ≡ ok keys'
      → HasKeys world.keys es
  unfolding collect_keys
  collect_keys-HasKeys [] keys keys' h = tt
  collect_keys-HasKeys (e ∷ es) keys keys' h = elim (Result-cases (verifying_key world.keys e)) [
    | inl (key, k) ↦ (
      (key, k),
      collect_keys-HasKeys es (insert_keys keys e.node_id (key ∷ [])) keys' (ground (arith, h, k)),
    )
    | inr (why, k) ↦ absurd (ground (arith, h, k))
  ]

  -- What a node reads of what the server publishes: the version of the rooms is the node's own.
  abbrev pub read_registry : RelayServer V Key → Registry V
  read_registry s = record {
    table = (registry_of s).table;
    rooms = record { schema_version = 1; rooms = s.rooms.rooms };
  }

  -- Of a server that was made with a table and rooms, whatever calls are made on it: the keys by which
  -- it authenticates are those of the table that it routes by, and what it hands out as its registry
  -- is read by a node as that table, with its generation, and those rooms.
  pub run-registry :
      (node_id : String) (peers : PeersFile V) (rooms : RoomsFile) (s : RelayServer V Key)
      (cs : List (Call V))
      → ObjectLaws json lists
      → CodecLaws codec
      → new_server codec world node_id peers rooms ≡ ok s
      → let s' = (run codec world s cs).1 in
        (peer_keys world.keys s'.peers ≡ ok s'.keys)
        × (registry_from_body codec world.keys (registry_to_body codec world.keys (registry_of s'))
            ≡ ok (read_registry s'))
  unfolding peer_keys registry_to_body registry_of
  run-registry node_id peers rooms s cs laws codes made =
      let s' = (run codec world s cs).1 in
      let c = run-IsConsistent cs s (new_server-IsConsistent node_id peers rooms s made) in
      (
        c.derived,
        registry_from_body-registry_to_body codec world.keys laws codes (read_registry s')
            (collect_keys-HasKeys s'.peers.peers no_keys s'.keys c.derived) c.number c.usable refl,
      )
