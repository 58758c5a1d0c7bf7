-- ===== src/Routing/Examples.antt =====
-- One frame from a node to another, handed on and refused the second time (net/src/relay.rs).
use riscdom.Frames.Toy
use riscdom.Frames.Toy.{values, value_lists, Value, fields_of, field_get}
use riscdom.Replay
use riscdom.Routing.Carried.{IsCarried}
use riscdom.Prelude.{
  List, String, [], any, err, if◌then◌else◌, insert, lookup, ok, refl, some, str_eq, suc, zero, ℕ,
  ◌↔◌, ◌∷◌, ◌≡◌, ◌≢◌,
}
use riscdom.Prelude.Int.{add_i64, pos, sub_i64, wrap_i64, ◌+ℤ◌, ◌-ℤ◌}
use riscdom.Prelude.Text.{trim}
use riscdom.Replay.{ReplayGuard, accept, advance}
use riscdom.Peers.{PeerEntry, PeerKeys, PeersFile, entry, keys_of, knows}
use riscdom.Frames.{hello, local_of, speaks}
use riscdom.Sessions.{Live, SessionTable}
use riscdom.Sign.{
  SignedMessage, World, authenticate_forwarded, check_identity, parse_line, replayed, verify_with,
}
use riscdom.Routing.{
  Arrival, Push, Write, arrive, arrive_all, forward_to, forwarded, frame_bytes, refused_frame,
  route, routed_local, take_local, to_server,
}
use riscdom.Routing.Carried.{route-forwarded_iff}
use riscdom.Routing.Once.{carried_once}

abbrev zeros : ℕ → List ℕ
zeros zero = []
zeros (suc n) = 0 ∷ zeros n

abbrev message : SignedMessage Value
message = record {
  v = 1;
  from = "edge";
  to = "kitchen";
  ts = pos 1000;
  body = values.object (("hello", Toy.num 1) ∷ []);
  sig = "signed";
}

-- The same body, as a greeting of the relay itself.
abbrev greeting : SignedMessage Value
greeting = record message { to = "centre" }

-- The two frames that can be read; a key is the name that it verifies.
abbrev world : World Value String
world = record {
  keys = record {
    decode = λ text. ok (zeros 64);
    key_of_bytes = λ bytes. ok "edge";
    verify_strict = λ key text bytes. str_eq key "edge";
  };
  sha256_hex = λ text. text;
  canonical_json = λ v. "canonical";
  read_message = λ line.
      if str_eq line "frame"
      then ok message
      else if str_eq line "greeting"
      then ok greeting
      else err "not a message";
  write_message = λ m. ok "frame";
  sign_text = ok (λ text. "signed");
}

abbrev kitchen : PeerEntry Value
kitchen = record {
  node_id = "kitchen";
  addresses = [];
  public_key = Toy.null;
  capabilities = [];
  rooms = [];
}

abbrev known : PeersFile Value
known = record { schema_version = 1; peers = kitchen ∷ [] }

abbrev edge_keys : PeerKeys String
edge_keys = record { by_node = ("edge", "edge" ∷ []) ∷ [] }

abbrev dialled_in : SessionTable
dialled_in = record {
  sessions = ("kitchen", record { id = 4; addr = "10.0.0.9:50000" }) ∷ [];
  next_id = 5;
}

abbrev takes_all : Write
takes_all session bytes = ok tt

abbrev push : Push
push = record { session = 4; bytes = "frame\n" }

abbrev arrival : Arrival world
arrival = record {
  frame = "frame\n";
  peers = known;
  keys = edge_keys;
  forwarder = forward_to takes_all dialled_in;
  now = pos 1500;
}

abbrev guard : ReplayGuard
guard = Replay.new

read : parse_line world "frame\n" ≡ ok message
unfolding parse_line trim
read = refl

handed_on :
    ((arrive world "centre" guard arrival).0 ≡ ok (forwarded "edge" "kitchen"))
    × ((arrive world "centre" guard arrival).1 ≡ push ∷ [])
unfolding route authenticate_forwarded check_identity parse_line trim knows keys_of entry forward_to
    accept lookup any verify_with sub_i64 add_i64 wrap_i64 ◌-ℤ◌ ◌+ℤ◌ insert advance
handed_on = (refl, refl)

route-forwarded_iff_example :
    ((route world "frame\n" "centre" known edge_keys guard
          (forward_to takes_all dialled_in)
          (pos 1500)).0
        ≡ ok (forwarded "edge" "kitchen"))
      × ((route world "frame\n" "centre" known edge_keys guard
            (forward_to takes_all dialled_in)
            (pos 1500)).1
          ≡ push ∷ [])
    ↔ (◌≡◌ {A = String} "edge" "edge")
      × (◌≡◌ {A = String} "kitchen" "kitchen")
      × IsCarried world "frame\n" "centre" known edge_keys guard
          (forward_to takes_all dialled_in)
          (pos 1500)
          message
      × ((live : Live) × (lookup "kitchen" dialled_in.sessions ≡ some live)
          × (takes_all live.id (frame_bytes "frame\n") ≡ ok tt)
          × (push ≡ record { session = live.id; bytes = frame_bytes "frame\n" }))
route-forwarded_iff_example =
    route-forwarded_iff world "frame\n" "centre" known edge_keys guard takes_all dialled_in
      (pos 1500) "edge" "kitchen" push message read

-- The second time, the frame is a replay; to a node that is not dialled in, there is no session.
refused_again :
    (arrive world "centre" (arrive world "centre" guard arrival).2 arrival).0
    ≡ err (refused_frame (replayed "edge" (pos 1000)))
unfolding route authenticate_forwarded check_identity parse_line trim knows keys_of entry forward_to
    accept lookup any verify_with sub_i64 add_i64 wrap_i64 ◌-ℤ◌ ◌+ℤ◌ insert advance
refused_again = refl

-- With the body of a greeting, the sender may still open a session by it.
abbrev greets : Arrival world
greets = record arrival { frame = "greeting" }

greeted :
    (arrive world "centre" (arrive world "centre" guard arrival).2 greets).0
    ≡ ok (to_server "edge" "centre" hello)
unfolding route take_local check_identity parse_line trim knows keys_of lookup any verify_with
    local_of fields_of field_get speaks
greeted = refl

read_greeting : parse_line world "greeting" ≡ ok greeting
unfolding parse_line trim
read_greeting = refl

no_greeting : routed_local {V = Value} (forwarded "edge" "kitchen") ≢ some hello
unfolding routed_local
no_greeting e = cc

carried_once_example : routed_local {V = Value} (to_server "edge" "centre" hello) ≡ some hello
carried_once_example =
    carried_once world "centre" guard arrival greets [] message greeting
      (forwarded "edge" "kitchen") (to_server "edge" "centre" hello) read read_greeting refl refl
      refl handed_on.0 no_greeting (unfold arrive_all in greeted)
