-- ===== src/Server/Examples.antt =====
-- A server with two nodes: a judgement, a recovery, and what it publishes (net/src/relay.rs).
use riscdom.Frames.Toy
use riscdom.Frames.Toy.{Value, values, value_lists, value_laws, field, end, obj, str, field_get}
use riscdom.Sessions
use riscdom.Online
use riscdom.Witness
use riscdom.Replay
use riscdom.Prelude.{
  Any, List, String, [], any, arith, err, insert, lookup, not, ok, refl, set_insert, suc, true,
  zero, ℕ, ◌↔◌, ◌∷◌, ◌≡◌,
}
use riscdom.Prelude.Int.{pos, sub_i64, wrap_i64, ◌-ℤ◌}
use riscdom.Peers.{PeerEntry, PeersFile, insert_keys, peer_keys, verifying_key}
use riscdom.Rooms.{RoomsFile, check_rooms}
use riscdom.Frames.{KeyEvent, Local, heartbeat, key_event, registering, unreachable_report}
use riscdom.Sign.{World, sign, to_line}
use riscdom.Routing.{Write, forward_to}
use riscdom.Discovery.{registry_from_body, registry_to_body}
use riscdom.Discovery.Toy.{codec, codec_laws}
use riscdom.Online.{
  Online, Registration, beat, clear_judged, entry_of, find_entry, is_online, mark_judged, online,
  register, sort_entries,
}
use riscdom.Witness.{Judgement, counts, judge, record_report}
use riscdom.Witness.Judge.{Counts, Lives}
use riscdom.Server.{
  Call, RelayServer, answer_local, answering, by_heartbeat, fired, judge_subject, judged,
  key_events_of, mark_judgement, new_server, recovered, registry_of, run, same_event, send_to, step,
}
use riscdom.Server.Transitions.{Alternates, holds_judged, run-Alternates, turns}
use riscdom.Server.Judged.{IsUnjudged, judged_iff, reports, testifies}
use riscdom.Server.KeyLog.{IsLog, run-IsLog}
use riscdom.Server.Consistent.{read_registry, run-registry}

abbrev zeros : ℕ → List ℕ
zeros zero = []
zeros (suc n) = 0 ∷ zeros n

abbrev world : World Value String
world = record {
  keys = record {
    decode = λ text. ok (zeros 32);
    key_of_bytes = λ bytes. ok "key";
    verify_strict = λ key text bytes. true;
  };
  sha256_hex = λ text. text;
  canonical_json = λ v. "canonical";
  read_message = λ line. err "not a message";
  write_message = λ m. ok "frame";
  sign_text = ok (λ text. "signed");
}

abbrev jwk : Value
jwk = obj (field "kty" (str "OKP") (field "crv" (str "Ed25519") (field "x" (str "abc") end)))

abbrev node : String → PeerEntry Value
node node_id = record {
  node_id = node_id;
  addresses = [];
  public_key = jwk;
  capabilities = [];
  rooms = [];
}

abbrev known : PeersFile Value
known = record { schema_version = 1; peers = node "dev-a" ∷ node "dev-b" ∷ [] }

abbrev rooms : RoomsFile
rooms = record { schema_version = 1; rooms = [] }

abbrev server : RelayServer Value String
server = record {
  node_id = "centre";
  peers = known;
  keys = record { by_node = ("dev-a", "key" ∷ []) ∷ ("dev-b", "key" ∷ []) ∷ [] };
  rooms = rooms;
  generation = pos 1;
  guard = Replay.new;
  sessions = Sessions.new;
  online = Online.new;
  witnesses = Witness.new;
  digests = [];
  key_events = [];
}

made : new_server codec world "centre" known rooms ≡ ok server
unfolding new_server peer_keys check_rooms insert_keys insert verifying_key field_get
made = refl

abbrev fails : Write
fails session bytes = err "closed"

abbrev claims : Registration
claims = record { addresses = []; capabilities = []; rooms = [] }

abbrev says : String → Local Value → ℕ → Call Value
says from action now = answering fails (pos now) from action (pos now)

abbrev registered_both : List (Call Value)
registered_both =
    says "dev-a" (registering claims) 1000 ∷ says "dev-b" (registering claims) 1000 ∷ []

abbrev calls : List (Call Value)
calls =
    says "dev-a" (unreachable_report "dev-b") 2000
    ∷ says "dev-a" (unreachable_report "dev-b") 3000
    ∷ says "dev-b" heartbeat 4000
    ∷ []

abbrev running : RelayServer Value String
running = (run codec world server registered_both).1

abbrev gone : Judgement
gone = record { peer = "dev-b"; witnesses = "dev-a" ∷ []; reports = 1 }

-- The second report tells nothing new, and the beat of the node is its recovery.
told :
    (run codec world running calls).0
    ≡ fired (judged gone) ∷ fired (recovered "dev-b" by_heartbeat) ∷ []
unfolding run step answer_local send_to sign to_line forward_to register beat clear_judged
    mark_judged mark_judgement judge_subject judge counts record_report is_online find_entry
    sort_entries entry_of set_insert insert lookup sub_i64 wrap_i64 ◌-ℤ◌
told = refl

run-Alternates_example :
    Alternates
      (not (holds_judged "dev-b" running.online))
      (turns "dev-b" (run codec world running calls).0)
run-Alternates_example = run-Alternates codec world "dev-b" calls running

judged_iff_example :
    ((j : Judgement) × ((answer_local codec world fails
          (pos 2000)
          "dev-a"
          (unreachable_report "dev-b")
          (pos 2000)
          running).1
        ≡ fired (judged j) ∷ []))
    ↔ (IsUnjudged running "dev-a" "dev-b" (pos 2000)
        × Any
            (Counts "dev-b" (pos 2000) (testifies running "dev-a" "dev-b" (pos 2000)))
            (reports running "dev-a" "dev-b" (pos 2000))
        × (¬ Any
            (Lives "dev-b" (pos 2000) (testifies running "dev-a" "dev-b" (pos 2000)))
            (reports running "dev-a" "dev-b" (pos 2000))))
judged_iff_example = judged_iff codec world running fails (pos 2000) "dev-a" "dev-b" (pos 2000)

abbrev fork : KeyEvent Value
fork = record { at_ms = pos 5; action = "segment.forked"; detail = Toy.null }

empty-IsLog : IsLog (key_events_of server "dev-a")
unfolding key_events_of lookup
empty-IsLog = (omega arith, tt)

run-IsLog_example :
    IsLog (key_events_of (run codec world server registered_both).1 "dev-a")
    × (any (same_event fork) (
          key_events_of
            (step codec world (run codec world server registered_both).1 (
              answering fails
                (pos 6)
                "dev-a"
                (key_event fork.at_ms fork.action fork.detail)
                (pos 6))).1
            "dev-a")
        ≡ true)
run-IsLog_example =
    run-IsLog codec world "dev-a" registered_both server fails (pos 6) fork (pos 6) empty-IsLog

run-registry_example :
    let s' = (run codec world server registered_both).1 in
    (peer_keys world.keys s'.peers ≡ ok s'.keys)
    × (registry_from_body codec world.keys (registry_to_body codec world.keys (registry_of s'))
        ≡ ok (read_registry codec world s'))
run-registry_example =
    run-registry codec world "centre" known rooms server registered_both value_laws codec_laws made
