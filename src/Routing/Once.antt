-- ===== src/Routing/Once.antt =====
-- That no frame is carried twice (net/src/relay.rs).
use riscdom.Replay
use riscdom.Prelude.{
  List, Result, Result-cases, String, [], ap, arith, inl, inr, ok, refl, some, sym, ◌++◌, ◌∙◌, ◌∷◌,
  ◌≡◌, ◌≢◌, ◌⊎◌,
}
use riscdom.Prelude.Int.{ℤ}
use riscdom.Json.{Json, JsonLists}
use riscdom.Replay.{Call, ReplayGuard, accept, call}
use riscdom.Replay.Once.{accepted_once}
use riscdom.Peers.{PeerKeys, PeersFile}
use riscdom.Frames.{hello}
use riscdom.Sign.{
  SignedMessage, World, accept_message, authenticate_forwarded, body_hash, parse_line,
}
use riscdom.Routing.{
  Arrival, Push, RelayError, Routed, arrive, arrive_all, forwarded, route, route_message,
  routed_local, to_server,
}

module _ {V : Type 0} {Key : Type 0} ⦃json : Json V⦄ ⦃lists : JsonLists V⦄
    (world : World V Key) where
  -- Every routing leaves the guard as it was, or after one call of `accept`.
  guard-route_message :
      (m : SignedMessage V) (frame me : String) (peers : PeersFile V) (keys : PeerKeys Key)
      (g : ReplayGuard) (forwarder : String → String → Result Push RelayError) (now : ℤ)
      → let g' = (route_message world m frame me peers keys g forwarder now).2 in
        (g' ≡ g) ⊎ (g' ≡ (accept g m.from m.ts (body_hash world m.body) now).1)
  unfolding route_message authenticate_forwarded accept_message
  guard-route_message m frame me peers keys g forwarder now = ground arith

  -- What is answered with success, and is no greeting, the guard has accepted.
  taken-route_message :
      (m : SignedMessage V) (frame me : String) (peers : PeersFile V) (keys : PeerKeys Key)
      (g : ReplayGuard) (forwarder : String → String → Result Push RelayError) (now : ℤ)
      (r : Routed V)
      → (route_message world m frame me peers keys g forwarder now).0 ≡ ok r
      → routed_local r ≢ some hello
      → ((accept g m.from m.ts (body_hash world m.body) now).0 ≡ ok tt)
        × ((route_message world m frame me peers keys g forwarder now).2
            ≡ (accept g m.from m.ts (body_hash world m.body) now).1)
  unfolding route_message authenticate_forwarded accept_message routed_local
  taken-route_message m frame me peers keys g forwarder now r h other =
      (ground (arith, other), ground (arith, other))

module _ {V : Type 0} {Key : Type 0} ⦃json : Json V⦄ ⦃lists : JsonLists V⦄ (world : World V Key)
    (me : String) where
  -- Some calls of `accept` make of the guard what any run of arrivals makes of it.
  guard-arrive :
      (g : ReplayGuard) (a : Arrival world)
      → (cs : List Call) × ((arrive world me g a).2 ≡ Replay.run g cs)
  unfolding route Replay.run
  guard-arrive g a = elim (Result-cases (parse_line world a.frame)) [
    | inl (m, e) ↦
        elim (guard-route_message world m a.frame me a.peers a.keys g a.forwarder a.now) [
          | inl same ↦ ([], ground (arith, e, same))
          | inr one ↦ (
            record { from = m.from; ts = m.ts; body_hash = body_hash world m.body; now = a.now }
                ∷ [],
            ground (arith, e, one),
          )
        ]
    | inr (why, e) ↦ ([], ground (arith, e))
  ]

  run-append :
      (cs ds : List Call) (g : ReplayGuard)
      → Replay.run g (cs ++ ds) ≡ Replay.run (Replay.run g cs) ds
  unfolding Replay.run
  run-append [] ds g = refl
  run-append (c ∷ cs) ds g = run-append cs ds (call g c).1

  guard-arrive_all :
      (as' : List (Arrival world)) (g : ReplayGuard)
      → (cs : List Call) × (arrive_all world me g as' ≡ Replay.run g cs)
  unfolding arrive_all
  guard-arrive_all [] g = ([], unfold Replay.run in refl)
  guard-arrive_all (a ∷ as') g =
      let (cs, first) = guard-arrive g a in
      let (ds, rest) = guard-arrive_all as' (arrive world me g a).2 in
      (cs ++ ds, rest ∙ ap (λ (h : ReplayGuard). Replay.run h ds) first ∙ sym (run-append cs ds g))

  greeting_or_not : (r : Routed V) → (routed_local r ≡ some hello) ⊎ (routed_local r ≢ some hello)
  unfolding routed_local
  greeting_or_not (forwarded from to) = inr (λ e. cc)
  greeting_or_not (to_server from to hello) = inl refl
  greeting_or_not (to_server from to action) = inr (λ e. cc)

  abbrev call_of : SignedMessage V → Arrival world → Call
  call_of m a = record { from = m.from; ts = m.ts; body_hash = body_hash world m.body; now = a.now }

  -- What is taken or handed on, the guard has accepted.
  taken-arrive :
      (g : ReplayGuard) (a : Arrival world) (m : SignedMessage V) (r : Routed V)
      → parse_line world a.frame ≡ ok m
      → (arrive world me g a).0 ≡ ok r
      → routed_local r ≢ some hello
      → ((call g (call_of m a)).0 ≡ ok tt) × ((arrive world me g a).2 ≡ (call g (call_of m a)).1)
  unfolding route
  taken-arrive g a m r read h other =
      let (accepted, then_guard) =
        taken-route_message world m a.frame me a.peers a.keys g a.forwarder a.now r
          (ground (arith, read, h)) other in
      (accepted, ground (arith, read, then_guard))

  -- Once the relay has handed a message on, or taken one for itself that is no greeting, it neither
  -- hands on nor takes a message of the same sender, timestamp and body again, except as a greeting,
  -- whatever frames come in between and whatever peers, keys and sessions it has then.
  pub carried_once :
      (g : ReplayGuard) (first again : Arrival world) (between : List (Arrival world))
      (m m' : SignedMessage V) (r r' : Routed V)
      → parse_line world first.frame ≡ ok m
      → parse_line world again.frame ≡ ok m'
      → m'.from ≡ m.from
      → m'.ts ≡ m.ts
      → m'.body ≡ m.body
      → (arrive world me g first).0 ≡ ok r
      → routed_local r ≢ some hello
      → (arrive world me (arrive_all world me (arrive world me g first).2 between) again).0 ≡ ok r'
      → routed_local r' ≡ some hello
  carried_once g first again between m m' r r' read read' same_from same_ts same_body taken other
        taken' =
      elim (greeting_or_not r') [
        | inl greeting ↦ greeting
        | inr no_greeting ↦
            let (accepted, then_guard) = taken-arrive g first m r read taken other in
            let (cs, later) = guard-arrive_all between (arrive world me g first).2 in
            let (accepted', last) =
              taken-arrive (arrive_all world me (arrive world me g first).2 between) again m' r'
                read' taken' no_greeting in
            let settled : arrive_all world me (arrive world me g first).2 between
                ≡ Replay.run (call g (call_of m first)).1 cs =
              later ∙ ap (λ (h : ReplayGuard). Replay.run h cs) then_guard in
            absurd (
              accepted_once g (call_of m first) cs (call_of m' again) accepted same_from same_ts
                (ap (body_hash world) same_body)
                (ap (λ (h : ReplayGuard). (call h (call_of m' again)).0) (sym settled) ∙ accepted'))
      ]
