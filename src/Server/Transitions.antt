-- ===== src/Server/Transitions.antt =====
-- The transitions about a node turn about (net/src/relay.rs).
use mathlib.Core.List.{append_assoc}
use riscdom.Prelude.{
  Bool, List, Option, Option-cases, String, [], ap, arith, eq_iff, false, if◌then◌else◌, inl, inr,
  is_some, length, lookup, lookup-insert, map, none, not, refl, some, str_eq, sym, true, ◌&&◌, ◌++◌,
  ◌∙◌, ◌∷◌, ◌≡◌,
}
use riscdom.Prelude.Int.{ℤ}
use riscdom.Json.{Json, JsonLists}
use riscdom.Frames.{
  Local, addresses, digest, heartbeat, hello, key_event, reachable_report, registering, registry,
  unreachable_report, unrecognised,
}
use riscdom.Sign.{World}
use riscdom.Routing.{Push, Write, forward_to, route}
use riscdom.Discovery.{Codec}
use riscdom.Online.{
  OnlineTable, Registration, Row, beat, clear_judged, heard_from, is_online, mark_judged, register,
  with_row,
}
use riscdom.Witness.{Judgement, judge, record_report}
use riscdom.Server.{
  Call, Effect, RecoverMethod, RelayServer, Transition, answer_local, answering, binding,
  by_heartbeat, by_probe, digest_received, fired, hear, judge_subject, judged, mark_judgement,
  publishing_peers, publishing_rooms, pushed, recovered, recovery, routing, run, step,
  take_heartbeat, take_report, unbinding,
}

-- The transitions about the node among the effects, in order: `true` for a judgement, `false` for a
-- recovery.
abbrev pub turn : String → Transition → List Bool
turn p (judged j) = if str_eq j.peer p then true ∷ [] else []
turn p (recovered q how) = if str_eq q p then false ∷ [] else []

abbrev pub turns : String → List Effect → List Bool
turns p [] = []
turns p (fired t ∷ es) = turn p t ++ turns p es
turns p (pushed push ∷ es) = turns p es
turns p (digest_received node_id head ∷ es) = turns p es

abbrev pub Alternates : Bool → List Bool → Type 0
Alternates next [] = Unit
Alternates next (b ∷ bs) = (b ≡ next) × Alternates (not next) bs

-- The node has a row with a judgement that holds.
abbrev pub holds_judged : String → OnlineTable → Bool
holds_judged p t = elim (lookup p t.nodes) [ none ↦ false | some r ↦ is_some r.judged_at_ms ]

abbrev after : Bool → List Bool → Bool
after b [] = b
after b (x ∷ xs) = after x xs

-- What the effects say of the node fits the judgement that held before them and the one that holds
-- after them.
abbrev same : Bool → Bool → Bool
same true b = b
same false b = not b

abbrev alternate : Bool → List Bool → Bool
alternate next [] = true
alternate next (b ∷ bs) = same b next && alternate (not next) bs

alternate-Alternates :
    (next : Bool) (bs : List Bool) → alternate next bs ≡ true → Alternates next bs
alternate-Alternates next [] h = tt
alternate-Alternates next (b ∷ bs) h =
    (ground arith, alternate-Alternates (not next) bs (ground arith))

abbrev Fits : Bool → List Bool → Bool → Type 0
Fits before bs then_held = (alternate (not before) bs ≡ true) × (then_held ≡ after before bs)

alternate-append :
    (b : Bool) (xs ys : List Bool)
    → alternate (not b) xs ≡ true
    → alternate (not (after b xs)) ys ≡ true
    → alternate (not b) (xs ++ ys) ≡ true
alternate-append b [] ys h k = k
alternate-append b (x ∷ xs) ys h k = ground (arith, alternate-append x xs ys)

after-append : (b : Bool) (xs ys : List Bool) → after b (xs ++ ys) ≡ after (after b xs) ys
after-append b [] ys = refl
after-append b (x ∷ xs) ys = after-append x xs ys

turns-append : (p : String) (es fs : List Effect) → turns p (es ++ fs) ≡ turns p es ++ turns p fs
turns-append p [] fs = refl
turns-append p (fired t ∷ es) fs =
    ap (◌++◌ (turn p t)) (turns-append p es fs)
    ∙ sym (append_assoc (turn p t) (turns p es) (turns p fs))
turns-append p (pushed push ∷ es) fs = turns-append p es fs
turns-append p (digest_received node_id head ∷ es) fs = turns-append p es fs

holds-with_row :
    (p : String) (t : OnlineTable) (q : String) (r : Row)
    → holds_judged p (with_row t q r)
      ≡ (if str_eq q p then is_some r.judged_at_ms else holds_judged p t)
holds-with_row p t q r = ground (arith, lookup-insert q p r t.nodes)

register-holds :
    (p : String) (t : OnlineTable) (q : String) (claims : Registration) (now : ℤ)
    → holds_judged p (register t q claims now).1 ≡ holds_judged p t
unfolding register
register-holds p t q claims now = elim (Option-cases (lookup q t.nodes)) [
  | inl e ↦ ground (
    arith,
    e,
    eq_iff q p,
    holds-with_row p t q (record {
      addresses = claims.addresses;
      capabilities = claims.capabilities;
      rooms = claims.rooms;
      last_heartbeat_ms = now;
      judged_at_ms = none;
    }),
  )
  | inr (r, e) ↦ ground (
    arith,
    e,
    eq_iff q p,
    holds-with_row p t q (record r {
      addresses = claims.addresses;
      capabilities = claims.capabilities;
      rooms = claims.rooms;
      last_heartbeat_ms = now;
    }),
  )
]

beat-holds :
    (p : String) (t : OnlineTable) (q : String) (now : ℤ)
    → holds_judged p (beat t q now).1 ≡ holds_judged p t
unfolding beat
beat-holds p t q now = elim (Option-cases (lookup q t.nodes)) [
  | inl e ↦ ground (arith, e)
  | inr (r, e) ↦
      ground (arith, e, eq_iff q p, holds-with_row p t q (record r { last_heartbeat_ms = now }))
]

heard_from-holds :
    (p : String) (t : OnlineTable) (q : String) (now : ℤ)
    → holds_judged p (heard_from t q now).1 ≡ holds_judged p t
unfolding heard_from
heard_from-holds p t q now = elim (Option-cases (lookup q t.nodes)) [
  | inl e ↦ ground (arith, e)
  | inr (r, e) ↦
      ground (arith, e, eq_iff q p, holds-with_row p t q (record r { last_heartbeat_ms = now }))
]

-- A judgement that is cleared is told as a recovery.
clear_judged-Fits :
    (p : String) (t : OnlineTable) (q : String) (how : RecoverMethod)
    → Fits
        (holds_judged p t)
        (turns p (recovery (clear_judged t q).0 q how))
        (holds_judged p (clear_judged t q).1)
unfolding clear_judged
clear_judged-Fits p t q how = elim (Option-cases (lookup q t.nodes)) [
  | inl e ↦ (ground (arith, e), ground (arith, e))
  | inr (r, e) ↦ (
    ground (arith, e, eq_iff q p, holds-with_row p t q (record r { judged_at_ms = none })),
    ground (arith, e, eq_iff q p, holds-with_row p t q (record r { judged_at_ms = none })),
  )
]

mark_judgement-Fits :
    (p : String) (t : OnlineTable) (o : Option Judgement) (now : ℤ)
    → Fits
        (holds_judged p t)
        (turns p (mark_judgement o now t).0)
        (holds_judged p (mark_judgement o now t).1)
unfolding mark_judgement mark_judged
mark_judgement-Fits p t none now = (refl, refl)
mark_judgement-Fits p t (some j) now = elim (Option-cases (lookup j.peer t.nodes)) [
  | inl e ↦ (ground (arith, e), ground (arith, e))
  | inr (r, e) ↦ (
    ground (
      arith,
      e,
      eq_iff j.peer p,
      holds-with_row p t j.peer (record r { judged_at_ms = some now }),
    ),
    ground (
      arith,
      e,
      eq_iff j.peer p,
      holds-with_row p t j.peer (record r { judged_at_ms = some now }),
    ),
  )
]

hear-Fits :
    (p : String) (t : OnlineTable) (q : String) (now : ℤ)
    → Fits (holds_judged p t) (turns p (hear t q now).0) (holds_judged p (hear t q now).1)
unfolding hear
hear-Fits p t q now =
    let (alternates, then_held) = clear_judged-Fits p t q by_probe in
    (alternates, ground (arith, then_held, heard_from-holds p (clear_judged t q).1 q now))

module _ {V : Type 0} {Key : Type 0} where
  heartbeat-Fits :
      (p : String) (s : RelayServer V Key) (from : String) (now : ℤ)
      → let (reply, effects, s') = take_heartbeat s from now in
        Fits (holds_judged p s.online) (turns p effects) (holds_judged p s'.online)
  unfolding take_heartbeat
  heartbeat-Fits p s from now =
      let beaten = beat-holds p s.online from now in
      let cleared = clear_judged-Fits p (beat s.online from now).1 from by_heartbeat in
      (ground (arith, beaten, cleared.0), ground (arith, beaten, cleared.1))

  report-Fits :
      (p : String) (s : RelayServer V Key) (from node_id : String) (life : Bool) (now : ℤ)
      → let (effects, s') = take_report s from node_id life now in
        Fits (holds_judged p s.online) (turns p effects) (holds_judged p s'.online)
  unfolding take_report judge_subject
  report-Fits p s from node_id false now =
      let s' : RelayServer V Key = record s {
        witnesses = record_report s.witnesses from node_id false now;
      } in
      mark_judgement-Fits p s.online
        (judge s'.witnesses node_id now (λ w. is_online s.online w now)) now
  report-Fits p s from node_id true now = hear-Fits p s.online node_id now

module _ {V : Type 0} {Key : Type 0} ⦃json : Json V⦄ ⦃lists : JsonLists V⦄ (codec : Codec V)
    (world : World V Key) (p : String) where
  answer-Fits :
      (s : RelayServer V Key) (write : Write) (stamp : ℤ) (from : String) (action : Local V)
      (now : ℤ)
      → let (reply, effects, s') = answer_local codec world write stamp from action now s in
        Fits (holds_judged p s.online) (turns p effects) (holds_judged p s'.online)
  unfolding answer_local
  answer-Fits s write stamp from hello now = (refl, refl)
  answer-Fits s write stamp from (unrecognised body) now = (refl, refl)
  answer-Fits s write stamp from (registering claims) now =
      let kept = register-holds p s.online from claims now in
      (ground (arith, kept), ground (arith, kept))
  answer-Fits s write stamp from heartbeat now = heartbeat-Fits p s from now
  answer-Fits s write stamp from (digest chain length) now = (refl, refl)
  answer-Fits s write stamp from (key_event at_ms action detail) now = (refl, refl)
  answer-Fits s write stamp from (unreachable_report node_id) now =
      report-Fits p s from node_id false now
  answer-Fits s write stamp from (reachable_report node_id) now =
      report-Fits p s from node_id true now
  answer-Fits s write stamp from (addresses node_id) now = (ground arith, ground arith)
  answer-Fits s write stamp from registry now = (ground arith, ground arith)

  no_turns : (pushes : List Push) → turns p (map pushed pushes) ≡ []
  no_turns [] = refl
  no_turns (push ∷ pushes) = no_turns pushes

  step-Fits :
      (s : RelayServer V Key) (c : Call V)
      → let (effects, s') = step codec world s c in
        Fits (holds_judged p s.online) (turns p effects) (holds_judged p s'.online)
  unfolding step
  step-Fits s (answering write stamp from action now) = answer-Fits s write stamp from action now
  step-Fits s (routing write frame now) =
      let silent =
        no_turns
          (route world frame s.node_id s.peers s.keys s.guard (forward_to write s.sessions)
            now).1 in
      (ground (arith, silent), ground (arith, silent))
  step-Fits s (publishing_peers peers) = (refl, ground arith)
  step-Fits s (publishing_rooms rooms) = (refl, ground arith)
  step-Fits s (binding node_id addr) = (refl, refl)
  step-Fits s (unbinding node_id id) = (refl, refl)

  run-Fits :
      (cs : List (Call V)) (s : RelayServer V Key)
      → let (effects, s') = run codec world s cs in
        Fits (holds_judged p s.online) (turns p effects) (holds_judged p s'.online)
  unfolding run
  run-Fits [] s = (refl, refl)
  run-Fits (c ∷ cs) s =
      let first = step-Fits s c in
      let rest = run-Fits cs (step codec world s c).1 in
      let joined =
        turns-append p (step codec world s c).0 (run codec world (step codec world s c).1 cs).0 in
      (
        rw joined (
            alternate-append (holds_judged p s.online) (turns p (step codec world s c).0) _ first.0
              (rw (← first.1) rest.0)),
        rest.1
            ∙ ap (λ (b : Bool). after b (turns p (run codec world (step codec world s c).1 cs).0))
                first.1
            ∙ sym (after-append (holds_judged p s.online) (turns p (step codec world s c).0) _)
            ∙ ap (λ (bs : List Bool). after (holds_judged p s.online) bs) (sym joined),
      )

  -- Whatever calls are made on a server, its transitions about a node turn about: a judgement is told
  -- only while none holds, and a recovery only while one does, whichever nodes report and whatever is
  -- routed, published, bound and retired in between.
  pub run-Alternates :
      (cs : List (Call V)) (s : RelayServer V Key)
      → Alternates (not (holds_judged p s.online)) (turns p (run codec world s cs).0)
  run-Alternates cs s = alternate-Alternates _ _ (run-Fits cs s).0
