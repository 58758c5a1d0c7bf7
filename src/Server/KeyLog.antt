-- ===== src/Server/KeyLog.antt =====
-- What the log of key events of a node keeps (net/src/relay.rs).
use riscdom.Prelude.{
  Bool, Bool-cases, List, String, [], any, ap, arith, eq_iff, eq_refl, false, if◌then◌else◌, inl,
  inr, length, lookup, lookup-insert, ltb, refl, str_eq, sym, true, unwrap_or, ◌++◌, ◌||◌, ◌∙◌, ◌∷◌,
  ◌≡◌, ◌≤◌,
}
use riscdom.Prelude.Int.{eqb_ℤ_iff, ℤ}
use riscdom.Json.{Json, JsonLists}
use riscdom.Frames.{KeyEvent, Local, key_event, key_event_log, unreachable_report}
use riscdom.Sign.{World}
use riscdom.Routing.{Write}
use riscdom.Discovery.{Codec}
use riscdom.Server.{
  Call, RelayServer, answer_local, answering, binding, drop_oldest, judge_subject, keep_event,
  key_events_of, publishing_peers, publishing_rooms, routing, run, same_event, step, take_heartbeat,
  take_report, unbinding,
}

-- No two events of a log have one action and one time.
abbrev pub Distinct : {V : Type 0} → List (KeyEvent V) → Type 0
Distinct [] = Unit
Distinct (e ∷ es) = (any (same_event e) es ≡ false) × Distinct es

abbrev pub IsLog : {V : Type 0} → List (KeyEvent V) → Type 0
IsLog log = (length log ≤ key_event_log) × Distinct log

module _ {V : Type 0} where
  any-append :
      (f : KeyEvent V → Bool) (xs ys : List (KeyEvent V))
      → any f (xs ++ ys) ≡ (any f xs || any f ys)
  unfolding any
  any-append f [] ys = refl
  any-append f (x ∷ xs) ys = ground (arith, any-append f xs ys)

  same_event_sym : (a b : KeyEvent V) → same_event a b ≡ same_event b a
  same_event_sym a b = ground (
    arith,
    eq_iff b.action a.action,
    eq_iff a.action b.action,
    eqb_ℤ_iff b.at_ms a.at_ms,
    eqb_ℤ_iff a.at_ms b.at_ms,
  )

  Distinct-append :
      (log : List (KeyEvent V)) (e : KeyEvent V)
      → Distinct log
      → any (same_event e) log ≡ false
      → Distinct (log ++ e ∷ [])
  unfolding any
  Distinct-append [] e d new = (refl, tt)
  Distinct-append (x ∷ xs) e (apart, d) new = (
    any-append (same_event x) xs (e ∷ []) ∙ ground (arith, apart, same_event_sym x e),
    Distinct-append xs e d (ground arith),
  )

  drop_oldest-Distinct : (log : List (KeyEvent V)) → Distinct log → Distinct (drop_oldest log)
  unfolding drop_oldest
  drop_oldest-Distinct [] d = tt
  drop_oldest-Distinct (e ∷ es) d = elim (Bool-cases (ltb key_event_log (length (e ∷ es)))) [
    | inl over ↦ rw over (drop_oldest-Distinct es d.1)
    | inr within ↦ rw within d
  ]

  length-drop_oldest : (log : List (KeyEvent V)) → length (drop_oldest log) ≤ key_event_log
  unfolding drop_oldest
  length-drop_oldest [] = omega arith
  length-drop_oldest (e ∷ es) = ground (arith, length-drop_oldest es)

  keep_event-IsLog :
      (e : KeyEvent V) (log : List (KeyEvent V)) → IsLog log → IsLog (keep_event e log)
  unfolding keep_event
  keep_event-IsLog e log (short, d) = elim (Bool-cases (any (same_event e) log)) [
    | inl old ↦ rw old (short, d)
    | inr new ↦ rw new (
      length-drop_oldest (log ++ e ∷ []),
      drop_oldest-Distinct (log ++ e ∷ []) (Distinct-append log e d new),
    )
  ]

  newest_kept :
      (e : KeyEvent V) (log : List (KeyEvent V))
      → any (same_event e) (drop_oldest (log ++ e ∷ [])) ≡ true
  unfolding drop_oldest any
  newest_kept e [] = ground (arith, eq_iff e.action e.action, eqb_ℤ_iff e.at_ms e.at_ms)
  newest_kept e (x ∷ log) = elim (Bool-cases (ltb key_event_log (length (x ∷ (log ++ e ∷ []))))) [
    | inl over ↦ rw over (newest_kept e log)
    | inr within ↦ rw within (
        any-append (same_event e) (x ∷ log) (e ∷ [])
        ∙ ground (arith, eq_iff e.action e.action, eqb_ℤ_iff e.at_ms e.at_ms))
  ]

  keep_event-has :
      (e : KeyEvent V) (log : List (KeyEvent V)) → any (same_event e) (keep_event e log) ≡ true
  unfolding keep_event
  keep_event-has e log = elim (Bool-cases (any (same_event e) log)) [
    | inl old ↦ rw old old
    | inr new ↦ rw new (newest_kept e log)
  ]

module _ {V : Type 0} {Key : Type 0} ⦃json : Json V⦄ ⦃lists : JsonLists V⦄ (codec : Codec V)
    (world : World V Key) (p : String) where
  -- The events that a call brings of the node.
  abbrev pub events_of : Call V → List (KeyEvent V)
  events_of (answering write stamp from (key_event at_ms action detail) now) =
      if str_eq from p then record { at_ms = at_ms; action = action; detail = detail } ∷ [] else []
  events_of _ = []

  abbrev keep_all : List (KeyEvent V) → List (KeyEvent V) → List (KeyEvent V)
  keep_all log [] = log
  keep_all log (e ∷ es) = keep_all (keep_event e log) es

  answer-log :
      (s : RelayServer V Key) (write : Write) (stamp : ℤ) (from : String) (action : Local V)
      (now : ℤ)
      → key_events_of (step codec world s (answering write stamp from action now)).1 p
        ≡ keep_all (key_events_of s p) (events_of (answering write stamp from action now))
  unfolding step answer_local key_events_of take_heartbeat take_report judge_subject
  answer-log s write stamp from (key_event at_ms action detail) now =
      let e : KeyEvent V = record { at_ms = at_ms; action = action; detail = detail } in
      ground (
        arith,
        lookup-insert from p (keep_event e (unwrap_or (lookup from s.key_events) [])) s.key_events,
        eq_iff from p,
      )
  answer-log s write stamp from (unreachable_report node_id) now = ground arith
  answer-log s write stamp from _ now = ground arith

  step-log :
      (s : RelayServer V Key) (c : Call V)
      → key_events_of (step codec world s c).1 p ≡ keep_all (key_events_of s p) (events_of c)
  unfolding step key_events_of
  step-log s (answering write stamp from action now) = answer-log s write stamp from action now
  step-log s (routing write frame now) = refl
  step-log s (publishing_peers peers) = ground arith
  step-log s (publishing_rooms rooms) = ground arith
  step-log s (binding node_id addr) = refl
  step-log s (unbinding node_id id) = refl

  keep_all-IsLog : (es log : List (KeyEvent V)) → IsLog log → IsLog (keep_all log es)
  keep_all-IsLog [] log h = h
  keep_all-IsLog (e ∷ es) log h = keep_all-IsLog es (keep_event e log) (keep_event-IsLog e log h)

  -- The events that a run of calls brings of the node, in order.
  abbrev pub brought : List (Call V) → List (KeyEvent V)
  brought [] = []
  brought (c ∷ cs) = events_of c ++ brought cs

  keep_all-append :
      (es fs log : List (KeyEvent V)) → keep_all log (es ++ fs) ≡ keep_all (keep_all log es) fs
  keep_all-append [] fs log = refl
  keep_all-append (e ∷ es) fs log = keep_all-append es fs (keep_event e log)

  run-log :
      (cs : List (Call V)) (s : RelayServer V Key)
      → key_events_of (run codec world s cs).1 p ≡ keep_all (key_events_of s p) (brought cs)
  unfolding run
  run-log [] s = refl
  run-log (c ∷ cs) s =
      run-log cs (step codec world s c).1
      ∙ ap (λ (log : List (KeyEvent V)). keep_all log (brought cs)) (step-log s c)
      ∙ sym (keep_all-append (events_of c) (brought cs) (key_events_of s p))

  -- Whatever calls are made on a server, the log of key events of a node holds at most 256 events, no two
  -- of one action and one time; and if the last call brings an event of the node, the log holds one
  -- of its action and time after it.
  pub run-IsLog :
      (cs : List (Call V)) (s : RelayServer V Key) (write : Write) (stamp : ℤ) (e : KeyEvent V)
      (now : ℤ)
      → IsLog (key_events_of s p)
      → IsLog (key_events_of (run codec world s cs).1 p)
        × (any (same_event e) (
              key_events_of
                (step codec world
                  (run codec world s cs).1
                  (answering write stamp p (key_event e.at_ms e.action e.detail) now)).1
                p)
            ≡ true)
  run-IsLog cs s write stamp e now h = (
    rw run-log (keep_all-IsLog (brought cs) (key_events_of s p) h),
    rw step-log (rw eq_refl (keep_event-has e (key_events_of (run codec world s cs).1 p))),
  )
